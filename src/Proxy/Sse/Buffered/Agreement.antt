-- ===== src/Proxy/Sse/Buffered/Agreement.antt =====
-- What a stream is observed to carry is what is read from its body once that has arrived whole.
use wildtoken.Prelude.{
  ℕ, ◌≡◌, refl, sym, ap, ◌∙◌, subst, true, not, ◌&&◌, Option, none, some, List, [], ◌∷◌, ◌++◌, All,
  Bool-cases, Option-cases, inl, inr, if_same,
}
use wildtoken.Text.{Text, text_eq}
use wildtoken.Json.{Fields}
use wildtoken.Proxy.Usage.{UsageReport, reported_usage, is_present}
use wildtoken.Proxy.Sse.{
  trim_cr, trim_space, trim_right, trim_from, sse_data, sse_lines, payload_of,
  line_has_visible_token, line_is_terminal,
}
use wildtoken.Proxy.Sse.Observation.{
  Observation, nothing_observed, token_usage, observe_payload, with_payload, mark_first_token,
  mark_terminal, observe_line, observe_chunk, finish, segments, take_segments,
}
use wildtoken.Proxy.Sse.Observation.Chunks.{observe_chunk-append}
use wildtoken.Proxy.Sse.Buffered.{
  added, add_line, add_lines, sent_payload, extract_usage, is_sse_content_type,
}
use wildtoken.Proxy.Sse.Buffered.Lines.{
  lines_from, IsKept, nil_of_text_eq, sse_data-trim_cr, lines_from-prepend, prepend-nil,
}
use wildtoken.Proxy.Sse.Buffered.View.{View, steps, view-chunk}

abbrev pub joined : List Text → Text
joined [] = []
joined (chunk ∷ chunks) = chunk ++ joined chunks

lines_from_start : (body : Text) → lines_from [] body ≡ sse_lines body
lines_from_start body = lines_from-prepend [] body ∙ prepend-nil (sse_lines body)

sse_data_nil : sse_data [] ≡ none
unfolding sse_data trim_space trim_right trim_from
sse_data_nil = refl

module _ (decode decode_first : Text → Option Fields) where
  -- The chunks of a body, one after the other.
  abbrev pub observe_chunks : Observation → List Text → ℕ → Observation
  observe_chunks o [] elapsed = o
  observe_chunks o (chunk ∷ chunks) elapsed =
      observe_chunks (observe_chunk decode decode_first o chunk elapsed) chunks elapsed

  observe_chunks-joined :
      (chunks : List Text) (o : Observation) (elapsed : ℕ)
      → observe_chunks o chunks elapsed
        ≡ observe_chunk decode decode_first o (joined chunks) elapsed
  observe_chunks-joined [] o elapsed = unfold observe_chunk segments take_segments in refl
  observe_chunks-joined (chunk ∷ chunks) o elapsed =
      observe_chunks-joined chunks (observe_chunk decode decode_first o chunk elapsed) elapsed
      ∙ observe_chunk-append decode decode_first elapsed o chunk (joined chunks)

  blank_payload : (line : Text) → text_eq (trim_cr line) [] ≡ true → sent_payload decode line ≡ none
  unfolding sent_payload
  blank_payload line blank =
      let nothing : sse_data line ≡ none =
        sym (sse_data-trim_cr line)
        ∙ ap sse_data (nil_of_text_eq (trim_cr line) blank)
        ∙ sse_data_nil in
      rw (nothing, sent_payload) refl

  payload-sent :
      (line : Text) → decode [] ≡ none → payload_of decode (trim_cr line) ≡ sent_payload decode line
  unfolding payload_of sent_payload text_eq
  payload-sent line h = elim (Option-cases (sse_data line)) [
    | inl nothing ↦ rw (sse_data-trim_cr line, nothing, payload_of, sent_payload) refl
    | inr (sent, found) ↦ elim (Bool-cases (text_eq sent [])) [
      | inl empty ↦
          rw (sse_data-trim_cr line, found, empty, payload_of, sent_payload)
            (rw (nil_of_text_eq sent empty) (sym h))
      | inr full ↦ rw (sse_data-trim_cr line, found, full, payload_of, sent_payload) refl
    ]
  ]

  with_payload-usage :
      (o : Observation) (p : Option Fields) → (with_payload o p).usage ≡ added decode o.usage p
  unfolding observe_payload
  with_payload-usage o none = refl
  with_payload-usage o (some payload) = refl

  mark_first_token-usage :
      (o : Observation) (line : Text) (elapsed : ℕ)
      → (mark_first_token decode decode_first o line elapsed).usage ≡ o.usage
  unfolding mark_first_token
  mark_first_token-usage o line elapsed =
      if_same (λ p. p.usage)
        (not (is_present o.first_token_ms) && line_has_visible_token decode line)
        (record o { first_token_ms = some elapsed }) o refl

  mark_terminal-usage :
      (o : Observation) (line : Text) → (mark_terminal decode decode_first o line).usage ≡ o.usage
  unfolding mark_terminal
  mark_terminal-usage o line =
      if_same (λ p. p.usage) (not o.terminal_event_seen && line_is_terminal decode line)
        (record o { terminal_event_pending = true }) o refl

  observe_line-usage :
      (o : Observation) (line : Text) (elapsed : ℕ)
      → decode [] ≡ none
      → (observe_line decode decode_first o line elapsed).usage ≡ add_line decode o.usage line
  unfolding observe_line add_line
  observe_line-usage o line elapsed h =
      let timed = mark_first_token-usage o line elapsed in
      elim (Bool-cases (text_eq (trim_cr line) [])) [
        | inl blank ↦ rw (blank, blank_payload line blank) timed
        | inr full ↦
            rw (full, payload-sent line h)
              (with_payload-usage _ (sent_payload decode line)
                ∙ ap (λ r. added decode r (sent_payload decode line))
                    (mark_terminal-usage _ line ∙ timed))
      ]

  unfoldable usage_view : decode [] ≡ none → View decode decode_first UsageReport
  usage_view h = record {
    view = λ o. o.usage;
    step = add_line decode;
    observes = λ o line elapsed. observe_line-usage o line elapsed h;
    buffers = λ o buf. refl;
    settles = λ o. refl;
  }

  steps-add_lines :
      (r : UsageReport) (lines : List Text)
      → steps decode decode_first (add_line decode) r lines ≡ add_lines decode r lines
  steps-add_lines r [] = refl
  steps-add_lines r (line ∷ rest) = steps-add_lines (add_line decode r line) rest

  -- However the network cuts a body into chunks, the usage that is observed as they pass is the usage
  -- that ExtractUsage reads from the whole body, where no line is longer than the buffer and an empty
  -- text is not JSON.
  pub streamed_usage :
      (chunks : List Text) (content_type : Text) (elapsed finished : ℕ)
      → decode [] ≡ none
      → is_sse_content_type content_type ≡ true
      → All IsKept (sse_lines (joined chunks))
      → token_usage
          (finish decode decode_first (observe_chunks nothing_observed chunks elapsed) finished)
        ≡ extract_usage decode (joined chunks) content_type
  unfolding extract_usage usage_view
  streamed_usage chunks content_type elapsed finished h sse kept =
      let lines = lines_from_start (joined chunks) in
      let kept' : All IsKept (lines_from [] (joined chunks)) =
        subst (All IsKept) (sym lines) kept in
      rw sse (
        ap (λ o. token_usage (finish decode decode_first o finished))
          (observe_chunks-joined chunks nothing_observed elapsed)
        ∙ ap reported_usage (
            view-chunk decode decode_first (usage_view h) elapsed finished (joined chunks)
              nothing_observed refl kept'
            ∙ ap (steps decode decode_first (add_line decode) none) lines
            ∙ steps-add_lines none (sse_lines (joined chunks))))
