-- ===== src/Proxy/Sse/Buffered/View.antt =====
-- What is seen of a stream line by line is seen of it chunk by chunk.
use wildtoken.Prelude.{
  ℕ, ◌+◌, ◌≤◌, ◌≡◌, refl, sym, ap, ◌∙◌, subst, true, false, Option, List, [], ◌∷◌, ◌++◌, leb, ◌==◌,
  length, All, arith, Bool-cases, inl, inr, length-append,
}
use wildtoken.Text.{Text, text_eq}
use wildtoken.Json.{Fields}
use wildtoken.Proxy.Sse.Observation.{
  Observation, max_sse_event_bytes, buffer_segment, complete_line, take_segment, take_segments,
  segments, observe_line, observe_chunk, finish, line_done, settle_terminal,
}
use wildtoken.Proxy.Sse.Observation.Chunks.{observe_chunk-byte, after_byte}
use wildtoken.Proxy.Sse.Buffered.Lines.{lines_from, IsKept, append_nil, buffered-IsKept}

buffered :
    (o : Observation) (s : Text)
    → o.line_overflow ≡ false
    → length o.line_buf + length s ≤ max_sse_event_bytes
    → buffer_segment o s ≡ record o { line_buf = o.line_buf ++ s; line_overflow = false }
unfolding buffer_segment
buffered o s within h =
    let fits : leb (length o.line_buf + length s) max_sse_event_bytes ≡ true = ground arith in
    rw (within, fits) refl

lines_from-newline :
    (buf : Text) (c : ℕ) (cs : Text)
    → (c == b'\n') ≡ true
    → lines_from buf (c ∷ cs) ≡ buf ∷ lines_from [] cs
unfolding lines_from
lines_from-newline buf c cs e = rw e refl

lines_from-other :
    (buf : Text) (c : ℕ) (cs : Text)
    → (c == b'\n') ≡ false
    → lines_from buf (c ∷ cs) ≡ lines_from (buf ++ c ∷ []) cs
unfolding lines_from
lines_from-other buf c cs e = rw e refl

module _ (decode decode_first : Text → Option Fields) where
  -- A part of the observation that each line changes on its own, and nothing else does.
  pub record View (A : Type 0) : Type 0 where
    pub view : Observation → A
    pub step : A → Text → A
    pub observes :
        (o : Observation) (line : Text) (elapsed : ℕ)
        → view (observe_line decode decode_first o line elapsed) ≡ step (view o) line
    pub buffers :
        (o : Observation) (buf : Text)
        → view (record o { line_buf = buf; line_overflow = false }) ≡ view o
    pub settles : (o : Observation) → view (settle_terminal o) ≡ view o

  abbrev pub steps : {A : Type 0} → (A → Text → A) → A → List Text → A
  steps step a [] = a
  steps step a (line ∷ rest) = steps step (step a line) rest

  module _ {A : Type 0} (v : View A) (elapsed finished : ℕ) where
    finish-view :
        (o : Observation)
        → o.line_overflow ≡ false
        → v.view (finish decode decode_first o finished)
          ≡ steps v.step (v.view o) (lines_from o.line_buf [])
    unfolding finish lines_from
    finish-view o within = elim (Bool-cases (text_eq o.line_buf [])) [
      | inl nothing ↦ rw (within, nothing) (v.settles _ ∙ v.buffers _ [])
      | inr full ↦ rw (within, full) (v.settles _ ∙ v.buffers _ [] ∙ v.observes _ _ finished)
    ]

    line_end :
        (o : Observation)
        → o.line_overflow ≡ false
        → IsKept o.line_buf
        → take_segment decode decode_first o ([], true) elapsed
          ≡ line_done (
              observe_line decode decode_first
                (record o { line_buf = o.line_buf ++ []; line_overflow = false })
                (o.line_buf ++ [])
                elapsed)
    unfolding take_segment complete_line
    line_end o within kept =
        ap (λ p. complete_line decode decode_first p elapsed) (buffered o [] within (omega arith))

    buffer_byte :
        (o : Observation) (c : ℕ)
        → o.line_overflow ≡ false
        → length o.line_buf + 1 ≤ max_sse_event_bytes
        → take_segment decode decode_first o (c ∷ [], false) elapsed
          ≡ record o { line_buf = o.line_buf ++ c ∷ []; line_overflow = false }
    unfolding take_segment
    buffer_byte o c within h = buffered o (c ∷ []) within (omega arith)

    abbrev line_ended : Observation → Observation
    line_ended o = line_done (
        observe_line decode decode_first
          (record o { line_buf = o.line_buf ++ []; line_overflow = false }) (o.line_buf ++ [])
          elapsed)

    abbrev seen : Observation → A
    seen o = v.view (finish decode decode_first o finished)

    view-line_ended : (o : Observation) → v.view (line_ended o) ≡ v.step (v.view o) o.line_buf
    view-line_ended o =
        v.buffers _ []
        ∙ v.observes _ (o.line_buf ++ []) elapsed
        ∙ ap (λ a. v.step a (o.line_buf ++ [])) (v.buffers o (o.line_buf ++ []))
        ∙ ap (v.step (v.view o)) (append_nil o.line_buf)

    -- A view of it steps once through each.
    pub view-chunk :
        (body : Text) (o : Observation)
        → o.line_overflow ≡ false
        → All IsKept (lines_from o.line_buf body)
        → v.view
            (finish decode decode_first (observe_chunk decode decode_first o body elapsed) finished)
          ≡ steps v.step (v.view o) (lines_from o.line_buf body)
    view-chunk [] o within kept =
        unfold observe_chunk segments take_segments in finish-view o within
    view-chunk (c ∷ cs) o within kept = elim (Bool-cases (c == b'\n')) [
      | inl newline ↦
          let here = lines_from-newline o.line_buf c cs newline in
          let rest : All IsKept (o.line_buf ∷ lines_from [] cs) = subst (All IsKept) here kept in
          let after = line_ended o in
          let byte : after_byte decode decode_first elapsed o c ≡ after =
            rw newline (line_end o within rest.0) in
          ap seen (
            observe_chunk-byte decode decode_first elapsed o c cs
            ∙ ap (λ p. observe_chunk decode decode_first p cs elapsed) byte)
          ∙ view-chunk cs after refl rest.1
          ∙ ap (λ a. steps v.step a (lines_from [] cs)) (view-line_ended o)
          ∙ ap (steps v.step (v.view o)) (sym here)
      | inr other ↦
          let here = lines_from-other o.line_buf c cs other in
          let rest : All IsKept (lines_from (o.line_buf ++ c ∷ []) cs) =
            subst (All IsKept) here kept in
          let fits : length (o.line_buf ++ c ∷ []) ≤ max_sse_event_bytes =
            buffered-IsKept _ cs rest in
          let after : Observation = record o {
            line_buf = o.line_buf ++ c ∷ [];
            line_overflow = false;
          } in
          let byte : after_byte decode decode_first elapsed o c ≡ after =
            rw other
              (buffer_byte o c within (omega (arith, length-append o.line_buf (c ∷ []), fits))) in
          ap seen (
            observe_chunk-byte decode decode_first elapsed o c cs
            ∙ ap (λ p. observe_chunk decode decode_first p cs elapsed) byte)
          ∙ view-chunk cs after refl rest
          ∙ ap (λ a. steps v.step a (lines_from (o.line_buf ++ c ∷ []) cs))
              (v.buffers o (o.line_buf ++ c ∷ []))
          ∙ ap (steps v.step (v.view o)) (sym here)
    ]
