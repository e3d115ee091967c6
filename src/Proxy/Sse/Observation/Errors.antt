-- ===== src/Proxy/Sse/Observation/Errors.antt =====
-- An error that a stream has reported stays the error that its observation holds.
use wildtoken.Prelude.{
  ℕ, ◌≡◌, ap, ◌∙◌, Bool, not, ◌&&◌, Option, none, some, List, [], ◌∷◌, ◌+◌, leb, length, if_all,
  option_all,
}
use wildtoken.Text.{Text, text_eq}
use wildtoken.Json.{Fields}
use wildtoken.Proxy.Usage.{is_present}
use wildtoken.Proxy.Sse.{
  trim_cr, codes, payload_of, line_has_visible_token, line_is_terminal, stream_error_from_value,
}
use wildtoken.Proxy.Sse.Observation.{
  Observation, max_sse_event_bytes, error_text, error_fault, kept_or, kept_fault, segments,
  buffer_segment, observe_payload, take_segment, take_segments, observe_chunk, complete_line,
  observe_line, observe_oversized_tail, mark_first_token, mark_terminal, finish, after_last,
  with_payload,
}

-- The first error that was reported, and whether it blames the channel.
abbrev pub HasError : Text → Bool → Observation → Type 0
HasError message fault o = (o.stream_error ≡ some message) × (o.stream_error_fault ≡ fault)

module _ (decode decode_first : Text → Option Fields) (message : Text) (fault : Bool) where
  abbrev Has : Observation → Type 0
  Has o = HasError message fault o

  observe_payload-Has :
      (o : Observation) (payload : Fields) → Has o → Has (observe_payload o payload)
  unfolding observe_payload
  observe_payload-Has o payload (e, blame) = (
    ap (λ (x : Option Text). kept_or x (error_text (stream_error_from_value payload))) e,
    ap
          (λ (x : Option Text).
            kept_fault x o.stream_error_fault (error_fault (stream_error_from_value payload)))
          e
        ∙ blame,
  )

  mark_first_token-Has :
      (o : Observation) (line : Text) (elapsed : ℕ)
      → Has o
      → Has (mark_first_token decode decode_first o line elapsed)
  unfolding mark_first_token
  mark_first_token-Has o line elapsed h =
      if_all Has (not (is_present o.first_token_ms) && line_has_visible_token decode line) _ _ h h

  mark_terminal-Has :
      (o : Observation) (line : Text) → Has o → Has (mark_terminal decode decode_first o line)
  unfolding mark_terminal
  mark_terminal-Has o line h =
      if_all Has (not o.terminal_event_seen && line_is_terminal decode line) _ _ h h

  with_payload-Has :
      (o : Observation) (payload : Option Fields) → Has o → Has (with_payload o payload)
  with_payload-Has o none h = h
  with_payload-Has o (some payload) h = observe_payload-Has o payload h

  observe_line-Has :
      (o : Observation) (line : Text) (elapsed : ℕ)
      → Has o
      → Has (observe_line decode decode_first o line elapsed)
  unfolding observe_line
  observe_line-Has o line elapsed h =
      let timed = mark_first_token decode decode_first o line elapsed in
      let k = mark_first_token-Has o line elapsed h in
      if_all Has (text_eq (trim_cr line) []) _ _ k (
        with_payload-Has (mark_terminal decode decode_first timed line)
          (payload_of decode (trim_cr line)) (mark_terminal-Has timed line k))

  observe_oversized_tail-Has :
      (o : Observation) → Has o → Has (observe_oversized_tail decode decode_first o)
  unfolding observe_oversized_tail
  observe_oversized_tail-Has o h =
      option_all Has (after_last (codes "\"usage\":") o.overflow_tail) _ _ h
        (λ rest. option_all Has (decode_first rest) _ _ h (λ usage. h))

  complete_line-Has :
      (o : Observation) (elapsed : ℕ) → Has o → Has (complete_line decode decode_first o elapsed)
  unfolding complete_line
  complete_line-Has o elapsed h =
      if_all Has o.line_overflow _ _ (observe_oversized_tail-Has o h)
        (observe_line-Has o o.line_buf elapsed h)

  buffer_segment-Has : (o : Observation) (segment : Text) → Has o → Has (buffer_segment o segment)
  unfolding buffer_segment
  buffer_segment-Has o segment h =
      if_all Has o.line_overflow _ _ h
        (if_all Has (leb (length o.line_buf + length segment) max_sse_event_bytes) _ _ h h)

  take_segment-Has :
      (o : Observation) (s : Text × Bool) (elapsed : ℕ)
      → Has o
      → Has (take_segment decode decode_first o s elapsed)
  unfolding take_segment
  take_segment-Has o (segment, complete) elapsed h =
      let k = buffer_segment-Has o segment h in
      if_all Has complete _ _ (complete_line-Has (buffer_segment o segment) elapsed k) k

  take_segments-Has :
      (o : Observation) (rest : List (Text × Bool)) (elapsed : ℕ)
      → Has o
      → Has (take_segments decode decode_first o rest elapsed)
  unfolding take_segments
  take_segments-Has o [] elapsed h = h
  take_segments-Has o (s ∷ rest) elapsed h =
      take_segments-Has (take_segment decode decode_first o s elapsed) rest elapsed
        (take_segment-Has o s elapsed h)

  pub observe_chunk-HasError :
      (o : Observation) (chunk : Text) (elapsed : ℕ)
      → HasError message fault o
      → HasError message fault (observe_chunk decode decode_first o chunk elapsed)
  unfolding observe_chunk
  observe_chunk-HasError o chunk elapsed h = take_segments-Has o (segments chunk) elapsed h

  pub finish-HasError :
      (o : Observation) (elapsed : ℕ)
      → HasError message fault o
      → HasError message fault (finish decode decode_first o elapsed)
  unfolding finish
  finish-HasError o elapsed h =
      if_all Has o.line_overflow _ _ (observe_oversized_tail-Has o h)
        (if_all Has (text_eq o.line_buf []) _ _ h (observe_line-Has o o.line_buf elapsed h))
