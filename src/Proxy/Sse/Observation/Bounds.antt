-- ===== src/Proxy/Sse/Observation/Bounds.antt =====
-- What an observation holds on to is bounded, and finishing it twice is finishing it once.
use wildtoken.Prelude.{
  ℕ, ◌+◌, ◌-◌, ◌≤◌, ◌≡◌, refl, sym, ap, ◌∙◌, subst, Bool, true, false, Option, some, List, [], ◌∷◌,
  ◌++◌, leb, if◌then◌else◌, length, arith, Bool-cases, Option-cases, inl, inr, length-append,
  length-drop, leb→le, if_same, not, ◌&&◌, ◌||◌,
}
use wildtoken.Text.{Text, text_eq}
use wildtoken.Json.{Fields}
use wildtoken.Proxy.Usage.{is_present}
use wildtoken.Proxy.Sse.{trim_cr, codes, payload_of, line_has_visible_token, line_is_terminal}
use wildtoken.Proxy.Sse.Observation.{
  Observation, max_sse_event_bytes, overflow_tail_bytes, keep_last, kept_tail, segments,
  buffer_segment, observe_payload, take_segment, take_segments, observe_chunk, complete_line,
  observe_line, observe_oversized_tail, mark_first_token, mark_terminal, finish, line_done,
  after_last,
}

pub record IsBounded (o : Observation) : Type 0 where
  pub line_fits : length o.line_buf ≤ max_sse_event_bytes
  pub tail_fits : length o.overflow_tail ≤ overflow_tail_bytes

keep_last-le : (n : ℕ) (s : Text) → length (keep_last n s) ≤ n
unfolding keep_last
keep_last-le n s = omega (arith, length-drop (length s - n) s)

buffer_segment-IsBounded :
    (o : Observation) (s : Text) → IsBounded o → IsBounded (buffer_segment o s)
unfolding buffer_segment kept_tail
buffer_segment-IsBounded o s b = elim (Bool-cases o.line_overflow) [
  | inl over ↦ rw over record {
    line_fits = b.line_fits;
    tail_fits = keep_last-le overflow_tail_bytes (o.overflow_tail ++ s);
  }
  | inr within ↦ elim (Bool-cases (leb (length o.line_buf + length s) max_sse_event_bytes)) [
    | inl fits ↦
        rw (within, fits)
          record {
            line_fits = omega (arith, length-append o.line_buf s, leb→le _ _ fits);
            tail_fits = b.tail_fits;
          }
    | inr long ↦
        rw (within, long)
          record {
            line_fits = omega arith;
            tail_fits = keep_last-le overflow_tail_bytes (kept_tail [] o.line_buf ++ s);
          }
  ]
]

if-IsBounded :
    (b : Bool) (p q : Observation) → IsBounded p → IsBounded q → IsBounded (if b then p else q)
if-IsBounded true p q k l = k
if-IsBounded false p q k l = l

or_false : (a : Bool) → a || false ≡ a
or_false true = refl
or_false false = refl

module _ (decode decode_first : Text → Option Fields) where
  mark_first_token-tail :
      (o : Observation) (line : Text) (elapsed : ℕ)
      → (mark_first_token decode decode_first o line elapsed).overflow_tail ≡ o.overflow_tail
  unfolding mark_first_token
  mark_first_token-tail o line elapsed =
      if_same (λ p. p.overflow_tail)
        (not (is_present o.first_token_ms) && line_has_visible_token decode line)
        (record o { first_token_ms = some elapsed }) o refl

  mark_terminal-tail :
      (o : Observation) (line : Text)
      → (mark_terminal decode decode_first o line).overflow_tail ≡ o.overflow_tail
  unfolding mark_terminal
  mark_terminal-tail o line =
      if_same (λ p. p.overflow_tail) (not o.terminal_event_seen && line_is_terminal decode line)
        (record o { terminal_event_pending = true }) o refl

  observe_line-tail :
      (o : Observation) (line : Text) (elapsed : ℕ)
      → (observe_line decode decode_first o line elapsed).overflow_tail ≡ o.overflow_tail
  unfolding observe_line observe_payload
  observe_line-tail o line elapsed =
      let timed = mark_first_token-tail o line elapsed in
      elim (Bool-cases (text_eq (trim_cr line) [])) [
        | inl blank ↦ rw blank timed
        | inr full ↦ elim (Option-cases (payload_of decode (trim_cr line))) [
          | inl bare ↦ rw (full, bare) (mark_terminal-tail _ line ∙ timed)
          | inr (payload, sent) ↦ rw (full, sent) (mark_terminal-tail _ line ∙ timed)
        ]
      ]

  observe_oversized_tail-empties :
      (o : Observation) → (observe_oversized_tail decode decode_first o).overflow_tail ≡ []
  unfolding observe_oversized_tail
  observe_oversized_tail-empties o =
      elim (Option-cases (after_last (codes "\"usage\":") o.overflow_tail)) [
        | inl nothing ↦ rw (nothing, observe_oversized_tail) refl
        | inr (rest, found) ↦ elim (Option-cases (decode_first rest)) [
          | inl bad ↦ rw (found, bad, observe_oversized_tail) refl
          | inr (usage, read) ↦ rw (found, read, observe_oversized_tail) refl
        ]
      ]

  complete_line-IsBounded :
      (o : Observation) (elapsed : ℕ)
      → IsBounded o
      → IsBounded (complete_line decode decode_first o elapsed)
  unfolding complete_line
  complete_line-IsBounded o elapsed b =
      if-IsBounded o.line_overflow (line_done (observe_oversized_tail decode decode_first o))
        (line_done (observe_line decode decode_first o o.line_buf elapsed))
        record {
          line_fits = omega arith;
          tail_fits =
              subst (λ t. length t ≤ overflow_tail_bytes) (sym (observe_oversized_tail-empties o))
                (omega arith);
        }
        record {
          line_fits = omega arith;
          tail_fits =
              subst (λ t. length t ≤ overflow_tail_bytes)
                (sym (observe_line-tail o o.line_buf elapsed)) b.tail_fits;
        }

  take_segment-IsBounded :
      (o : Observation) (s : Text × Bool) (elapsed : ℕ)
      → IsBounded o
      → IsBounded (take_segment decode decode_first o s elapsed)
  unfolding take_segment
  take_segment-IsBounded o (s, true) elapsed b =
      complete_line-IsBounded (buffer_segment o s) elapsed (buffer_segment-IsBounded o s b)
  take_segment-IsBounded o (s, false) elapsed b = buffer_segment-IsBounded o s b

  take_segments-IsBounded :
      (o : Observation) (rest : List (Text × Bool)) (elapsed : ℕ)
      → IsBounded o
      → IsBounded (take_segments decode decode_first o rest elapsed)
  unfolding take_segments
  take_segments-IsBounded o [] elapsed b = b
  take_segments-IsBounded o (s ∷ rest) elapsed b =
      take_segments-IsBounded (take_segment decode decode_first o s elapsed) rest elapsed
        (take_segment-IsBounded o s elapsed b)

  -- Whatever a stream sends, at most 4 MiB of a line and 64 KiB of the end of an overlong one are
  -- held between two chunks, if they were before.
  pub observe_chunk-IsBounded :
      (o : Observation) (chunk : Text) (elapsed : ℕ)
      → IsBounded o
      → IsBounded (observe_chunk decode decode_first o chunk elapsed)
  unfolding observe_chunk
  observe_chunk-IsBounded o chunk elapsed b = take_segments-IsBounded o (segments chunk) elapsed b

  -- Finishing an observation leaves nothing for a second call to observe.
  pub finish-finish :
      (o : Observation) (first second : ℕ)
      → finish decode decode_first (finish decode decode_first o first) second
        ≡ finish decode decode_first o first
  unfolding finish text_eq
  finish-finish o first second =
      let once = finish decode decode_first o first in
      ap (λ seen. record once { terminal_event_seen = seen }) (or_false once.terminal_event_seen)
