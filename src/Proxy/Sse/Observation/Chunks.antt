-- ===== src/Proxy/Sse/Observation/Chunks.antt =====
-- A stream is observed alike however the network cuts it into chunks.
use wildtoken.Prelude.{
  ℕ, zero, suc, ◌+◌, ◌-◌, ◌≡◌, refl, sym, ap, ◌∙◌, Bool, true, false, Option, List, [], ◌∷◌, ◌++◌,
  leb, ◌==◌, if◌then◌else◌, drop, length, arith, Bool-cases, inl, inr, length-append, length-drop,
  drop-append_le,
}
use wildtoken.Text.{Text}
use wildtoken.Json.{Fields}
use wildtoken.Proxy.Sse.Observation.{
  Observation, max_sse_event_bytes, overflow_tail_bytes, keep_last, kept_tail, segments,
  onto_segment, buffer_segment, take_segment, take_segments, complete_line, observe_chunk,
}

drop_nil : (n : ℕ) → drop {A = ℕ} n [] ≡ []
drop_nil zero = refl
drop_nil (suc n) = refl

pub drop-drop : (m n : ℕ) (s : Text) → drop n (drop m s) ≡ drop (m + n) s
drop-drop zero n s = ap (λ k. drop k s) (omega arith)
drop-drop (suc m) n [] = drop_nil n ∙ sym (drop_nil (suc m + n))
drop-drop (suc m) n (c ∷ cs) =
    drop-drop m n cs ∙ ap (λ k. drop k (c ∷ cs)) {x = suc (m + n)} (omega arith)

append_assoc : (r s t : Text) → (r ++ s) ++ t ≡ r ++ (s ++ t)
append_assoc [] s t = refl
append_assoc (c ∷ r) s t = ap (λ u. c ∷ u) (append_assoc r s t)

pub keep_last-append :
    (n : ℕ) (s t : Text) → keep_last n (keep_last n s ++ t) ≡ keep_last n (s ++ t)
unfolding keep_last
keep_last-append n s t =
    let k = length s - n in
    let joined = drop-append_le k s t (omega arith) in
    ap (λ u. drop (length u - n) u) (sym joined)
    ∙ drop-drop k (length (drop k (s ++ t)) - n) (s ++ t)
    ∙ ap (λ m. drop m (s ++ t)) (omega (arith, length-drop k (s ++ t), length-append s t))

kept_tail-append : (tail s t : Text) → kept_tail (kept_tail tail s) t ≡ kept_tail tail (s ++ t)
unfolding kept_tail
kept_tail-append tail s t =
    keep_last-append overflow_tail_bytes (tail ++ s) t
    ∙ ap (keep_last overflow_tail_bytes) (append_assoc tail s t)

kept_tail-start :
    (r s t : Text) → kept_tail (kept_tail [] r) (s ++ t) ≡ kept_tail (kept_tail [] (r ++ s)) t
kept_tail-start r s t =
    kept_tail-append [] r (s ++ t)
    ∙ ap (kept_tail []) (sym (append_assoc r s t))
    ∙ sym (kept_tail-append [] (r ++ s) t)

pub buffer_segment-append :
    (o : Observation) (s t : Text)
    → buffer_segment (buffer_segment o s) t ≡ buffer_segment o (s ++ t)
unfolding buffer_segment
buffer_segment-append o s t = elim (Bool-cases o.line_overflow) [
  | inl over ↦ rw over (
      ap (λ (u : Text). record o { overflow_tail = u; line_overflow = true })
        (kept_tail-append o.overflow_tail s t))
  | inr within ↦ elim (Bool-cases (leb (length o.line_buf + length s) max_sse_event_bytes)) [
    | inl first_fits ↦
        elim (Bool-cases (leb (length o.line_buf + length (s ++ t)) max_sse_event_bytes)) [
          | inl both_fit ↦
              let again : leb (length (o.line_buf ++ s) + length t) max_sse_event_bytes ≡ true =
                ground (arith, length-append o.line_buf s, length-append s t, both_fit) in
              rw (within, first_fits, both_fit, again)
                (ap (λ (u : Text). record o { line_buf = u; line_overflow = false })
                  (append_assoc o.line_buf s t))
          | inr too_long ↦
              let again : leb (length (o.line_buf ++ s) + length t) max_sse_event_bytes ≡ false =
                ground (arith, length-append o.line_buf s, length-append s t, too_long) in
              rw (within, first_fits, too_long, again)
                (ap
                  (λ (u : Text). record o {
                    overflow_tail = u;
                    line_buf = [];
                    line_overflow = true;
                  })
                  (sym (kept_tail-start o.line_buf s t)))
        ]
    | inr first_long ↦
        let longer : leb (length o.line_buf + length (s ++ t)) max_sse_event_bytes ≡ false =
          ground (arith, length-append s t, first_long) in
        rw (within, first_long, longer)
          (ap (λ (u : Text). record o { overflow_tail = u; line_buf = []; line_overflow = true })
            (kept_tail-append (kept_tail [] o.line_buf) s t))
  ]
]

module _ (decode decode_first : Text → Option Fields) (elapsed : ℕ) where
  -- The observation after one byte.
  abbrev pub after_byte : Observation → ℕ → Observation
  after_byte o c =
      take_segment decode decode_first o (if c == b'\n' then ([], true) else (c ∷ [], false))
        elapsed

  take_segments-onto :
      (o : Observation) (c : ℕ) (rest : List (Text × Bool))
      → take_segments decode decode_first o (onto_segment c rest) elapsed
        ≡ take_segments decode decode_first
            (take_segment decode decode_first o (c ∷ [], false) elapsed)
            rest
            elapsed
  unfolding take_segments take_segment
  take_segments-onto o c [] = refl
  take_segments-onto o c ((s, complete) ∷ rest) =
      ap
        (λ buffered.
          take_segments decode decode_first
            (if complete then complete_line decode decode_first buffered elapsed else buffered) rest
            elapsed)
        (sym (buffer_segment-append o (c ∷ []) s))

  pub observe_chunk-byte :
      (o : Observation) (c : ℕ) (cs : Text)
      → observe_chunk decode decode_first o (c ∷ cs) elapsed
        ≡ observe_chunk decode decode_first (after_byte o c) cs elapsed
  unfolding observe_chunk segments take_segments
  observe_chunk-byte o c cs = elim (Bool-cases (c == b'\n')) [
    | inl newline ↦ rw newline refl
    | inr other ↦ rw other (take_segments-onto o c (segments cs))
  ]

  -- Two chunks in a row are observed as the one chunk that they make up, wherever it is cut: within
  -- a line, at its end, and within a line that is too long to keep.
  pub observe_chunk-append :
      (o : Observation) (a b : Text)
      → observe_chunk decode decode_first (observe_chunk decode decode_first o a elapsed) b elapsed
        ≡ observe_chunk decode decode_first o (a ++ b) elapsed
  observe_chunk-append o [] b = unfold observe_chunk segments take_segments in refl
  observe_chunk-append o (c ∷ cs) b =
      ap (λ p. observe_chunk decode decode_first p b elapsed) (observe_chunk-byte o c cs)
      ∙ observe_chunk-append (after_byte o c) cs b
      ∙ sym (observe_chunk-byte o c (cs ++ b))
