-- ===== src/Proxy/Sse/Buffered/Lines.antt =====
-- The lines of a body that arrives in pieces, and what a carriage return before a newline changes.
use wildtoken.Prelude.{
  ℕ, ◌≤◌, ◌≡◌, refl, sym, ap, ◌∙◌, true, false, List, [], ◌∷◌, ◌++◌, ◌==◌, if◌then◌else◌, length,
  All, arith, Bool-cases, inl, inr, ◌⊎◌, length-append, ==_iff,
}
use wildtoken.Text.{Text, text_eq}
use wildtoken.Proxy.Sse.{
  backwards, back_onto, trim_cr, trim_right, trim_space, trim_from, space_at_end, sse_data,
  sse_lines, onto_line,
}
use wildtoken.Proxy.Sse.Observation.{max_sse_event_bytes}

-- The lines of a body of which some bytes, which hold no newline, have been buffered.
unfoldable pub lines_from : Text → Text → List Text
lines_from buf [] = if text_eq buf [] then [] else buf ∷ []
lines_from buf (c ∷ cs) =
    let closed = lines_from [] cs in
    let longer = lines_from (buf ++ c ∷ []) cs in if c == b'\n' then buf ∷ closed else longer

abbrev pub prepend : Text → List Text → List Text
prepend buf [] = if text_eq buf [] then [] else buf ∷ []
prepend buf (l ∷ ls) = (buf ++ l) ∷ ls

pub append_nil : (s : Text) → s ++ [] ≡ s
append_nil [] = refl
append_nil (c ∷ cs) = ap (λ u. c ∷ u) (append_nil cs)

append_snoc : (s : Text) (c : ℕ) (t : Text) → s ++ (c ∷ t) ≡ (s ++ c ∷ []) ++ t
append_snoc [] c t = refl
append_snoc (d ∷ s) c t = ap (λ u. d ∷ u) (append_snoc s c t)

snoc_full : (s : Text) (c : ℕ) → text_eq (s ++ c ∷ []) [] ≡ false
unfolding text_eq
snoc_full [] c = refl
snoc_full (d ∷ s) c = refl

prepend-onto :
    (buf : Text) (c : ℕ) (ls : List Text)
    → prepend buf (onto_line c ls) ≡ prepend (buf ++ c ∷ []) ls
prepend-onto buf c [] = rw (snoc_full buf c) refl
prepend-onto buf c (l ∷ ls) = ap (λ u. u ∷ ls) (append_snoc buf c l)

pub prepend-nil : (ls : List Text) → prepend [] ls ≡ ls
unfolding text_eq
prepend-nil [] = refl
prepend-nil (l ∷ ls) = refl

pub lines_from-prepend : (buf body : Text) → lines_from buf body ≡ prepend buf (sse_lines body)
unfolding lines_from sse_lines
lines_from-prepend buf [] = refl
lines_from-prepend buf (c ∷ cs) = elim (Bool-cases (c == b'\n')) [
  | inl newline ↦ rw newline (
      ap (λ (ls : List Text). buf ∷ ls) (lines_from-prepend [] cs ∙ prepend-nil (sse_lines cs))
      ∙ ap (λ (u : Text). u ∷ sse_lines cs) (sym (append_nil buf)))
  | inr other ↦
      rw other (lines_from-prepend (buf ++ c ∷ []) cs ∙ sym (prepend-onto buf c (sse_lines cs)))
]

-- A line that observeChunk can keep.
abbrev pub IsKept : Text → Type 0
IsKept line = length line ≤ max_sse_event_bytes

pub nil_of_text_eq : (s : Text) → text_eq s [] ≡ true → s ≡ []
unfolding text_eq
nil_of_text_eq [] e = refl
nil_of_text_eq (c ∷ cs) e = absurd (cc)

pub buffered-IsKept : (buf body : Text) → All IsKept (lines_from buf body) → IsKept buf
unfolding lines_from
buffered-IsKept buf [] kept = elim (Bool-cases (text_eq buf [])) [
  | inl nothing ↦ rw (nil_of_text_eq buf nothing) (omega arith)
  | inr full ↦ let first : All IsKept (lines_from buf []) = kept in (rw full at first).0
]
buffered-IsKept buf (c ∷ cs) kept = elim (Bool-cases (c == b'\n')) [
  | inl newline ↦ let first : All IsKept (lines_from buf (c ∷ cs)) = kept in (rw newline at first).0
  | inr other ↦
      let longer : All IsKept (lines_from buf (c ∷ cs)) = kept in
      omega
        (arith, length-append buf (c ∷ []), buffered-IsKept (buf ++ c ∷ []) cs (rw other at longer))
]

-- A carriage return before the newline changes nothing that is read from a line.
cr_cases : (line : Text) → (line ≡ trim_cr line) ⊎ (line ≡ trim_cr line ++ 13 ∷ [])
cr_cases [] = inl refl
cr_cases (c ∷ []) = elim (Bool-cases (c == 13)) [
  | inl return ↦ inr (rw return (ap (λ d. d ∷ []) ((==_iff c 13).0 return)))
  | inr other ↦ inl (rw other refl)
]
cr_cases (c ∷ d ∷ rest) = elim (cr_cases (d ∷ rest)) [
  | inl e ↦ inl (ap (λ u. c ∷ u) e)
  | inr e ↦ inr (ap (λ u. c ∷ u) e)
]

back_onto-snoc : (s : Text) (c : ℕ) (acc : Text) → back_onto (s ++ c ∷ []) acc ≡ c ∷ back_onto s acc
back_onto-snoc [] c acc = refl
back_onto-snoc (d ∷ s) c acc = back_onto-snoc s c (d ∷ acc)

trim_from-return : (r : Text) → trim_from space_at_end 0 (13 ∷ r) ≡ trim_from space_at_end 0 r
unfolding trim_from
trim_from-return [] = refl
trim_from-return (b ∷ []) = refl
trim_from-return (b ∷ c ∷ rest) = refl

trim_right-snoc : (s : Text) → trim_right (s ++ 13 ∷ []) ≡ trim_right s
unfolding trim_right
trim_right-snoc s =
    ap (λ u. backwards (trim_from space_at_end 0 u)) (back_onto-snoc s 13 [])
    ∙ ap backwards (trim_from-return (backwards s))

sse_data-snoc : (s : Text) → sse_data (s ++ 13 ∷ []) ≡ sse_data s
unfolding sse_data trim_space
sse_data-snoc s = rw (trim_right-snoc s, sse_data, trim_space) refl

pub sse_data-trim_cr : (line : Text) → sse_data (trim_cr line) ≡ sse_data line
unfolding sse_data trim_space
sse_data-trim_cr line = elim (cr_cases line) [
  | inl e ↦ ap sse_data (sym e)
  | inr e ↦ sym (ap sse_data e ∙ sse_data-snoc (trim_cr line))
]
