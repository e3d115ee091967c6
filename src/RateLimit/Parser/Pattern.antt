-- ===== src/RateLimit/Parser/Pattern.antt =====
-- The scan finds a match exactly in the expressions that the pattern describes.
use wildtoken.Prelude.{
  ℕ, ◌≡◌, ◌≢◌, refl, sym, ap₂, ◌∙◌, subst, true, false, ◌↔◌, some, List, [], ◌∷◌, ◌++◌, arith,
}
use wildtoken.Text.{AllDigits, is_digit, span_digits, span_digits-parts, span_digits-append}
use wildtoken.RateLimit.Parser.{
  Matches, is_unit, match_unit, match_slash, match_count, find_submatch,
}

-- The expressions of the pattern, with their submatches.
pub record Written (s : List ℕ) (m : Matches) : Type 0 where
  pub shape : s ≡ m.count ++ (b'/' ∷ (m.multiplier ++ m.unit ∷ []))
  pub count : AllDigits m.count
  pub some_count : m.count ≢ []
  pub multiplier : AllDigits m.multiplier
  pub unit : is_unit m.unit ≡ true

unit_no_digit : (u : ℕ) → is_unit u ≡ true → is_digit u ≡ false
unfolding is_unit is_digit
unit_no_digit u h = ground arith

slash_no_digit : is_digit b'/' ≡ false
unfolding is_digit
slash_no_digit = refl

match_unit-some :
    (ds ms rest : List ℕ) (m : Matches)
    → match_unit ds ms rest ≡ some m
    → (m.count ≡ ds) × (m.multiplier ≡ ms) × (rest ≡ m.unit ∷ []) × (is_unit m.unit ≡ true)
unfolding match_unit
match_unit-some ds ms [] m h = absurd (cc)
match_unit-some ds ms (u ∷ []) m h = ground arith
match_unit-some ds ms (u ∷ c ∷ cs) m h = absurd (cc)

match_slash-some :
    (ds rest : List ℕ) (m : Matches)
    → match_slash ds rest ≡ some m
    → (m.count ≡ ds)
      × (rest ≡ b'/' ∷ m.multiplier ++ m.unit ∷ [])
      × AllDigits m.multiplier
      × (is_unit m.unit ≡ true)
unfolding match_slash
match_slash-some ds [] m h = absurd (cc)
match_slash-some ds (c ∷ cs) m h =
    let (joined, digits) = span_digits-parts cs in
    let unit = match_unit-some ds (span_digits cs).0 (span_digits cs).1 m in
    ground (arith, joined, digits, unit)

match_count-some :
    (ds rest : List ℕ) (m : Matches)
    → match_count ds rest ≡ some m
    → (ds ≢ []) × (match_slash ds rest ≡ some m)
unfolding match_count
match_count-some [] rest m h = absurd (cc)
match_count-some (d ∷ ds) rest m h = (λ e. cc, h)

find_sound : (s : List ℕ) (m : Matches) → find_submatch s ≡ some m → Written s m
unfolding find_submatch
find_sound s m h =
    let (joined, digits) = span_digits-parts s in
    let (filled, slash) = match_count-some (span_digits s).0 (span_digits s).1 m h in
    let (count, rest, ms, unit) = match_slash-some (span_digits s).0 (span_digits s).1 m slash in
    record {
      shape = sym joined ∙ ap₂ ◌++◌ (sym count) rest;
      count = subst AllDigits (sym count) digits;
      some_count = λ e. filled (sym count ∙ e);
      multiplier = ms;
      unit = unit;
    }

match_count-cons : (ds rest : List ℕ) → ds ≢ [] → match_count ds rest ≡ match_slash ds rest
unfolding match_count
match_count-cons [] rest h = absurd (h refl)
match_count-cons (d ∷ ds) rest h = refl

match_slash-written :
    (m : Matches)
    → AllDigits m.multiplier
    → is_unit m.unit ≡ true
    → match_slash m.count (b'/' ∷ (m.multiplier ++ m.unit ∷ [])) ≡ some m
unfolding match_slash
match_slash-written m digits unit =
    rw (span_digits-append m.multiplier m.unit [] digits (unit_no_digit m.unit unit))
      (ground (arith, unit))

find_complete : (s : List ℕ) (m : Matches) → Written s m → find_submatch s ≡ some m
unfolding find_submatch
find_complete s m w =
    rw
      (
        w.shape,
        span_digits-append m.count b'/' (m.multiplier ++ m.unit ∷ []) w.count slash_no_digit,
      )
      (match_count-cons m.count _ w.some_count ∙ match_slash-written m w.multiplier w.unit)

-- The scan returns the submatches of exactly the expressions that the pattern describes: digits, a
-- slash, digits that may be left out, and one of the letters s, m, h and d, with nothing else.
pub find_submatch-Written : (s : List ℕ) (m : Matches) → (find_submatch s ≡ some m) ↔ Written s m
find_submatch-Written s m = (find_sound s m, find_complete s m)
