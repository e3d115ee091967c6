-- ===== src/Text.antt =====
-- Text as the list of its code points, and what the source uses of Go's strings and strconv.
use mathlib.Core.Option
use wildtoken.Prelude.Int64
use wildtoken.Prelude.{
  ◌^◌, ◌==◌, ℕ_discrete, ℕ, ◌+◌, ◌-◌, ◌*◌, ◌≡◌, refl, Bool, true, false, ◌&&◌, Option, none, some,
  List, [], ◌∷◌, ◌++◌, arith, leb, ltb, if◌then◌else◌,
}
use wildtoken.Prelude.Int64.{max_int}

unfoldable pub is_digit : ℕ → Bool
is_digit c = leb b'0' c && leb c b'9'

abbrev pub AllDigits : List ℕ → Type 0
AllDigits [] = Unit {0}
AllDigits (c ∷ cs) = (is_digit c ≡ true) × AllDigits cs

-- The digits that a text begins with, and what follows them: `\d*` of a pattern.
unfoldable pub span_digits : List ℕ → List ℕ × List ℕ
span_digits [] = ([], [])
span_digits (c ∷ cs) =
    let (ds, rest) = span_digits cs in if is_digit c then (c ∷ ds, rest) else ([], c ∷ cs)

unfoldable pub decimal_from : ℕ → List ℕ → ℕ
decimal_from acc [] = acc
decimal_from acc (c ∷ cs) = decimal_from (acc * 10 + (c - b'0')) cs

-- The number that a run of decimal digits names.
abbrev pub decimal : List ℕ → ℕ
decimal = decimal_from 0

-- strconv.ParseInt(s, 10, 64) on a run of digits, which fails only out of range.
unfoldable pub parse_int : List ℕ → Option ℕ
parse_int ds = if ltb max_int (decimal ds) then none else some (decimal ds)

-- The first part is digits, the two parts make up the text, and the rest begins with no digit.
abbrev NoDigitFirst : List ℕ → Type 0
NoDigitFirst [] = Unit {0}
NoDigitFirst (c ∷ cs) = is_digit c ≡ false

pub span_digits-parts :
    (s : List ℕ) → ((span_digits s).0 ++ (span_digits s).1 ≡ s) × AllDigits (span_digits s).0
unfolding span_digits
span_digits-parts [] = (refl, tt)
span_digits-parts (c ∷ cs) = ground (arith, span_digits-parts cs)

pub span_digits-append :
    (ds : List ℕ) (c : ℕ) (rest : List ℕ)
    → AllDigits ds
    → is_digit c ≡ false
    → span_digits (ds ++ c ∷ rest) ≡ (ds, c ∷ rest)
unfolding span_digits
span_digits-append [] c rest a n = ground arith
span_digits-append (d ∷ ds) c rest a n = ground (arith, span_digits-append ds c rest a.1 n)

abbrev pub Text : Type 0
Text = List ℕ

pub Text-discrete : Discrete Text
Text-discrete = hlevel ℕ_discrete

-- `==` on strings.
unfoldable pub text_eq : Text → Text → Bool
text_eq [] [] = true
text_eq [] (c ∷ cs) = false
text_eq (b ∷ bs) [] = false
text_eq (b ∷ bs) (c ∷ cs) = b == c && text_eq bs cs

-- strings.HasPrefix(s, prefix)
unfoldable pub has_prefix : Text → Text → Bool
has_prefix s [] = true
has_prefix [] (p ∷ ps) = false
has_prefix (c ∷ cs) (p ∷ ps) = c == p && has_prefix cs ps

-- strconv.ParseInt(s, 10, 64): a sign that may be left out and at least one digit, in range.
-- The result is an int64 pattern.
parse_magnitude : ℕ → Text → Option ℕ
unfolding span_digits
parse_magnitude bound [] = none
parse_magnitude bound (c ∷ cs) =
    let (ds, rest) = span_digits (c ∷ cs) in
    elim rest [ [] ↦ (if ltb bound (decimal ds) then none else some (decimal ds)) | _ ↦ none ]

unfoldable pub parse_signed : Text → Option ℕ
unfolding parse_magnitude
parse_signed [] = none
parse_signed (c ∷ cs) =
    if c == b'-'
    then Option.map (λ n. Int64.sub 0 n) (parse_magnitude (2 ^ 63) cs)
    else if c == b'+'
    then parse_magnitude max_int cs
    else parse_magnitude max_int (c ∷ cs)
