-- ===== src/RateLimit/Parser/Accepted.antt =====
-- What an expression of the pattern is read as, in numbers without bound.
use wildtoken.Prelude.{
  ℕ, ◌*◌, ◌/◌, ◌≤◌, ◌<◌, ◌≡◌, refl, sym, ap, ◌++◌, ◌∙◌, Bool, true, false, ◌||◌, Option, some, List,
  [], ◌∷◌, ◌⊎◌, inl, inr, arith, ltb, ◌==◌, if◌then◌else◌, Bool-cases, Option-cases, ltb→le,
}
use wildtoken.Prelude.Int64
use wildtoken.Prelude.Int64.{max_int}
use wildtoken.Clock.{second, minute, hour}
use wildtoken.Text.{decimal}
use wildtoken.RateLimit.Limiter.{RateLimit}
use wildtoken.RateLimit.Parser.{
  Matches, Result, ok, err, ParseError, invalid_expression, invalid_count, invalid_multiplier,
  too_long, base_window, is_unit, find_submatch, parse_positive, parse_multiplier, limit_of,
  from_matches, parse_rate_limit, or_fail, ◌>>=◌,
}
use wildtoken.RateLimit.Parser.Pattern.{Written, find_submatch-Written}

-- A multiplier that is left out counts once.
abbrev pub times : List ℕ → ℕ
times [] = 1
times (d ∷ ds) = decimal (d ∷ ds)

abbrev out_of_range : ℕ → Bool
out_of_range n = n == 0 || ltb max_int n

-- The verdict on a count, a multiplier and a base window, over numbers without bound.
abbrev pub verdict : ℕ → ℕ → ℕ → Result (Option RateLimit)
verdict n k base =
    if out_of_range n
    then err invalid_count
    else if out_of_range k
    then err invalid_multiplier
    else if ltb max_int (base * k)
    then err too_long
    else ok (some (record { requests = n; window = base * k }))

IsBase : ℕ → Type 0
IsBase base = (base ≡ second) ⊎ (base ≡ minute) ⊎ (base ≡ hour) ⊎ (base ≡ 24 * hour)

base_window-IsBase : (u base : ℕ) → base_window u ≡ some base → IsBase base
unfolding base_window IsBase
base_window-IsBase u base h = ground arith

parse_positive-verdict :
    (ds : List ℕ) (e : ParseError)
    → parse_positive ds e ≡ (if out_of_range (decimal ds) then err e else ok (decimal ds))
unfolding parse_positive
parse_positive-verdict ds e = elim (Bool-cases (ltb max_int (decimal ds))) [
  | inl big ↦ rw big (ground (arith, big))
  | inr fine ↦ rw fine (ground (arith, fine, Int64.le_lem (decimal ds) 0))
]

quotient_test_at :
    (k : ℕ)
    → (ltb (max_int / second) k ≡ ltb max_int (second * k))
      × (ltb (max_int / minute) k ≡ ltb max_int (minute * k))
      × (ltb (max_int / hour) k ≡ ltb max_int (hour * k))
      × (ltb (max_int / (24 * hour)) k ≡ ltb max_int (24 * hour * k))
quotient_test_at k = (ground arith, ground arith, ground arith, ground arith)

-- The overflow test by division is the test on the product.
quotient_test :
    (k base : ℕ)
    → IsBase base
    → (ltb (max_int / base) k ≡ ltb max_int (base * k)) × (max_int / base ≤ max_int)
unfolding IsBase
quotient_test k base (inl e) = rw e ((quotient_test_at k).0, omega arith)
quotient_test k base (inr (inl e)) = rw e ((quotient_test_at k).1, omega arith)
quotient_test k base (inr (inr (inl e))) = rw e ((quotient_test_at k).2, omega arith)
quotient_test k base (inr (inr (inr e))) = rw e ((quotient_test_at k).3, omega arith)

limit_of-verdict :
    (n k base : ℕ)
    → IsBase base
    → out_of_range n ≡ false
    → out_of_range k ≡ false
    → limit_of n k base ≡ verdict n k base
unfolding limit_of
limit_of-verdict n k base b hn hk =
    let (same, small) = quotient_test k base b in
    let k_fits : k ≤ max_int = ground arith in
    let test = Int64.lt_lem (max_int / base) k small k_fits ∙ same in
    elim (Bool-cases (ltb max_int (base * k))) [
      | inl over ↦ rw (test ∙ over, hn, hk, over) refl
      | inr fine ↦
          rw (test ∙ fine, hn, hk, fine, Int64.mul_lem base k (omega (arith, ltb→le _ _ fine))) refl
    ]

append_cons_ne : (xs : List ℕ) (y : ℕ) (ys : List ℕ) → ¬ ([] ≡ xs ++ (y ∷ ys))
append_cons_ne [] y ys = λ e. cc
append_cons_ne (x ∷ xs) y ys = λ e. cc

base_pos : (base : ℕ) → IsBase base → 0 < base
unfolding IsBase
base_pos base b = ground arith

verdict-bounds :
    (n k base : ℕ) (r : RateLimit)
    → IsBase base
    → verdict n k base ≡ ok (some r)
    → (0 < r.requests) × (r.requests ≤ max_int) × (0 < r.window) × (r.window ≤ max_int)
verdict-bounds n k base r b h =
    let pos = base_pos base b in
    let product : (0 < k) → 0 < base * k = λ hk. grind arith in ground (arith, product)

parse_multiplier-verdict :
    (ds : List ℕ)
    → parse_multiplier ds
      ≡ (if out_of_range (times ds) then err invalid_multiplier else ok (times ds))
unfolding parse_multiplier
parse_multiplier-verdict [] = refl
parse_multiplier-verdict (d ∷ ds) = parse_positive-verdict (d ∷ ds) invalid_multiplier

from_matches-verdict :
    (m : Matches) (base : ℕ)
    → base_window m.unit ≡ some base
    → from_matches m ≡ verdict (decimal m.count) (times m.multiplier) base
unfolding from_matches
from_matches-verdict m base e =
    let n = decimal m.count in
    let k = times m.multiplier in
    let pn = parse_positive-verdict m.count invalid_count in
    let pk = parse_multiplier-verdict m.multiplier in
    elim (Bool-cases (out_of_range n)) [
      | inl bad ↦ rw (pn, bad) refl
      | inr good ↦ elim (Bool-cases (out_of_range k)) [
        | inl bad ↦ rw (pn, good, pk, bad) refl
        | inr good' ↦
            rw (pn, good, pk, good', e)
              (limit_of-verdict n k base (base_window-IsBase m.unit base e) good good'
                ∙ rw (good, good') refl)
      ]
    ]

base_window-total : (u : ℕ) → is_unit u ≡ true → (base : ℕ) × (base_window u ≡ some base)
unfolding is_unit base_window
base_window-total u h = elim (Option-cases (base_window u)) [
  | inl e ↦ absurd (ground arith)
  | inr found ↦ found
]

-- An expression of the pattern is read by its numbers: the parser answers as the verdict over
-- numbers without bound, which refuses a count or a multiplier that is 0 or does not fit an int64,
-- then a window that does not, and takes the window as the exact product.
pub parse_rate_limit-verdict :
    (s : List ℕ) (m : Matches) (base : ℕ)
    → Written s m
    → base_window m.unit ≡ some base
    → parse_rate_limit s ≡ verdict (decimal m.count) (times m.multiplier) base
unfolding parse_rate_limit
parse_rate_limit-verdict [] m base w e = absurd (append_cons_ne m.count b'/' _ w.shape)
parse_rate_limit-verdict (c ∷ cs) m base w e =
    rw ((find_submatch-Written (c ∷ cs) m).1 w) (from_matches-verdict m base e)

-- Every accepted limit admits at least one request and at most an int64 of them, over a window that
-- is positive and fits an int64.
pub parse_rate_limit-bounds :
    (s : List ℕ) (r : RateLimit)
    → parse_rate_limit s ≡ ok (some r)
    → (0 < r.requests) × (r.requests ≤ max_int) × (0 < r.window) × (r.window ≤ max_int)
unfolding parse_rate_limit
parse_rate_limit-bounds [] r h = absurd (cc)
parse_rate_limit-bounds (c ∷ cs) r h = elim (Option-cases (find_submatch (c ∷ cs))) [
  | inl missing ↦ absurd (ground arith)
  | inr (m, found) ↦
      let w = (find_submatch-Written (c ∷ cs) m).0 found in
      let (base, e) = base_window-total m.unit w.unit in
      verdict-bounds (decimal m.count) (times m.multiplier) base r
        (base_window-IsBase m.unit base e)
        (sym (from_matches-verdict m base e)
          ∙ sym (ap (λ o. or_fail o invalid_expression >>= from_matches) found)
          ∙ h)
]
