-- ===== src/RateLimit/Parser.antt =====
-- internal/ratelimit/parser.go. An expression is a list of code points; the pattern
-- ^(\d+)/(\d+)?([smhd])$ is a scan, since no two of its parts can claim one character.
pub mod Pattern
pub mod Accepted
use wildtoken.Prelude.{
  ℕ, ◌*◌, ◌/◌, Bool, true, false, ◌||◌, Option, none, some, List, [], ◌∷◌, leb, ltb, ◌==◌,
  if◌then◌else◌,
}
use wildtoken.Prelude.Int64
use wildtoken.Prelude.Int64.{max_int}
use wildtoken.Clock.{second, minute, hour}
use wildtoken.Text.{span_digits, parse_int}
use wildtoken.RateLimit.Limiter.{RateLimit}

pub data ParseError : Type 0 where
  invalid_expression invalid_count invalid_multiplier too_long : ParseError

pub data Result {ℓ} (A : Type ℓ) : Type ℓ where
  ok : A → Result A
  err : ParseError → Result A

infixl 5 ◌>>=◌
abbrev ◌>>=◌ {ℓ κ} : {A : Type ℓ} {B : Type κ} → Result A → (A → Result B) → Result B
ok a >>= f = f a
err e >>= f = err e

abbrev or_fail {ℓ} : {A : Type ℓ} → Option A → ParseError → Result A
or_fail none e = err e
or_fail (some a) e = ok a

-- The submatches of the pattern: the count, the multiplier (empty if left out), the unit.
pub record Matches : Type 0 where
  pub count : List ℕ
  pub multiplier : List ℕ
  pub unit : ℕ

-- The `switch unit`. The pattern admits no fifth letter, so its default case is never taken.
unfoldable pub base_window : ℕ → Option ℕ
base_window u =
    if u == b's'
    then some second
    else if u == b'm'
    then some minute
    else if u == b'h'
    then some hour
    else if u == b'd'
    then some (24 * hour)
    else none

unfoldable pub is_unit : ℕ → Bool
is_unit u = (u == b's') || (u == b'm') || (u == b'h') || (u == b'd')

match_unit : List ℕ → List ℕ → List ℕ → Option Matches
unfolding is_unit
match_unit ds ms [] = none
match_unit ds ms (u ∷ []) =
    if is_unit u then some (record { count = ds; multiplier = ms; unit = u }) else none
match_unit ds ms (u ∷ c ∷ cs) = none

match_slash : List ℕ → List ℕ → Option Matches
unfolding match_unit
match_slash ds [] = none
match_slash ds (c ∷ cs) =
    if c == b'/' then (let (ms, rest) = span_digits cs in match_unit ds ms rest) else none

match_count : List ℕ → List ℕ → Option Matches
unfolding match_slash
match_count [] rest = none
match_count (d ∷ ds) rest = match_slash (d ∷ ds) rest

-- rateLimitPattern.FindStringSubmatch
unfoldable pub find_submatch : List ℕ → Option Matches
unfolding match_count span_digits
find_submatch s = let (ds, rest) = span_digits s in match_count ds rest

-- `strconv.ParseInt`, and the test for a positive number.
parse_positive : List ℕ → ParseError → Result ℕ
unfolding parse_int
parse_positive ds e = do n ← or_fail (parse_int ds) e; if Int64.le n 0 then err e else ok n

parse_multiplier : List ℕ → Result ℕ
unfolding parse_positive
parse_multiplier [] = ok 1
parse_multiplier (d ∷ ds) = parse_positive (d ∷ ds) invalid_multiplier

-- `window` is built by a product of int64 values.
limit_of : ℕ → ℕ → ℕ → Result (Option RateLimit)
limit_of requests multiplier base =
    if Int64.lt (max_int / base) multiplier
    then err too_long
    else ok (some (record { requests = requests; window = Int64.mul base multiplier }))

from_matches : Matches → Result (Option RateLimit)
unfolding parse_positive parse_multiplier base_window limit_of
from_matches m = do
  requests ← parse_positive m.count invalid_count
  multiplier ← parse_multiplier m.multiplier
  base ← or_fail (base_window m.unit) invalid_expression
  limit_of requests multiplier base

unfoldable pub parse_rate_limit : List ℕ → Result (Option RateLimit)
unfolding find_submatch from_matches
parse_rate_limit [] = ok none
parse_rate_limit (c ∷ cs) = do
  m ← or_fail (find_submatch (c ∷ cs)) invalid_expression
  from_matches m
