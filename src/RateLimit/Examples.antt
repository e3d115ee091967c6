-- ===== src/RateLimit/Examples.antt =====
-- Runs of the limiter and of the parser on small inputs, and the theorems at such inputs.
use wildtoken.Prelude.{
  ℕ, ◌*◌, ◌≤◌, ◌≡◌, refl, subst, true, false, ◌↔◌, Option, some, List, [], ◌∷◌, arith, ltb,
  ℕ_discrete,
}
use wildtoken.Prelude.Int64.{max_int}
use wildtoken.Prelude.Int64
use wildtoken.Prelude.Assoc
use wildtoken.Clock.{second}
use wildtoken.RateLimit.Window.{TokenWindow, expire, record_request, prune}
use wildtoken.RateLimit.Window.Valid.{IsValid}
use wildtoken.RateLimit.Limiter.{RateLimit, Limiter, admit, check, reclaim, scan}
use wildtoken.RateLimit.Limiter.Decision.{since, requests_since, live_of, AllValid, check_decides}
use wildtoken.RateLimit.Limiter.Reclaim.{live-reclaim}
use wildtoken.RateLimit.Limiter.Sliding.{Event, checks, scans, reclaims, run, ideal_run}
use wildtoken.RateLimit.Limiter.Sliding.Refinement.{run-eq-ideal_run}
use wildtoken.Text.{Text, decimal, decimal_from, is_digit}
use wildtoken.RateLimit.Parser.{
  Matches, is_unit, ok, err, too_long, find_submatch, base_window, parse_rate_limit,
}
use wildtoken.RateLimit.Parser.Pattern.{Written, find_submatch-Written}
use wildtoken.RateLimit.Parser.Accepted.{verdict, times, parse_rate_limit-verdict}

-- Two requests in ten seconds.
abbrev two_in_ten : RateLimit
two_in_ten = record { requests = 2; window = 10 * second }

abbrev one_limit : ℕ → Option RateLimit
one_limit token = some two_in_ten

one_limit_fits :
    (token : ℕ) (limit : RateLimit) → one_limit token ≡ some limit → limit.requests ≤ max_int
one_limit_fits token limit e = ground arith

-- The third check comes too early; a cleanup runs between the checks.
abbrev traffic : List (ℕ × Event)
traffic =
    (100 * second, checks 7)
    ∷ (101 * second, checks 7)
    ∷ (102 * second, scans)
    ∷ (103 * second, checks 7)
    ∷ (104 * second, reclaims (7 ∷ []))
    ∷ (112 * second, checks 7)
    ∷ []

traffic_answers : run one_limit [] traffic ≡ true ∷ true ∷ false ∷ true ∷ []
unfolding run check admit scan reclaim expire record_request prune Assoc.get Assoc.put Assoc.delete
    ℕ_discrete Int64.add Int64.sub Int64.le Int64.lt
traffic_answers = refl

run-eq-ideal_run_example : run one_limit [] traffic ≡ ideal_run one_limit (λ _. []) traffic
run-eq-ideal_run_example = run-eq-ideal_run one_limit one_limit_fits traffic (omega arith)

-- A window with a drained bucket, one bucket that is out of date, and one that is live.
abbrev busy_window : TokenWindow
busy_window = record {
  buckets =
      record { second = 80; count = 1 }
      ∷ record { second = 90; count = 1 }
      ∷ record { second = 101; count = 1 }
      ∷ [];
  head = 1;
  total = 2;
  retain = 10 * second;
  last_used = 101 * second;
}

busy_window-IsValid : IsValid busy_window
busy_window-IsValid = omega arith

abbrev busy : Limiter
busy = (7, busy_window) ∷ []

busy-AllValid : AllValid busy
unfolding Assoc.get
busy-AllValid = record {
  at_token = λ token w e. elim (ℕ_discrete 7 token) [
    | yes p ↦
        subst IsValid (let same : busy_window ≡ w = ground (arith, e, p) in same)
          busy_window-IsValid
    | no n ↦ absurd (ground (arith, e, n))
  ];
}

check_decides_example :
    (check busy 7 (some two_in_ten) (105 * second)).1
    ≡ ltb (requests_since (since two_in_ten (105 * second)) busy 7) 2
check_decides_example = check_decides busy 7 two_in_ten (105 * second) busy-AllValid (omega arith)

live-reclaim_example :
    live_of (Assoc.get ℕ_discrete 7 (reclaim (7 ∷ 8 ∷ []) busy))
    ≡ live_of (Assoc.get ℕ_discrete 7 busy)
live-reclaim_example = live-reclaim (7 ∷ 8 ∷ []) busy 7

-- "50/10s", and a limit whose window does not fit.
abbrev fifty : Text
fifty = b'5' ∷ b'0' ∷ b'/' ∷ b'1' ∷ b'0' ∷ b's' ∷ []

abbrev fifty_matches : Matches
fifty_matches = record { count = b'5' ∷ b'0' ∷ []; multiplier = b'1' ∷ b'0' ∷ []; unit = b's' }

abbrev fifty_limit : RateLimit
fifty_limit = record { requests = 50; window = 10 * second }

fifty_parses : parse_rate_limit fifty ≡ ok (some fifty_limit)
unfolding parse_rate_limit Int64.le Int64.lt Int64.mul is_digit decimal_from
fifty_parses = refl

abbrev too_long_text : Text
too_long_text = b'1' ∷ b'/' ∷ b'1' ∷ b'0' ∷ b'6' ∷ b'7' ∷ b'5' ∷ b'2' ∷ b'd' ∷ []

too_long_refused : parse_rate_limit too_long_text ≡ err too_long
unfolding parse_rate_limit Int64.le Int64.lt Int64.mul is_digit decimal_from
too_long_refused = refl

fifty-Written : Written fifty fifty_matches
unfolding is_digit is_unit
fifty-Written = record {
  shape = refl;
  count = (refl, (refl, tt));
  some_count = λ e. cc;
  multiplier = (refl, (refl, tt));
  unit = refl;
}

find_submatch-Written_example :
    (find_submatch fifty ≡ some fifty_matches) ↔ Written fifty fifty_matches
find_submatch-Written_example = find_submatch-Written fifty fifty_matches

parse_rate_limit-verdict_example :
    parse_rate_limit fifty
    ≡ verdict (decimal fifty_matches.count) (times fifty_matches.multiplier) second
unfolding base_window
parse_rate_limit-verdict_example =
    parse_rate_limit-verdict fifty fifty_matches second fifty-Written refl
