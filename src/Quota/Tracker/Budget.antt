-- ===== src/Quota/Tracker/Budget.antt =====
-- How far a burst of requests can overshoot a limit.
use wildtoken.Prelude.{
  ℕ, zero, suc, ◌+◌, ◌-◌, ◌/◌, ◌≤◌, ◌≡◌, ap, ◌∙◌, Bool, true, false, List, [], ◌∷◌, arith, leb, min,
  if◌then◌else◌, ◌^◌, replicate,
}
use wildtoken.Quota.Tracker.{provisional_cost}
use wildtoken.Quota.Tracker.Accounting.{
  Book, Event, admits, booked, booked_answers, answers, cost, AllFit, empty_book, run-Represents,
}

-- QuotaMaxTokens of internal/models/quota.go
abbrev pub quota_max_tokens : ℕ
quota_max_tokens = 2 ^ 62

-- How many of the answers admit.
abbrev pub admissions : List Bool → ℕ
admissions [] = 0
admissions (b ∷ bs) = (if b then 1 else 0) + admissions bs

-- The requests that fit into what is left, the last one possibly in part.
abbrev pub room : ℕ → ℕ → ℕ
room limit spent = (limit - spent + (provisional_cost - 1)) / provisional_cost

module _ (token stored limit : ℕ) where
  abbrev pub burst : ℕ → List Event
  burst n = replicate n (admits token stored limit)

  cost-booked :
      (b : Book)
      → cost ((booked b (admits token stored limit)).0 token)
        ≡ cost (b token) + (if leb limit (stored + cost (b token)) then 0 else provisional_cost)
  unfolding booked
  cost-booked b = ground arith

  admitted-booked :
      (b : Book)
      → (booked b (admits token stored limit)).1
        ≡ (if leb limit (stored + cost (b token)) then false else true)
  unfolding booked
  admitted-booked b = ground arith

  burst_book :
      (n : ℕ) (b : Book)
      → admissions (booked_answers b (burst n)) ≡ min n (room limit (stored + cost (b token)))
  unfolding booked_answers
  burst_book zero b = omega arith
  burst_book (suc n) b = ground (
    arith,
    burst_book n (booked b (admits token stored limit)).0,
    cost-booked b,
    admitted-booked b,
  )

  burst-AllFit :
      (n : ℕ) (b : Book)
      → limit ≤ quota_max_tokens
      → stored + cost (b token) ≤ quota_max_tokens + provisional_cost
      → AllFit b (burst n)
  burst-AllFit zero b h k = tt
  burst-AllFit (suc n) b h k = (
    (omega arith, omega arith),
    burst-AllFit n (booked b (admits token stored limit)).0 h (ground (arith, cost-booked b)),
  )

  -- A burst of requests against one stored total, with nothing else outstanding and the total and
  -- the limit within the cap on limits, admits exactly as
  -- many as provisional charges fit into the rest of the limit, the last of them possibly in part;
  -- so it admits none once the limit is reached, and never more however many arrive at once.
  pub admissions-burst :
      (n : ℕ)
      → limit ≤ quota_max_tokens
      → stored ≤ quota_max_tokens
      → admissions (answers [] (burst n)) ≡ min n (room limit stored)
  admissions-burst n h k =
      let fit = burst-AllFit n empty_book h (omega arith) in
      ap admissions (run-Represents (burst n) fit).1
      ∙ burst_book n empty_book
      ∙ ap (λ (c : ℕ). min n (room limit c)) (omega arith)
