-- ===== src/Handlers/Failover/Pending.antt =====
-- The endings of a request, and the rows that they come with.
use wildtoken.Prelude.{
  ℕ, suc, ◌≤◌, ◌<◌, ◌≡◌, refl, sym, ap, ◌∙◌, true, false, none, some, [], ◌∷◌, arith, if_all,
  if_all_eq, option_all_eq,
}
use wildtoken.Handlers.Failover.{
  final_row, Services, Config, Run, Result, Outcome, answered, unpreserved, no_answer, Ending,
  refused_with, failed, delivered, delivered_logged, stuck, member, log_and_disarm, concluded,
  ending_of, replay, run_out, give_up,
}
use wildtoken.Handlers.Failover.Keeps.{final_rows, final_rows-append, Keeps}

-- The final rows that an ending comes with: one, or none where a response is still to be delivered,
-- whose body writes it, but for a stream whose early row is written.
abbrev pub HasFinals : Ending → ℕ → Type 0
HasFinals (refused_with status) n = n ≡ 1
HasFinals failed n = n ≡ 1
HasFinals (delivered number response) n = n ≡ 0
HasFinals (delivered_logged number response) n = n ≡ 0
HasFinals stuck n = ⊥

-- Before attempt n: no final row, and the failures that are held are not settled.
pub record IsPending {W : Type 0} (n : ℕ) (r : Run W) : Type 0 where
  pub armed : r.armed ≡ true
  pub no_final : final_rows r.rows ≡ 0
  pub forwards : r.forwards ≤ n
  pub settled_below : (m : ℕ) → member m r.settled ≡ true → m < n
  pub last_open :
      (a : Result) → r.last_failure ≡ some a → (a.number < n) × (member a.number r.settled ≡ false)
  pub stream_open :
      (a : Result)
      → r.stream_failure ≡ some a
      → (a.number < n) × (member a.number r.settled ≡ false)

-- At most n attempts were forwarded, and the rows fit the ending.
abbrev pub IsOver : {W : Type 0} → ℕ → Run W × Ending → Type 0
IsOver n p = (p.0.forwards ≤ n) × HasFinals p.1 (final_rows p.0.rows)

module _ {W : Type 0} (services : Services W) (config : Config) where
  pub log_and_disarm-finals :
      (r : Run W)
      → r.armed ≡ true
      → final_rows (log_and_disarm services config r).rows ≡ suc (final_rows r.rows)
  unfolding log_and_disarm
  log_and_disarm-finals r armed =
      if_all_eq (λ (q : Run W). final_rows q.rows ≡ suc (final_rows r.rows)) r.armed _ _
        (λ _. final_rows-append r.rows (final_row ∷ []) ∙ omega arith) (λ off. absurd (cc))

  pub log_and_disarm-forwards :
      (r : Run W) → (log_and_disarm services config r).forwards ≡ r.forwards
  unfolding log_and_disarm
  log_and_disarm-forwards r = if_all (λ (q : Run W). q.forwards ≡ r.forwards) r.armed _ _ refl refl

  pub logged-IsOver :
      (n : ℕ) (r : Run W) (e : Ending)
      → ((m : ℕ) → m ≡ 1 → HasFinals e m)
      → IsPending n r
      → IsOver n (log_and_disarm services config r, e)
  logged-IsOver n r e one p = (
    omega (arith, log_and_disarm-forwards r, p.forwards),
    one _ (omega (arith, log_and_disarm-finals r p.armed, p.no_final)),
  )

  pub concluded-IsOver :
      (n number : ℕ) (outcome : Outcome) (r : Run W)
      → r.forwards ≤ n
      → final_rows r.rows ≡ 0
      → member number r.settled ≡ false
      → IsOver n (
        concluded services config (record { number = number; outcome = outcome }) r,
        ending_of services config (record { number = number; outcome = outcome }),
      )
  unfolding concluded
  concluded-IsOver n number (answered response) r h none_yet fresh =
      if_all_eq (λ (q : Run W). (q.forwards ≤ n) × (final_rows q.rows ≡ 0))
        (member number r.settled) _ _ (λ old. absurd (cc))
        (λ _. (h, final_rows-append r.rows [] ∙ omega arith))
  concluded-IsOver n number (unpreserved response) r h none_yet fresh =
      if_all_eq (λ (q : Run W). (q.forwards ≤ n) × (final_rows q.rows ≡ 0))
        (member number r.settled) _ _ (λ old. absurd (cc))
        (λ _. (h, final_rows-append r.rows [] ∙ omega arith))
  concluded-IsOver n number no_answer r h none_yet fresh =
      if_all_eq (λ (q : Run W). (q.forwards ≤ n) × (final_rows q.rows ≡ 1))
        (member number r.settled) _ _ (λ old. absurd (cc))
        (λ _. (h, final_rows-append r.rows (final_row ∷ []) ∙ omega arith))

  pub replay-IsOver :
      (n : ℕ) (a : Result) (r : Run W)
      → r.forwards ≤ n
      → final_rows r.rows ≡ 0
      → member a.number r.settled ≡ false
      → IsOver n (replay services config a r)
  unfolding replay
  replay-IsOver n a r h none_yet fresh =
      concluded-IsOver n a.number a.outcome (record r { stream_failure = none }) h none_yet fresh

  pub give_up-IsOver : (n : ℕ) (r : Run W) → IsPending n r → IsOver n (give_up services config r)
  unfolding give_up
  give_up-IsOver n r p =
      option_all_eq (IsOver n) r.stream_failure _ _ (λ _. logged-IsOver n r failed (λ m e. e) p)
        (λ a e. replay-IsOver n a r p.forwards p.no_final (p.stream_open a e).1)

  pub run_out-IsOver : (n : ℕ) (r : Run W) → IsPending n r → IsOver n (run_out services config r)
  unfolding run_out
  run_out-IsOver n r p =
      option_all_eq (IsOver n) r.stream_failure _ _
        (λ _.
          option_all_eq (IsOver n) r.last_failure _ _
            (λ _.
              if_all (IsOver n) r.any_rate_limited _ _
                (logged-IsOver n r (refused_with 429) (λ m e. e) p)
                (if_all (IsOver n) r.any_misconfigured _ _
                  (logged-IsOver n r (refused_with 502) (λ m e. e) p)
                  (logged-IsOver n r (refused_with 503) (λ m e. e) p)))
            (λ a e.
              concluded-IsOver n a.number a.outcome (record r { last_failure = none }) p.forwards
                p.no_final (p.last_open a e).1))
        (λ a e. replay-IsOver n a r p.forwards p.no_final (p.stream_open a e).1)

  -- A run on which the same failures are held, and nothing final was written.
  pub kept-IsPending : (n : ℕ) (r q : Run W) → Keeps r q → IsPending n r → IsPending n q
  kept-IsPending n r q k p = record {
    armed = k.armed ∙ p.armed;
    no_final = k.finals ∙ p.no_final;
    forwards = omega (arith, k.forwards, p.forwards);
    settled_below = λ m h. p.settled_below m (ap (member m) (sym k.settled) ∙ h);
    last_open = λ a e.
        let (below, fresh) = p.last_open a (sym k.last_failure ∙ e) in
        (below, ap (member a.number) k.settled ∙ fresh);
    stream_open = λ a e.
        let (below, fresh) = p.stream_open a (sym k.stream_failure ∙ e) in
        (below, ap (member a.number) k.settled ∙ fresh);
  }
