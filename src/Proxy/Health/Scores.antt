-- ===== src/Proxy/Health/Scores.antt =====
-- What failures, successes and reads do to the score that routing sees.
use native.Mathlib.Nat.{zero-div}
use wildtoken.Prelude.{
  ◌/◌, ==_iff, ℕ, ◌+◌, ◌-◌, ◌*◌, ◌≤◌, ◌≡◌, ◌≢◌, refl, sym, ap, ◌∙◌, min, Bool, true, Option, none,
  some, arith, ltb, ◌==◌, if◌then◌else◌, Bool-cases, Option-cases, inl, inr, ℕ_discrete,
}
use wildtoken.Prelude.Int64
use wildtoken.Prelude.Int64.{max_int}
use wildtoken.Prelude.Assoc
use wildtoken.Clock.{second}
use wildtoken.Proxy.Health.{
  Policy, HealthState, Manager, max_health_score, recover_health, state_or_full, store, failed,
  succeeded, record_failure, record_success, snapshot,
}
use wildtoken.Proxy.Health.Recovery.{
  IsSane, IsCurrent, score-recover, recover-recover, recover-IsCurrent, intervals, interval_of,
}

-- The score that a read at an instant sees.
abbrev pub slot_score : Option HealthState → Policy → ℕ → ℕ
slot_score none p now = max_health_score
slot_score (some s) p now = (recover_health s p now).score

abbrev pub score_at : Manager → ℕ → Policy → ℕ → ℕ
score_at m id p now = slot_score (Assoc.get ℕ_discrete id m) p now

pub record AllCurrent (m : Manager) (now : ℕ) : Type 0 where
  pub at_id : (id : ℕ) (s : HealthState) → Assoc.get ℕ_discrete id m ≡ some s → IsCurrent s now

module _ (p : Policy) (sane : IsSane p) where
  -- What is stored is what a read sees, also where full health is stored by no entry.
  score-store :
      (m : Manager) (id : ℕ) (s : HealthState) (now : ℕ)
      → IsCurrent s now
      → score_at (store m id s) id p now ≡ (recover_health s p now).score
  unfolding store
  score-store m id s now c = elim (Bool-cases (s.score == max_health_score)) [
    | inl full ↦ rw full (
        ap (λ o. slot_score o p now) (Assoc.get-delete_self ℕ_discrete id m)
        ∙ ground (arith, score-recover p sane s now c, full))
    | inr hurt ↦ rw hurt (ap (λ o. slot_score o p now) (Assoc.get-put_self ℕ_discrete id s m))
  ]

  store_other :
      (m : Manager) (id other : ℕ) (s : HealthState)
      → id ≢ other
      → Assoc.get ℕ_discrete other (store m id s) ≡ Assoc.get ℕ_discrete other m
  unfolding store
  store_other m id other s h = ground (
    arith,
    Assoc.get-put_ne ℕ_discrete id other s m h,
    Assoc.get-delete_ne ℕ_discrete id other m h,
  )

  -- Under a sane policy and with current states, a read of one upstream leaves no trace in the
  -- score that a read at the same or a later instant sees.
  pub snapshot_transparent :
      (m : Manager) (id weight first later : ℕ)
      → first ≤ later
      → AllCurrent m later
      → score_at (snapshot m id weight true p first).0 id p later ≡ score_at m id p later
  unfolding snapshot
  snapshot_transparent m id weight first later order c =
      elim (Option-cases (Assoc.get ℕ_discrete id m)) [
        | inl e ↦ rw (e, snapshot) (ap (λ o. slot_score o p later) e)
        | inr (s, e) ↦
            let cur = c.at_id id s e in
            let early : IsCurrent s first = record {
              score = cur.score;
              recent = omega (arith, cur.recent);
            } in
            rw (e, snapshot)
              (score-store m id (recover_health s p first) later
                  (recover-IsCurrent p sane s first early later order cur.recent)
                ∙ recover-recover p sane s first later order cur)
      ]

  -- A score that has just changed has gained nothing yet.
  score-fresh :
      (s : HealthState) (now : ℕ)
      → s.score ≤ max_health_score
      → s.last_adjusted_at ≡ now
      → (recover_health s p now).score ≡ s.score
  score-fresh s now h e =
      let cur : IsCurrent s now = record { score = h; recent = omega (arith, e) } in
      let none_gone : intervals p s now ≡ 0 =
        ap (λ n. n / second / interval_of p) {y = 0} (omega (arith, e))
        ∙ ap (λ n. n / interval_of p) (zero-div second)
        ∙ zero-div (interval_of p) in
      let no_gain : p.recovery_increment * intervals p s now ≡ 0 =
        ap (λ n. p.recovery_increment * n) {y = 0} none_gone ∙ omega arith in
      omega (arith, score-recover p sane s now cur, no_gain)

  module _ (s : HealthState) (now : ℕ) (c : IsCurrent s now) where
    abbrev recovered : HealthState
    recovered = recover_health s p now

    recovered-current : IsCurrent recovered now
    recovered-current = recover-IsCurrent p sane s now c now (omega arith) c.recent

    failed_score : (failed s p now).score ≡ recovered.score - p.failure_penalty
    unfolding failed
    failed_score =
        Int64.max-sub recovered.score p.failure_penalty (omega (arith, recovered-current.score))
          (omega (arith, sane.penalty))

    failed_last :
        (failed s p now).last_adjusted_at
        ≡ (if ltb 0 p.failure_penalty then now else recovered.last_adjusted_at)
    unfolding failed
    failed_last =
        ap (λ (b : Bool). if b then now else recovered.last_adjusted_at)
          (Int64.lt_lem 0 p.failure_penalty (omega arith) (omega (arith, sane.penalty)))

    failed-IsCurrent : IsCurrent (failed s p now) now
    failed-IsCurrent = record {
      score = omega (arith, failed_score, recovered-current.score);
      recent = ground (arith, failed_last, recovered-current.recent);
    }

    score-failed :
        (recover_health (failed s p now) p now).score ≡ recovered.score - p.failure_penalty
    score-failed = elim (Bool-cases (ltb 0 p.failure_penalty)) [
      | inl costs ↦
          score-fresh (failed s p now) now failed-IsCurrent.score
            (ground (arith, failed_last, costs))
          ∙ failed_score
      | inr free ↦
          let same : failed s p now ≡ recovered = ground (arith, failed_last, failed_score, free) in
          ap (λ (x : HealthState). (recover_health x p now).score) same
          ∙ recover-recover p sane s now now (omega arith) c
          ∙ ground (arith, free)
    ]

    succeeded_score :
        (succeeded s p now).score ≡ min (recovered.score + p.success_increment) max_health_score
    unfolding succeeded
    succeeded_score =
        ap (λ n. Int64.min n max_health_score)
          (Int64.add_lem recovered.score p.success_increment
            (omega (arith, sane.success, recovered-current.score)))
        ∙ Int64.min_lem (recovered.score + p.success_increment) max_health_score
            (omega (arith, sane.success, recovered-current.score)) (omega arith)

    succeeded_last :
        (succeeded s p now).last_adjusted_at
        ≡ (if (succeeded s p now).score == recovered.score then recovered.last_adjusted_at else now)
    unfolding succeeded
    succeeded_last = refl

    succeeded-IsCurrent : IsCurrent (succeeded s p now) now
    succeeded-IsCurrent = record {
      score = omega (arith, succeeded_score);
      recent = ground (arith, succeeded_last, recovered-current.recent);
    }

    score-succeeded :
        (recover_health (succeeded s p now) p now).score
        ≡ min (recovered.score + p.success_increment) max_health_score
    score-succeeded = elim (Bool-cases ((succeeded s p now).score == recovered.score)) [
      | inl still ↦
          let same : succeeded s p now ≡ recovered = ground (arith, succeeded_last, still) in
          ap (λ (x : HealthState). (recover_health x p now).score) same
          ∙ recover-recover p sane s now now (omega arith) c
          ∙ sym ((==_iff _ _).0 still)
          ∙ succeeded_score
      | inr moved ↦
          score-fresh (succeeded s p now) now succeeded-IsCurrent.score
            (ground (arith, succeeded_last, moved))
          ∙ succeeded_score
    ]

  module _ (m : Manager) (id now : ℕ) (c : AllCurrent m now) where
    abbrev held : HealthState
    held = state_or_full (Assoc.get ℕ_discrete id m) now

    held-IsCurrent : IsCurrent held now
    held-IsCurrent = elim (Option-cases (Assoc.get ℕ_discrete id m)) [
      | inl e ↦ rw e (record { score = omega arith; recent = omega arith })
      | inr (s, e) ↦ rw e (c.at_id id s e)
    ]

    -- A missing entry and a full one read alike.
    held-score : (recover_health held p now).score ≡ score_at m id p now
    held-score = elim (Option-cases (Assoc.get ℕ_discrete id m)) [
      | inl e ↦
          let full : IsCurrent (state_or_full none now) now = record {
            score = omega arith;
            recent = omega arith;
          } in
          rw e (score-recover p sane (state_or_full none now) now full ∙ omega arith)
      | inr (s, e) ↦ rw e refl
    ]

    -- Under a sane policy and with current states, a failure costs the penalty of what a read at
    -- that instant sees, down to 0, and touches no other upstream.
    pub record_failure-score :
        (score_at (record_failure m id true p now) id p now
          ≡ score_at m id p now - p.failure_penalty)
        × ((other : ℕ)
            → id ≢ other
            → Assoc.get ℕ_discrete other (record_failure m id true p now)
              ≡ Assoc.get ℕ_discrete other m)
    unfolding record_failure
    record_failure-score = (
      score-store m id (failed held p now) now (failed-IsCurrent held now held-IsCurrent)
          ∙ score-failed held now held-IsCurrent
          ∙ ap (λ n. n - p.failure_penalty) held-score,
      λ other h. store_other m id other (failed held p now) h,
    )

    -- Under a sane policy and with current states, a success adds the increment to what a read at
    -- that instant sees, up to full health, and touches no other upstream.
    pub record_success-score :
        (score_at (record_success m id true p now) id p now
          ≡ min (score_at m id p now + p.success_increment) max_health_score)
        × ((other : ℕ)
            → id ≢ other
            → Assoc.get ℕ_discrete other (record_success m id true p now)
              ≡ Assoc.get ℕ_discrete other m)
    unfolding record_success
    record_success-score = elim (Option-cases (Assoc.get ℕ_discrete id m)) [
      | inl e ↦
          rw (e, record_success) (ap (λ o. slot_score o p now) e ∙ omega arith, λ other h. refl)
      | inr (s, e) ↦
          let cur = c.at_id id s e in
          rw (e, record_success)
            (
              score-store m id (succeeded s p now) now (succeeded-IsCurrent s now cur)
                  ∙ score-succeeded s now cur,
              λ other h. store_other m id other (succeeded s p now) h,
            )
    ]
