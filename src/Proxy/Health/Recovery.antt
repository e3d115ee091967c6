-- ===== src/Proxy/Health/Recovery.antt =====
-- What recovery adds to a score, without bound; and that it does not matter how often it is taken.
use native.Mathlib.Nat.{
  div-mul-le_self, div-le_self, mul_comm, add-mul-div_right, le-div_iff_mul-le, div-zero,
}
use wildtoken.Prelude.{
  ℕ, ◌+◌, ◌-◌, ◌*◌, ◌/◌, ◌≤◌, ◌<◌, ◌≡◌, sym, ap, ◌∙◌, min, Bool, false, ◌||◌, arith, leb, ◌==◌,
  if◌then◌else◌, Bool-cases, ==_iff, ◌≢◌, inl, inr,
}
use wildtoken.Prelude.Int64
use wildtoken.Prelude.Int64.{max_int}
use wildtoken.Clock.{second, elapsed_since}
use wildtoken.Proxy.Health.{Policy, HealthState, recover_health, max_health_score}

-- The bounds that the settings are checked against.
pub record IsSane (p : Policy) : Type 0 where
  pub penalty : p.failure_penalty ≤ 100
  pub success : p.success_increment ≤ 100
  pub recovery : p.recovery_increment ≤ 100

-- A score is at most full, and its last change is no further back than a duration reaches.
pub record IsCurrent (s : HealthState) (now : ℕ) : Type 0 where
  pub score : s.score ≤ max_health_score
  pub recent : now ≤ s.last_adjusted_at + max_int

abbrev pub interval_of : Policy → ℕ
interval_of p = p.recovery_interval / second

-- The whole recovery intervals since the last change.
abbrev pub intervals : Policy → HealthState → ℕ → ℕ
intervals p s now = (now - s.last_adjusted_at) / second / interval_of p

module _ (p : Policy) (sane : IsSane p) (s : HealthState) (now : ℕ) (c : IsCurrent s now) where
  abbrev k : ℕ
  k = intervals p s now

  elapsed_lem : elapsed_since now s.last_adjusted_at ≡ now - s.last_adjusted_at
  elapsed_lem = omega arith

  k_bound : k * interval_of p ≤ (now - s.last_adjusted_at) / second
  k_bound = div-mul-le_self ((now - s.last_adjusted_at) / second) (interval_of p)

  k_small : k ≤ (now - s.last_adjusted_at) / second
  k_small = div-le_self ((now - s.last_adjusted_at) / second) (interval_of p)

  gain_small : p.recovery_increment * k ≤ 100 * k
  gain_small = grind arith

  score-lem :
      Int64.min (Int64.add s.score (Int64.mul p.recovery_increment k)) max_health_score
      ≡ min (s.score + p.recovery_increment * k) max_health_score
  score-lem =
      let gain =
        Int64.mul_lem p.recovery_increment k (omega (arith, gain_small, k_small, c.recent)) in
      let sum =
        Int64.add_lem s.score (p.recovery_increment * k)
          (omega (arith, gain_small, k_small, c.recent, c.score)) in
      ap (λ g. Int64.min (Int64.add s.score g) max_health_score) gain
      ∙ ap (λ g. Int64.min g max_health_score) sum
      ∙ Int64.min_lem (s.score + p.recovery_increment * k) max_health_score
          (omega (arith, gain_small, k_small, c.recent, c.score)) (omega arith)

  last-lem : Int64.mul (Int64.mul (interval_of p) k) second ≡ k * interval_of p * second
  last-lem =
      let inner = Int64.mul_lem (interval_of p) k (omega (arith, k_bound, c.recent)) in
      ap (λ g. Int64.mul g second) (inner ∙ mul_comm (interval_of p) k)
      ∙ Int64.mul_lem (k * interval_of p) second (omega (arith, k_bound, c.recent))

  -- Whether recovery has anything to add.
  abbrev pub idle : Bool
  idle = leb max_health_score s.score || p.recovery_increment == 0 || k == 0

  recovered : HealthState
  recovered = record {
    score = min (s.score + p.recovery_increment * k) max_health_score;
    last_adjusted_at = s.last_adjusted_at + k * interval_of p * second;
  }

  -- Every guard but the first two comes down to no whole interval having gone by.
  recover_lem : recover_health s p now ≡ (if idle then s else recovered)
  unfolding recover_health recovered
  recover_lem =
      let full = Int64.le_lem max_health_score s.score (omega arith) (omega (arith, c.score)) in
      ground (arith, full, elapsed_lem, score-lem, last-lem)

  pub score-recover :
      (recover_health s p now).score ≡ min (s.score + p.recovery_increment * k) max_health_score
  score-recover =
      let no_gain : p.recovery_increment ≡ 0 → p.recovery_increment * k ≡ 0 =
        λ e. rw e (omega arith) in
      let no_time : k ≡ 0 → p.recovery_increment * k ≡ 0 = λ e. rw e (omega arith) in
      ap (λ (x : HealthState). x.score) recover_lem
      ∙ (unfold recovered in ground (arith, no_gain, no_time, c.score))

  last-recover :
      (recover_health s p now).last_adjusted_at
      ≡ (if idle then s.last_adjusted_at else s.last_adjusted_at + k * interval_of p * second)
  last-recover =
      ap (λ (x : HealthState). x.last_adjusted_at) recover_lem ∙ (unfold recovered in ground arith)

  pub recover-IsCurrent :
      (later : ℕ)
      → now ≤ later
      → later ≤ s.last_adjusted_at + max_int
      → IsCurrent (recover_health s p now) later
  recover-IsCurrent later h r = record {
    score = omega (arith, score-recover);
    recent = ground (arith, last-recover, r);
  }

-- Intervals counted in two parts, the second from where the first ended, are those of the whole.
intervals_split :
    (a k i : ℕ)
    → 0 < i
    → k ≤ a / second / i
    → (a - k * i * second) / second / i + k ≡ a / second / i
intervals_split a k i pos h =
    let fits : k * i ≤ a / second = (le-div_iff_mul-le pos).0 h in
    let seconds : (a - k * i * second) / second ≡ a / second - k * i = omega arith in
    let parts : a / second ≡ (a / second - k * i) + k * i = omega arith in
    ap (λ n. n / i + k) seconds
    ∙ sym (add-mul-div_right (a / second - k * i) k pos)
    ∙ ap (λ n. n / i) (sym parts)

module _ (p : Policy) (sane : IsSane p) (s : HealthState) (first later : ℕ) (order : first ≤ later)
    (c : IsCurrent s later) where
  earlier : IsCurrent s first
  earlier = record { score = c.score; recent = omega (arith, c.recent) }

  abbrev mid : HealthState
  mid = recover_health s p first

  mid-current : IsCurrent mid later
  mid-current = recover-IsCurrent p sane s first earlier later order c.recent

  busy_facts :
      idle p sane s first earlier ≡ false
      → (s.score < max_health_score)
        × (intervals p s first ≢ 0)
        × (mid.last_adjusted_at ≡ s.last_adjusted_at + intervals p s first * interval_of p * second)
  busy_facts busy = ground (arith, last-recover p sane s first earlier)

  positive : intervals p s first ≢ 0 → 0 < interval_of p
  positive h = elim (Bool-cases (interval_of p == 0)) [
    | inl zero_interval ↦
        let none_gone : intervals p s first ≡ 0 =
          ap (λ n. (first - s.last_adjusted_at) / second / n) ((==_iff _ _).0 zero_interval)
          ∙ div-zero _ in
        absurd (h none_gone)
    | inr more ↦ ground arith
  ]

  intervals-mid :
      idle p sane s first earlier ≡ false
      → intervals p mid later + intervals p s first ≡ intervals p s later
  intervals-mid busy =
      let (_, some_gone, last) = busy_facts busy in
      let pos = positive some_gone in
      let i = interval_of p in
      let k₁ = intervals p s first in
      let fits : k₁ * i ≤ (first - s.last_adjusted_at) / second = div-mul-le_self _ i in
      let whole : k₁ ≤ (later - s.last_adjusted_at) / second / i =
        (le-div_iff_mul-le pos).1 (omega (arith, fits)) in
      let rest : later - mid.last_adjusted_at ≡ later - s.last_adjusted_at - k₁ * i * second =
        omega (arith, last) in
      ap (λ n. n / second / i + k₁) rest
      ∙ intervals_split (later - s.last_adjusted_at) k₁ i pos whole

  -- Taking recovery at one instant and again at a later one gives the score of taking it once.
  pub recover-recover : (recover_health mid p later).score ≡ (recover_health s p later).score
  recover-recover =
      let once = score-recover p sane s later c in
      let twice = score-recover p sane mid later mid-current in
      let start = score-recover p sane s first earlier in
      let rate = p.recovery_increment in
      elim (Bool-cases (idle p sane s first earlier)) [
        | inl none_gone ↦
            ap (λ (x : HealthState). (recover_health x p later).score)
              (recover_lem p sane s first earlier ∙ ground arith)
        | inr busy ↦
            let joined = ap (λ n. rate * n) (intervals-mid busy) in
            omega (arith, once, twice, start, joined)
      ]
