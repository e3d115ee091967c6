-- ===== src/Models/Settings/Accepted.antt =====
-- What accepted settings promise to the health scores.
use wildtoken.Prelude.{
  ℕ, ◌+◌, ◌*◌, ◌^◌, ◌≤◌, ◌<◌, ◌≡◌, ◌∙◌, Bool, false, Option, none, List, arith, Bool-cases,
  Option-cases, inl, inr, Occurs, first, later,
}
use wildtoken.Prelude.Int64
use wildtoken.Clock.{second}
use wildtoken.Text.{Text}
use wildtoken.Proxy.Health.{new_policy}
use wildtoken.Proxy.Health.Recovery.{IsSane}
use wildtoken.Models.Settings.{RuntimeSettings, Check, checks, fails, first_failure, validate}

passes :
    (c : Check) (i : ℕ) {cs : List Check}
    → Occurs c cs
    → first_failure i cs ≡ none
    → fails c ≡ false
unfolding first_failure
passes c i (first {xs = xs}) h = elim (Bool-cases (fails c)) [
  | inl bad ↦ absurd (ground (arith, h, bad))
  | inr good ↦ good
]
passes c i (later {x = x} {xs = xs} o) h = elim (Bool-cases (fails x)) [
  | inl bad ↦ absurd (ground (arith, h, bad))
  | inr good ↦ passes c (i + 1) o (ground (arith, h, good))
]

in_range :
    (c : Check)
    → c.value < 2 ^ 64
    → c.least ≤ Int64.max_int
    → c.most ≤ Int64.max_int
    → fails c ≡ false
    → (c.least ≤ c.value) × (c.value ≤ c.most)
unfolding fails Int64.lt
in_range c v l m h = ground arith

module _ (trim_space : Text → Text) (parse_url : Text → Option (Text × Text))
    (multiplier_fits : ℕ → Bool) (s : RuntimeSettings) where
  no_failure :
      validate trim_space parse_url multiplier_fits s ≡ none → first_failure 0 (checks s) ≡ none
  unfolding validate
  no_failure h = elim (Option-cases (first_failure 0 (checks s))) [
    | inl e ↦ e
    | inr (i, e) ↦ absurd (ground (arith, e, h))
  ]

  -- Settings that pass the check, with values of 64 bits, give the health scores a policy within its
  -- bounds, whose recovery interval is the entered one, from a second to an hour, without overflow.
  pub validate-IsSane :
      s.auto_weight_failure_penalty < 2 ^ 64
      → s.auto_weight_success_increment < 2 ^ 64
      → s.auto_weight_recovery_increment < 2 ^ 64
      → s.auto_weight_recovery_interval_seconds < 2 ^ 64
      → validate trim_space parse_url multiplier_fits s ≡ none
      → (let p =
            new_policy s.auto_weight_failure_penalty s.auto_weight_success_increment
              s.auto_weight_recovery_increment s.auto_weight_recovery_interval_seconds in
          IsSane p
          × (p.recovery_interval ≡ s.auto_weight_recovery_interval_seconds * second)
          × (second ≤ p.recovery_interval)
          × (p.recovery_interval ≤ 3600 * second))
  unfolding new_policy
  validate-IsSane a b c d h =
      let clear = no_failure h in
      let penalty =
        passes (record { value = s.auto_weight_failure_penalty; least = 0; most = 100 }) 0
          (later (later (later (later (later first))))) clear in
      let success =
        passes (record { value = s.auto_weight_success_increment; least = 0; most = 100 }) 0
          (later (later (later (later (later (later first)))))) clear in
      let recovery =
        passes (record { value = s.auto_weight_recovery_increment; least = 0; most = 100 }) 0
          (later (later (later (later (later (later (later first))))))) clear in
      let interval =
        passes (record { value = s.auto_weight_recovery_interval_seconds; least = 1; most = 3600 })
          0 (later (later (later (later (later (later (later (later first)))))))) clear in
      let p = in_range _ a (omega arith) (omega arith) penalty in
      let q = in_range _ b (omega arith) (omega arith) success in
      let r = in_range _ c (omega arith) (omega arith) recovery in
      let i = in_range _ d (omega arith) (omega arith) interval in
      let kept : Int64.lt s.auto_weight_recovery_interval_seconds 1 ≡ false =
        Int64.lt_lem _ _ (omega (arith, i)) (omega arith) ∙ ground (arith, i) in
      let exact = Int64.mul_lem s.auto_weight_recovery_interval_seconds second (omega (arith, i)) in
      rw kept (
        record { penalty = p.1; success = q.1; recovery = r.1 },
        exact,
        omega (arith, exact, i),
        omega (arith, exact, i),
      )
