-- ===== src/AuthState/Throttle/Backoff.antt =====
-- How long a client waits after its failures.
use native.Mathlib.Nat.{pow-le-pow_right}
use wildtoken.Prelude.{
  ℕ, zero, suc, ◌+◌, ◌-◌, ◌*◌, ◌%◌, ◌^◌, ◌≤◌, ◌<◌, ◌≡◌, refl, sym, ap, ◌∙◌, min, Bool, true, false,
  ◌||◌, none, some, arith, ltb, leb, ◌==◌, if◌then◌else◌, Bool-cases, inl, inr, ==_iff, ltb→le,
  leb→le, ltb→lt, ℕ_discrete,
}
use wildtoken.Prelude.Int64
use wildtoken.AuthState.Throttle.{backoff, base_backoff, max_backoff}

-- The delay of an exponent, as the code computes it.
abbrev shifted : ℕ → ℕ
shifted e =
    let delay = base_backoff * 2 ^ e % 2 ^ 64 in
    if Int64.le delay 0 || Int64.lt max_backoff delay then max_backoff else delay

-- Whether every exponent from 6 up to a bound gives the cap, although the shift overflows.
abbrev saturates : ℕ → Bool
saturates zero = true
saturates (suc n) = if shifted (n + 6) == max_backoff then saturates n else false

saturates_below : (n k : ℕ) → saturates n ≡ true → k < n → shifted (k + 6) ≡ max_backoff
saturates_below zero k h l = absurd (omega arith)
saturates_below (suc n) k h l = elim (Bool-cases (shifted (n + 6) == max_backoff)) [
  | inr below ↦ absurd (ground (arith, h, below))
  | inl full ↦ elim (ℕ_discrete k n) [
    | yes same ↦ ap (λ j. shifted (j + 6)) same ∙ (==_iff _ _).0 full
    | no other ↦ saturates_below n k (ground (arith, h, full)) (omega arith)
  ]
]

saturates_all : saturates 57 ≡ true
unfolding Int64.le Int64.lt
saturates_all = refl

-- What a run of failures costs, without bound on the shift.
abbrev pub ideal_delay : ℕ → ℕ
ideal_delay e = min (base_backoff * 2 ^ e) max_backoff

long_delay : (e : ℕ) → 6 ≤ e → ideal_delay e ≡ max_backoff
long_delay e h = let big : 2 ^ 6 ≤ 2 ^ e = pow-le-pow_right (omega arith) h in omega (arith, big)

short_delay : (e : ℕ) → e < 6 → shifted e ≡ ideal_delay e
unfolding Int64.le Int64.lt
short_delay zero h = refl
short_delay (suc zero) h = refl
short_delay (suc (suc zero)) h = refl
short_delay (suc (suc (suc zero))) h = refl
short_delay (suc (suc (suc (suc zero)))) h = refl
short_delay (suc (suc (suc (suc (suc zero))))) h = refl
short_delay (suc (suc (suc (suc (suc (suc e)))))) h = absurd (omega arith)

shifted-ideal_delay : (e : ℕ) → e < 63 → shifted e ≡ ideal_delay e
shifted-ideal_delay e h = elim (Bool-cases (ltb e 6)) [
  | inl short ↦ short_delay e (ltb→lt e 6 short)
  | inr long ↦
      let low : 6 ≤ e = ltb→le e 6 long in
      let same : e - 6 + 6 ≡ e = omega arith in
      ap shifted (sym same)
      ∙ saturates_below 57 (e - 6) saturates_all (omega arith)
      ∙ sym (long_delay e low)
]

-- The first five failures in a row are free; the one after waits a second, and each further one
-- twice as long, up to a minute, although the shift overflows on the way.
pub backoff_doubles :
    (failures : ℕ)
    → backoff failures ≡ (if leb failures 5 then none else some (ideal_delay (failures - 5 - 1)))
unfolding backoff
backoff_doubles failures = elim (Bool-cases (leb failures 5)) [
  | inl free ↦ rw free refl
  | inr costs ↦ elim (Bool-cases (leb 63 (failures - 5 - 1))) [
    | inl far ↦
        let long : 6 ≤ failures - 5 - 1 = omega (arith, leb→le _ _ far) in
        rw (costs, far) (ap some (sym (long_delay _ long)))
    | inr near ↦
        let low : failures - 5 - 1 < 63 = ground (arith, near) in
        rw (costs, near) (ground (arith, shifted-ideal_delay (failures - 5 - 1) low))
  ]
]
