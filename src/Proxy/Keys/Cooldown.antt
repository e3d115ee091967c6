-- ===== src/Proxy/Keys/Cooldown.antt =====
-- How long a refused key sits out.
use wildtoken.Prelude.{
  ℕ, zero, suc, ◌+◌, ◌-◌, ◌*◌, ◌≤◌, ◌<◌, ◌≡◌, ◌≢◌, refl, ap, ◌∙◌, min, Option, none, some, arith,
  ltb, ℕ_discrete,
}
use wildtoken.Prelude.Int64
use wildtoken.Prelude.Int64.{max_int}
use wildtoken.Prelude.Assoc
use wildtoken.Proxy.Keys.{
  KeyPicker, KeyBench, bench_or_zero, cooldown, bench, nil_sitting_out, sitting_out,
  key_cooldown_base, key_cooldown_max,
}

-- Without a Retry-After the first refusal waits the base, and each further one in a row twice the
-- one before, up to the cap. A wait never passes the cap, whatever the upstream sent.
pub cooldown_doubles :
    (n retry_after : ℕ)
    → (cooldown 1 0 ≡ key_cooldown_base)
      × (cooldown (suc (suc n)) 0 ≡ min (2 * cooldown (suc n) 0) key_cooldown_max)
      × (cooldown n retry_after ≤ key_cooldown_max)
unfolding cooldown
cooldown_doubles zero r = (refl, refl, omega arith)
cooldown_doubles (suc zero) r = (refl, refl, omega arith)
cooldown_doubles (suc (suc zero)) r = (refl, refl, omega arith)
cooldown_doubles (suc (suc (suc zero))) r = (refl, refl, omega arith)
cooldown_doubles (suc (suc (suc (suc zero)))) r = (refl, refl, omega arith)
cooldown_doubles (suc (suc (suc (suc (suc n))))) r =
    let longer : min (suc (suc (suc (suc (suc (suc (suc n)))))) - 1) 5 ≡ 5 = omega arith in
    let long : min (suc (suc (suc (suc (suc (suc n))))) - 1) 5 ≡ 5 = omega arith in
    (refl, rw (longer, long) refl, omega arith)

abbrev pub refusals_of : KeyPicker → ℕ → ℕ
refusals_of p key_id = (bench_or_zero (Assoc.get ℕ_discrete key_id p.benched)).refusals

-- The run of refusals that a picker keeps for a key.
abbrev pub kept_refusals : Option KeyPicker → ℕ → ℕ
kept_refusals none key_id = 0
kept_refusals (some p) key_id = refusals_of p key_id

-- While the count of refusals fits, benching a key adds one to the run of refusals that is kept for it,
-- and sits it out for exactly the cooldown of that run from then on; of any other key, neither the
-- run nor when it sits out changes.
pub bench_sits :
    (p : KeyPicker) (key_id other retry_after now t : ℕ)
    → refusals_of p key_id < max_int
    → (kept_refusals (bench (some p) key_id retry_after now) key_id ≡ refusals_of p key_id + 1)
      × (nil_sitting_out (bench (some p) key_id retry_after now) key_id t
          ≡ ltb t (now + cooldown (refusals_of p key_id + 1) retry_after))
      × (key_id ≢ other
          → (kept_refusals (bench (some p) key_id retry_after now) other ≡ refusals_of p other)
            × (nil_sitting_out (bench (some p) key_id retry_after now) other t
                ≡ sitting_out p other t))
unfolding bench sitting_out
bench_sits p key_id other retry_after now t h =
    let counted = Int64.add_lem (refusals_of p key_id) 1 (omega arith) in
    let stored = Assoc.get-put_self ℕ_discrete key_id _ p.benched in
    (
      ap (λ (o : Option KeyBench). (bench_or_zero o).refusals) stored ∙ counted,
      ap (λ (o : Option KeyBench). ltb t (bench_or_zero o).until) stored
          ∙ ap (λ n. ltb t (now + cooldown n retry_after)) counted,
      λ n.
          let kept = Assoc.get-put_ne ℕ_discrete key_id other _ p.benched n in
          (
            ap (λ (o : Option KeyBench). (bench_or_zero o).refusals) kept,
            ap (λ (o : Option KeyBench). ltb t (bench_or_zero o).until) kept,
          ),
    )
