-- ===== src/Proxy/Examples.antt =====
-- Runs of the health scores, the key picker and the matcher on small inputs, and the theorems at
-- such inputs.
use wildtoken.Prelude.{
  ℕ, ◌*◌, ◌+◌, ◌-◌, ◌≤◌, ◌≡◌, ◌≢◌, refl, Bool, true, false, some, List, [], ◌∷◌, arith, ℕ_discrete,
  min, ltb, ◌==◌,
}
use wildtoken.Prelude.Assoc
use wildtoken.Clock.{second, minute}
use wildtoken.Proxy.Health.{Policy, Manager, record_failure, record_success, snapshot}
use wildtoken.Proxy.Health.Recovery.{IsSane}
use wildtoken.Proxy.Health.Scores.{
  AllCurrent, score_at, record_failure-score, record_success-score, snapshot_transparent,
}
use wildtoken.Proxy.Keys.{
  UpstreamKey, KeyPicker, next_or_zero, sitting_out, nil_sitting_out, pick, bench, cooldown,
  key_cooldown_base, key_cooldown_max,
}
use wildtoken.Proxy.Keys.Choice.{Promises, pick-Promises}
use wildtoken.Proxy.Keys.Rotation.{AllUsable, pick_run, round_robin, pick_run-round_robin}
use wildtoken.Proxy.Keys.Cooldown.{refusals_of, kept_refusals, cooldown_doubles, bench_sits}

abbrev usual : Policy
usual = record {
  failure_penalty = 20;
  success_increment = 10;
  recovery_increment = 5;
  recovery_interval = minute;
}

usual-IsSane : IsSane usual
usual-IsSane = record { penalty = omega arith; success = omega arith; recovery = omega arith }

-- Upstream 3 scored 40 at the instant of 1000 s.
abbrev scores : Manager
scores = (3, record { score = 40; last_adjusted_at = 1000 * second }) ∷ []

scores-AllCurrent : AllCurrent scores (1200 * second)
unfolding Assoc.get
scores-AllCurrent = record {
  at_id = λ id s e. record { score = ground arith; recent = ground arith };
}

record_failure-score_example :
    (score_at (record_failure scores 3 true usual (1200 * second)) 3 usual (1200 * second)
      ≡ score_at scores 3 usual (1200 * second) - 20)
    × ((other : ℕ)
        → 3 ≢ other
        → Assoc.get ℕ_discrete other (record_failure scores 3 true usual (1200 * second))
          ≡ Assoc.get ℕ_discrete other scores)
record_failure-score_example =
    record_failure-score usual usual-IsSane scores 3 (1200 * second) scores-AllCurrent

record_success-score_example :
    (score_at (record_success scores 3 true usual (1200 * second)) 3 usual (1200 * second)
      ≡ min (score_at scores 3 usual (1200 * second) + 10) 100)
    × ((other : ℕ)
        → 3 ≢ other
        → Assoc.get ℕ_discrete other (record_success scores 3 true usual (1200 * second))
          ≡ Assoc.get ℕ_discrete other scores)
record_success-score_example =
    record_success-score usual usual-IsSane scores 3 (1200 * second) scores-AllCurrent

snapshot_transparent_example :
    score_at (snapshot scores 3 10 true usual (1100 * second)).0 3 usual (1200 * second)
    ≡ score_at scores 3 usual (1200 * second)
snapshot_transparent_example =
    snapshot_transparent usual usual-IsSane scores 3 10 (1100 * second) (1200 * second)
      (omega arith) scores-AllCurrent

abbrev key : ℕ → UpstreamKey
key id = record { id = id; upstream_id = 3; name = []; api_key = []; enabled = true }

abbrev three_keys : List UpstreamKey
three_keys = key 1 ∷ key 2 ∷ key 4 ∷ []

abbrev fresh_picker : KeyPicker
fresh_picker = record { next = []; benched = [] }

abbrev no_refusals : ℕ → Bool
no_refusals id = false

pick-Promises_example :
    Promises three_keys
      (λ id. id == 2)
      (λ id. sitting_out fresh_picker id (10 * second))
      (pick (some fresh_picker) 3 three_keys (λ id. id == 2) (10 * second)).1
pick-Promises_example =
    pick-Promises fresh_picker 3 three_keys (λ id. id == 2) (10 * second)
      (unfold Assoc.get in omega arith)

fresh-AllUsable : AllUsable fresh_picker three_keys no_refusals (10 * second)
unfolding sitting_out Assoc.get
fresh-AllUsable = record { accepted = λ k o. refl; rested = λ k o. refl }

pick_run-round_robin_example :
    pick_run 5 (some fresh_picker) 3 three_keys no_refusals (10 * second)
    ≡ round_robin three_keys 5 (next_or_zero (Assoc.get ℕ_discrete 3 fresh_picker.next))
pick_run-round_robin_example =
    pick_run-round_robin three_keys 3 no_refusals (10 * second) 5 fresh_picker (omega arith)
      fresh-AllUsable (unfold Assoc.get in omega arith)

abbrev served_key : ℕ
served_key = 4

cooldown_doubles_example :
    (cooldown 1 0 ≡ key_cooldown_base)
    × (cooldown 4 0 ≡ min (2 * cooldown 3 0) key_cooldown_max)
    × (cooldown 2 (900 * second) ≤ key_cooldown_max)
cooldown_doubles_example = cooldown_doubles 2 (900 * second)

bench_sits_example :
    (kept_refusals (bench (some fresh_picker) 4 0 (10 * second)) 4 ≡ refusals_of fresh_picker 4 + 1)
    × (nil_sitting_out (bench (some fresh_picker) 4 0 (10 * second)) 4 (19 * second)
        ≡ ltb (19 * second) (10 * second + cooldown (refusals_of fresh_picker 4 + 1) 0))
    × (served_key ≢ 1
        → (kept_refusals (bench (some fresh_picker) 4 0 (10 * second)) 1
            ≡ refusals_of fresh_picker 1)
          × (nil_sitting_out (bench (some fresh_picker) 4 0 (10 * second)) 1 (19 * second)
              ≡ sitting_out fresh_picker 1 (19 * second)))
bench_sits_example =
    bench_sits fresh_picker 4 1 0 (10 * second) (19 * second) (unfold Assoc.get in omega arith)
