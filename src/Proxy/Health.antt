-- ===== src/Proxy/Health.antt =====
-- internal/proxy/health.go: the health score of each upstream. A missing entry is full health.
-- Every method holds the manager's lock, so each is one step; the clock's reading is an argument.
-- Scores and amounts are int64 patterns, durations are not negative. EffectiveWeight, a float for
-- display, is left out; the seconds until recovery are a float's ceiling, which is exact here since
-- an interval in nanoseconds has a double's precision to spare.
pub mod Recovery
pub mod Scores
use wildtoken.Prelude.{
  ℕ, ◌+◌, ◌-◌, ◌*◌, ◌/◌, ◌%◌, ◌^◌, min, max, Bool, true, false, ◌||◌, ◌&&◌, Option, none, some, ltb,
  leb, ◌==◌, if◌then◌else◌, ℕ_discrete,
}
use wildtoken.Prelude.Int64
use wildtoken.Prelude.Int64.{max_int}
use wildtoken.Prelude.Assoc
use wildtoken.Prelude.Assoc.{Assoc}
use wildtoken.Clock.{second, elapsed_since}

-- MaxHealthScore
abbrev pub max_health_score : ℕ
max_health_score = 100

-- type AutoWeightPolicy
pub record Policy : Type 0 where
  pub failure_penalty : ℕ
  pub success_increment : ℕ
  pub recovery_increment : ℕ
  pub recovery_interval : ℕ

-- NewAutoWeightPolicy, over the four settings that it reads.
unfoldable pub new_policy : ℕ → ℕ → ℕ → ℕ → Policy
new_policy penalty increment recovery interval_seconds =
    let interval : ℕ = if Int64.lt interval_seconds 1 then 1 else interval_seconds in
    record {
      failure_penalty = penalty;
      success_increment = increment;
      recovery_increment = recovery;
      recovery_interval = Int64.mul interval second;
    }

pub record HealthState : Type 0 where
  pub score : ℕ
  pub last_adjusted_at : ℕ

abbrev pub Manager : Type 0
Manager = Assoc ℕ HealthState

-- recoverHealth: the state after the whole intervals that have gone by.
unfoldable pub recover_health : HealthState → Policy → ℕ → HealthState
recover_health s p now =
    let interval = p.recovery_interval / second in
    let intervals = elapsed_since now s.last_adjusted_at / second / interval in
    if Int64.le max_health_score s.score || p.recovery_increment == 0
    then s
    else if interval == 0
    then s
    else if ltb now s.last_adjusted_at
    then s
    else if intervals == 0
    then s
    else record {
      score =
          Int64.min (Int64.add s.score (Int64.mul p.recovery_increment intervals)) max_health_score;
      last_adjusted_at = s.last_adjusted_at + Int64.mul (Int64.mul interval intervals) second;
    }

abbrev pub state_or_full : Option HealthState → ℕ → HealthState
state_or_full none now = record { score = max_health_score; last_adjusted_at = now }
state_or_full (some s) now = s

-- The state is written back, and dropped at full health.
unfoldable pub store : Manager → ℕ → HealthState → Manager
store m id s =
    if s.score == max_health_score
    then Assoc.delete ℕ_discrete id m
    else Assoc.put ℕ_discrete id s m

unfoldable pub failed : HealthState → Policy → ℕ → HealthState
failed s p now =
    let recovered = recover_health s p now in
    record {
      score = Int64.max (Int64.sub recovered.score p.failure_penalty) 0;
      last_adjusted_at = if Int64.lt 0 p.failure_penalty then now else recovered.last_adjusted_at;
    }

unfoldable pub record_failure : Manager → ℕ → Bool → Policy → ℕ → Manager
unfolding failed store
record_failure m id false p now = m
record_failure m id true p now =
    store m id (failed (state_or_full (Assoc.get ℕ_discrete id m) now) p now)

unfoldable pub succeeded : HealthState → Policy → ℕ → HealthState
succeeded s p now =
    let recovered = recover_health s p now in
    let score = Int64.min (Int64.add recovered.score p.success_increment) max_health_score in
    record {
      score = score;
      last_adjusted_at = if score == recovered.score then recovered.last_adjusted_at else now;
    }

unfoldable pub record_success : Manager → ℕ → Bool → Policy → ℕ → Manager
unfolding succeeded store
record_success m id false p now = m
record_success m id true p now = elim (Assoc.get ℕ_discrete id m) [
  | none ↦ m
  | some s ↦ store m id (succeeded s p now)
]

-- type HealthSnapshot
pub record Snapshot : Type 0 where
  pub score : ℕ
  pub routing_weight : ℕ
  pub recovery_remaining : Option ℕ

-- The seconds until a score of 0 recovers, rounded up.
unfoldable pub remaining_seconds : HealthState → Policy → ℕ → Option ℕ
remaining_seconds s p now =
    let remaining = p.recovery_interval + s.last_adjusted_at - now in
    if s.score == 0 && Int64.lt 0 p.recovery_increment
    then some ((remaining + (second - 1)) / second)
    else none

-- uint64(max(weight, 0))
abbrev pub base_weight : ℕ → ℕ
base_weight weight = Int64.max weight 0

abbrev pub weighed : ℕ → ℕ → Option ℕ → Snapshot
weighed weight score remaining = record {
  score = score;
  routing_weight = base_weight weight * score % 2 ^ 64;
  recovery_remaining = remaining;
}

unfoldable pub snapshot : Manager → ℕ → ℕ → Bool → Policy → ℕ → Manager × Snapshot
unfolding store remaining_seconds
snapshot m id weight false p now = (m, weighed weight max_health_score none)
snapshot m id weight true p now = elim (Assoc.get ℕ_discrete id m) [
  | none ↦ (m, weighed weight max_health_score none)
  | some s ↦
      let recovered = recover_health s p now in
      (store m id recovered, weighed weight recovered.score (remaining_seconds recovered p now))
]

unfoldable pub reset : Manager → ℕ → Manager
reset m id = Assoc.delete ℕ_discrete id m
