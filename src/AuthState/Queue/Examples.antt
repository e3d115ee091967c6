-- ===== src/AuthState/Queue/Examples.antt =====
-- Two callers at the verification slot, and the theorem at that run.
use wildtoken.Prelude.{refl, arith}
use wildtoken.Prelude.Int64
use wildtoken.AuthState.Queue.{join, take_slot, leave}
use wildtoken.AuthState.Queue.Slots.{
  World, Reachable, begins, goes_on, joins, takes, leaves, IsBounded, world-IsBounded,
}

-- One caller verifies, and another waits.
abbrev busy : World
busy = record { queue = record { waiting = 1; slot = 0 }; taking = 0; verifying = 1 }

busy-Reachable : Reachable busy
unfolding join take_slot leave Int64.le Int64.add Int64.sub
busy-Reachable =
    goes_on
      (goes_on (goes_on (goes_on begins joins) joins)
        (takes (record { waiting = 2; slot = 0 }) (omega arith) refl))
      (leaves 0 refl)

world-IsBounded_example : IsBounded busy
world-IsBounded_example = world-IsBounded busy-Reachable
