-- ===== src/AuthState/Examples.antt =====
-- Runs of the throttle on small inputs, and the theorems at such inputs.
use wildtoken.Prelude.{
  ℕ, ◌*◌, ◌-◌, ◌≤◌, ◌≡◌, refl, false, not, none, some, List, [], ◌∷◌, arith, ℕ_discrete, leb,
  if◌then◌else◌,
}
use wildtoken.Prelude.Int64
use wildtoken.Prelude.Assoc
use wildtoken.Clock.{second}
use wildtoken.AuthState.Throttle.{
  Client, Throttle, client_loopback, client_remote, new_throttle, gate_for, holds_until,
  unknown_client, admit, record_failure, record_success, charge_gate, charge_client, charge_addr,
  charged, penalized, prune, backoff, tracked_clients, max_tracked_clients,
}
use wildtoken.AuthState.Throttle.Backoff.{ideal_delay, backoff_doubles}
use wildtoken.AuthState.Throttle.Bound.{
  charges_gate, charges_client, Reachable, begins, goes_on, tracked-bound,
}
use wildtoken.AuthState.Throttle.Fairness.{
  Call, fails, succeeds, calls, call, admit-calls, admit-record_success,
}
use wildtoken.AuthState.Throttle.Penalties.{admit-penalized}
use wildtoken.AuthState.Throttle.Gate.{flood, flood-closes}

abbrev guest : ℕ → Client
guest addr = record { kind = client_remote; addr = addr }

abbrev quiet : Throttle
quiet = new_throttle (1000 * second)

-- Six failures of one client, a second apart: the next attempt has to wait a second.
abbrev six_failures : List Call
six_failures =
    fails (1001 * second) (guest 9)
    ∷ fails (1002 * second) (guest 9)
    ∷ fails (1003 * second) (guest 9)
    ∷ fails (1004 * second) (guest 9)
    ∷ fails (1005 * second) (guest 9)
    ∷ fails (1006 * second) (guest 9)
    ∷ []

abbrev guessed : Throttle
guessed = calls quiet six_failures

penalized_then :
    Assoc.get ℕ_discrete 9 guessed.clients
    ≡ some (record { failures = 6; blocked_until = 1007 * second; last_failure = 1006 * second })
unfolding calls call record_failure charge_gate charge_client charge_addr charged penalized prune
    backoff Assoc.get Assoc.put ℕ_discrete Int64.le Int64.lt
penalized_then = refl

backoff_doubles_example : backoff 8 ≡ (if leb 8 5 then none else some (ideal_delay (8 - 5 - 1)))
backoff_doubles_example = backoff_doubles 8

after_one :
    Reachable
      (1000 * second)
      (charge_client (charge_gate quiet (guest 9) (1001 * second)) (guest 9) (1001 * second))
after_one =
    goes_on (1001 * second) (goes_on (1001 * second) begins (charges_gate (guest 9)))
      (charges_client (guest 9))

tracked-bound_example :
    tracked_clients
      (charge_client (charge_gate quiet (guest 9) (1001 * second)) (guest 9) (1001 * second))
    ≤ max_tracked_clients
tracked-bound_example = tracked-bound after_one

admit-calls_example :
    (admit
      (calls quiet six_failures)
      (record { kind = client_loopback; addr = 0 })
      (1006 * second)).1
    ≡ (admit quiet (record { kind = client_loopback; addr = 0 }) (1006 * second)).1
admit-calls_example =
    admit-calls quiet six_failures 0 (1006 * second)
      (refl, (refl, (refl, (refl, (refl, (refl, tt))))))

admit-record_success_example :
    (admit (record_success guessed (guest 9)) (guest 9) (1006 * second)).1
    ≡ not (holds_until (gate_for guessed (guest 9).kind).cooldown_until (1006 * second))
admit-record_success_example = admit-record_success guessed (guest 9) (1006 * second)

abbrev others : List Call
others = fails (1006 * second) (guest 4) ∷ succeeds (1006 * second) (guest 5) ∷ []

admit-penalized_example : (admit (calls guessed others) (guest 9) (1006 * second)).1 ≡ false
admit-penalized_example =
    admit-penalized guessed others 9 (1006 * second)
      (record { failures = 6; blocked_until = 1007 * second; last_failure = 1006 * second })
      penalized_then (((λ e. ground (arith, e)), omega arith), ((λ e. ground (arith, e)), tt))
      (omega arith)

-- The gate has counted 97 failures already.
abbrev crowded : Throttle
crowded = record quiet {
  remote = record { window_start = 1000 * second; failures = 97; cooldown_until = 0 };
}

abbrev two_more : List (ℕ × Client)
two_more = (1010 * second, unknown_client) ∷ (1010 * second, guest 7) ∷ []

flood-closes_example :
    ((admit (flood crowded two_more) unknown_client (1020 * second)).1
      ≡ (admit crowded unknown_client (1020 * second)).1)
    × ((admit
          (record_failure (flood crowded two_more) (guest 9) (1011 * second))
          (guest 3)
          (1020 * second)).1
        ≡ false)
flood-closes_example =
    flood-closes crowded two_more (guest 9) (guest 3) (1011 * second) (1020 * second)
      (refl, omega arith, (refl, omega arith, (refl, omega arith, tt))) (omega arith) refl
      (omega arith)
