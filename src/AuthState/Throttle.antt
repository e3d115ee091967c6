-- ===== src/AuthState/Throttle.antt =====
-- internal/authstate/throttle.go: how often callers that have proven nothing may pay for a
-- verification. An address (netip.Addr) is a number, a failure count a uint32; the clock's reading
-- is an argument. Admit and RecordFailure take the lock on the gates and then the lock on the
-- clients, so each is two steps, and the whole call their composition.
pub mod Backoff
pub mod Bound
pub mod Fairness
pub mod Penalties
pub mod Gate
use wildtoken.Prelude.{
  ℕ, ◌+◌, ◌-◌, ◌*◌, ◌%◌, ◌^◌, Bool, true, false, not, ◌&&◌, ◌||◌, Option, none, some, List, [], ◌∷◌,
  ltb, leb, ◌==◌, if◌then◌else◌, ℕ_discrete, length, keep,
}
use wildtoken.Prelude.Int64
use wildtoken.Prelude.Assoc
use wildtoken.Prelude.Assoc.{Assoc}
use wildtoken.Clock.{second, minute, before, elapsed}

abbrev pub free_attempts : ℕ
free_attempts = 5

abbrev pub base_backoff : ℕ
base_backoff = second

abbrev pub max_backoff : ℕ
max_backoff = 60 * second

abbrev pub client_reset_after : ℕ
client_reset_after = 15 * minute

abbrev pub max_tracked_clients : ℕ
max_tracked_clients = 4096

abbrev pub global_window : ℕ
global_window = 60 * second

abbrev pub global_threshold : ℕ
global_threshold = 100

abbrev pub global_cooldown : ℕ
global_cooldown = 30 * second

pub data ClientKind : Type 0 where
  client_loopback client_remote client_unknown : ClientKind

pub record Client : Type 0 where
  pub kind : ClientKind
  pub addr : ℕ

-- ClientFromAddr, with the address's own test IsLoopback.
abbrev pub client_from_addr : (ℕ → Bool) → ℕ → Client
client_from_addr is_loopback addr =
    if is_loopback addr
    then record { kind = client_loopback; addr = 0 }
    else record { kind = client_remote; addr = addr }

abbrev pub unknown_client : Client
unknown_client = record { kind = client_unknown; addr = 0 }

abbrev pub key : Client → Option ℕ
key c = elim c.kind [ client_loopback ↦ none | client_remote ↦ some c.addr | client_unknown ↦ none ]

-- An instant of 0 is the zero time.
pub record ClientState : Type 0 where
  pub failures : ℕ
  pub blocked_until : ℕ
  pub last_failure : ℕ

pub record GlobalState : Type 0 where
  pub window_start : ℕ
  pub failures : ℕ
  pub cooldown_until : ℕ

pub record Throttle : Type 0 where
  pub clients : Assoc ℕ ClientState
  pub remote : GlobalState
  pub loopback : GlobalState

abbrev pub new_throttle : ℕ → Throttle
new_throttle now = record {
  clients = [];
  remote = record { window_start = now; failures = 0; cooldown_until = 0 };
  loopback = record { window_start = now; failures = 0; cooldown_until = 0 };
}

abbrev pub gate_for : Throttle → ClientKind → GlobalState
gate_for t client_loopback = t.loopback
gate_for t client_remote = t.remote
gate_for t client_unknown = t.remote

abbrev pub set_gate : Throttle → ClientKind → GlobalState → Throttle
set_gate t client_loopback g = record t { loopback = g }
set_gate t client_remote g = record t { remote = g }
set_gate t client_unknown g = record t { remote = g }

-- `!until.IsZero() && now.Before(until)`
abbrev pub holds_until : ℕ → ℕ → Bool
holds_until until now = not (until == 0) && before now until

-- The first half of Admit: the gate.
unfoldable pub admit_gate : Throttle → Client → ℕ → Throttle × Bool
admit_gate t c now =
    let gate = gate_for t c.kind in
    if holds_until gate.cooldown_until now
    then (t, false)
    else (set_gate t c.kind (record gate { cooldown_until = 0 }), true)

abbrev pub slot_admits : Option ClientState → ℕ → Bool
slot_admits none now = true
slot_admits (some state) now =
    if state.blocked_until == 0 then true else not (before now state.blocked_until)

-- The second half of Admit: the client's own backoff.
unfoldable pub admit_client : Throttle → Client → ℕ → Bool
admit_client t c now = elim (key c) [
  | none ↦ true
  | some addr ↦ slot_admits (Assoc.get ℕ_discrete addr t.clients) now
]

unfoldable pub admit : Throttle → Client → ℕ → Throttle × Bool
unfolding admit_gate admit_client
admit t c now =
    let (t', passes) = admit_gate t c now in (t', (if passes then admit_client t' c now else false))

unfoldable pub record_success : Throttle → Client → Throttle
record_success t c = elim (key c) [
  | none ↦ t
  | some addr ↦ record t { clients = Assoc.delete ℕ_discrete addr t.clients }
]

-- A failure counted in a gate.
unfoldable pub charged : GlobalState → ℕ → GlobalState
charged gate now =
    let fresh = elapsed now gate.window_start global_window in
    let start : ℕ = if fresh then now else gate.window_start in
    let count : ℕ = ((if fresh then 0 else gate.failures) + 1) % 2 ^ 32 in
    if leb global_threshold count
    then record { window_start = now; failures = 0; cooldown_until = now + global_cooldown }
    else record { window_start = start; failures = count; cooldown_until = gate.cooldown_until }

-- The first half of RecordFailure.
unfoldable pub charge_gate : Throttle → Client → ℕ → Throttle
unfolding charged
charge_gate t c now = set_gate t c.kind (charged (gate_for t c.kind) now)

-- The delay after the failures-th failure in a row; `none` within the free attempts.
unfoldable pub backoff : ℕ → Option ℕ
backoff failures =
    let exponent = failures - free_attempts - 1 in
    let delay = base_backoff * 2 ^ exponent % 2 ^ 64 in
    if leb failures free_attempts
    then none
    else if leb 63 exponent
    then some max_backoff
    else if Int64.le delay 0 || Int64.lt max_backoff delay
    then some max_backoff
    else some delay

abbrev pub stale : ClientState → ℕ → Bool
stale state now =
    elapsed now state.last_failure client_reset_after && not (holds_until state.blocked_until now)

-- prune: the clients that stay, and whether there is room for one more.
unfoldable pub prune : Assoc ℕ ClientState → ℕ → Assoc ℕ ClientState × Bool
prune clients now =
    let kept = keep (λ (entry : ℕ × ClientState). not (stale entry.1 now)) clients in
    if ltb (length clients) max_tracked_clients
    then (clients, true)
    else (kept, ltb (length kept) max_tracked_clients)

abbrev pub blocked_from : Option ℕ → ℕ → ℕ
blocked_from none now = 0
blocked_from (some delay) now = now + delay

-- A failure counted in a client's state.
unfoldable pub penalized : ClientState → ℕ → ClientState
unfolding backoff
penalized state now =
    let streak : ℕ =
      if elapsed now state.last_failure client_reset_after then 0 else state.failures in
    let failures = (streak + 1) % 2 ^ 32 in
    record {
      failures = failures;
      last_failure = now;
      blocked_until = blocked_from (backoff failures) now;
    }

-- The clients after a failure of an address.
unfoldable pub charge_addr : Assoc ℕ ClientState → ℕ → ℕ → Assoc ℕ ClientState
unfolding prune penalized
charge_addr clients addr now =
    let (kept, has_room) = prune clients now in
    let fresh : ClientState = record { failures = 0; blocked_until = 0; last_failure = now } in
    elim (Assoc.get ℕ_discrete addr kept) [
      | none ↦ (if has_room then Assoc.put ℕ_discrete addr (penalized fresh now) kept else kept)
      | some state ↦ Assoc.put ℕ_discrete addr (penalized state now) kept
    ]

-- The second half of RecordFailure.
unfoldable pub charge_client : Throttle → Client → ℕ → Throttle
unfolding charge_addr
charge_client t c now = elim (key c) [
  | none ↦ t
  | some addr ↦ record t { clients = charge_addr t.clients addr now }
]

unfoldable pub record_failure : Throttle → Client → ℕ → Throttle
unfolding charge_gate charge_client
record_failure t c now = charge_client (charge_gate t c now) c now

unfoldable pub tracked_clients : Throttle → ℕ
tracked_clients t = length t.clients
