-- ===== src/AuthState/Throttle/Bound.antt =====
-- How many clients are tracked, whatever calls are made.
use wildtoken.Prelude.{
  ℕ, ◌≤◌, ◌≡◌, refl, sym, ap, ◌∙◌, not, arith, ltb, Bool-cases, Option-cases, inl, inr, ℕ_discrete,
  length, ltb→lt, length-keep-le,
}
use wildtoken.Prelude.Assoc
use wildtoken.Prelude.Assoc.{Assoc}
use wildtoken.AuthState.Throttle.{
  Client, ClientKind, ClientState, GlobalState, Throttle, client_loopback, client_remote,
  client_unknown, key, set_gate, new_throttle, admit_gate, record_success, charge_gate, charge_addr,
  charge_client, penalized, prune, tracked_clients, max_tracked_clients, charged, gate_for, stale,
  holds_until,
}

-- A call of the throttle, or one of the two halves of a call: between them other calls may run.
pub data Step (now : ℕ) (t : Throttle) : Throttle → Type 0 where
  admits : (c : Client) → Step now t (admit_gate t c now).0
  succeeds : (c : Client) → Step now t (record_success t c)
  charges_gate : (c : Client) → Step now t (charge_gate t c now)
  charges_client : (c : Client) → Step now t (charge_client t c now)

-- The throttles that calls, at any instants, lead to.
pub data Reachable (start : ℕ) : Throttle → Type 0 where
  begins : Reachable start (new_throttle start)
  goes_on : {t u : Throttle} (now : ℕ) → Reachable start t → Step now t u → Reachable start u

prune-length :
    (clients : Assoc ℕ ClientState) (now : ℕ)
    → length clients ≤ max_tracked_clients
    → (length (prune clients now).0 ≤ max_tracked_clients)
      × ((prune clients now).1 ≡ ltb (length (prune clients now).0) max_tracked_clients)
unfolding prune
prune-length clients now h =
    let fewer = length-keep-le (λ (entry : ℕ × ClientState). not (stale entry.1 now)) clients in
    elim (Bool-cases (ltb (length clients) max_tracked_clients)) [
      | inl space ↦ rw space (h, sym space)
      | inr full ↦ rw full (omega (arith, fewer), refl)
    ]

charge_addr-length :
    (clients : Assoc ℕ ClientState) (addr now : ℕ)
    → length clients ≤ max_tracked_clients
    → length (charge_addr clients addr now) ≤ max_tracked_clients
unfolding charge_addr
charge_addr-length clients addr now h =
    let (kept_low, room) = prune-length clients now h in
    elim (Option-cases (Assoc.get ℕ_discrete addr (prune clients now).0)) [
      | inl e ↦ elim (Bool-cases (prune clients now).1) [
        | inl free ↦
            rw (e, charge_addr, free)
              (let more =
                  Assoc.length-put_le ℕ_discrete addr
                    (penalized (record { failures = 0; blocked_until = 0; last_failure = now }) now)
                    (prune clients now).0 in
                omega (arith, more, ltb→lt _ _ (sym room ∙ free)))
        | inr full ↦ rw (e, charge_addr, full) kept_low
      ]
      | inr (state, e) ↦
          rw (e, charge_addr)
            (omega (
              arith,
              kept_low,
              Assoc.length-put_present ℕ_discrete addr (penalized state now) state
                  (prune clients now).0 e,
            ))
    ]

pub set_gate-clients :
    (t : Throttle) (k : ClientKind) (g : GlobalState) → (set_gate t k g).clients ≡ t.clients
set_gate-clients t client_loopback g = refl
set_gate-clients t client_remote g = refl
set_gate-clients t client_unknown g = refl

Step-bound :
    {now : ℕ} {t u : Throttle}
    → Step now t u
    → tracked_clients t ≤ max_tracked_clients
    → tracked_clients u ≤ max_tracked_clients
unfolding tracked_clients admit_gate record_success charge_gate charge_client
Step-bound {now} {t} (admits c) h =
    elim (Bool-cases (holds_until (gate_for t c.kind).cooldown_until now)) [
      | inl cooling ↦ rw (cooling, admit_gate, tracked_clients) h
      | inr passes ↦
          rw (passes, admit_gate, tracked_clients)
            (omega (
              arith,
              h,
              ap length
                  (set_gate-clients t c.kind (record (gate_for t c.kind) { cooldown_until = 0 })),
            ))
    ]
Step-bound {now} {t} (succeeds c) h = elim (Option-cases (key c)) [
  | inl e ↦ rw (e, record_success) h
  | inr (addr, e) ↦
      rw (e, record_success) (omega (arith, h, Assoc.length-delete_le ℕ_discrete addr t.clients))
]
Step-bound {now} {t} (charges_gate c) h =
    omega (arith, h, ap length (set_gate-clients t c.kind (charged (gate_for t c.kind) now)))
Step-bound {now} {t} (charges_client c) h = elim (Option-cases (key c)) [
  | inl e ↦ rw (e, charge_client) h
  | inr (addr, e) ↦ rw (e, charge_client) (charge_addr-length t.clients addr now h)
]

-- However calls interleave, and at whatever instants, no more than 4096 clients are tracked.
pub tracked-bound :
    {start : ℕ} {t : Throttle} → Reachable start t → tracked_clients t ≤ max_tracked_clients
unfolding tracked_clients
tracked-bound begins = omega arith
tracked-bound (goes_on now r s) = Step-bound s (tracked-bound r)
