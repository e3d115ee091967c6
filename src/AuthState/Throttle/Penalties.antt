-- ===== src/AuthState/Throttle/Penalties.antt =====
-- A client that is penalized stays so, whatever the others do.
use wildtoken.Prelude.{
  ℕ, ◌<◌, ◌≡◌, ◌≢◌, refl, ap, ◌∙◌, true, false, not, some, List, [], ◌∷◌, arith, ltb, Bool-cases,
  Option-cases, inl, inr, ℕ_discrete, length,
}
use wildtoken.Prelude.Assoc
use wildtoken.Prelude.Assoc.{Assoc}
use wildtoken.AuthState.Throttle.{
  Client, ClientState, Throttle, client_remote, key, set_gate, gate_for, admit_gate, admit_client,
  admit, slot_admits, record_success, charge_gate, charge_addr, charge_client, prune, charged,
  record_failure, stale, holds_until, max_tracked_clients,
}
use wildtoken.AuthState.Throttle.Bound.{set_gate-clients}
use wildtoken.AuthState.Throttle.Fairness.{Call, asks, fails, succeeds, call, calls}

module _ (other : ℕ) (state : ClientState) where
  -- The other client's entry is as it was.
  abbrev Keeps : Assoc ℕ ClientState → Type 0
  Keeps clients = Assoc.get ℕ_discrete other clients ≡ some state

  prune-Keeps :
      (clients : Assoc ℕ ClientState) (now : ℕ)
      → now < state.blocked_until
      → Keeps clients
      → Keeps (prune clients now).0
  unfolding prune
  prune-Keeps clients now h k =
      let stays : not (stale state now) ≡ true = ground arith in
      let kept =
        Assoc.get-keep_pass ℕ_discrete (λ (entry : ℕ × ClientState). not (stale entry.1 now)) other
          state clients k stays in
      elim (Bool-cases (ltb (length clients) max_tracked_clients)) [
        | inl space ↦ rw space k
        | inr full ↦ rw full kept
      ]

  charge_addr-Keeps :
      (clients : Assoc ℕ ClientState) (addr now : ℕ)
      → addr ≢ other
      → now < state.blocked_until
      → Keeps clients
      → Keeps (charge_addr clients addr now)
  unfolding charge_addr
  charge_addr-Keeps clients addr now n h k =
      let kept = prune-Keeps clients now h k in
      elim (Option-cases (Assoc.get ℕ_discrete addr (prune clients now).0)) [
        | inl e ↦ elim (Bool-cases (prune clients now).1) [
          | inl space ↦
              rw (e, charge_addr, space)
                (Assoc.get-put_ne ℕ_discrete addr other _ (prune clients now).0 n ∙ kept)
          | inr full ↦ rw (e, charge_addr, full) kept
        ]
        | inr (old, e) ↦
            rw (e, charge_addr)
              (Assoc.get-put_ne ℕ_discrete addr other _ (prune clients now).0 n ∙ kept)
      ]

  -- A call by someone else; a failure comes while the penalty lasts.
  abbrev pub IsForeign : Call → Type 0
  IsForeign (asks now c) = key c ≢ some other
  IsForeign (fails now c) = (key c ≢ some other) × (now < state.blocked_until)
  IsForeign (succeeds now c) = key c ≢ some other

  abbrev pub AllForeign : List Call → Type 0
  AllForeign [] = Unit {0}
  AllForeign (e ∷ es) = IsForeign e × AllForeign es

  admit-Keeps :
      (t : Throttle) (now : ℕ) (c : Client) → Keeps t.clients → Keeps (admit t c now).0.clients
  unfolding admit admit_gate
  admit-Keeps t now c k = elim (Bool-cases (holds_until (gate_for t c.kind).cooldown_until now)) [
    | inl cooling ↦ rw (cooling, admit, admit_gate) k
    | inr passes ↦
        rw (passes, admit, admit_gate)
          (ap (Assoc.get ℕ_discrete other)
              (set_gate-clients t c.kind (record (gate_for t c.kind) { cooldown_until = 0 }))
            ∙ k)
  ]

  call-Keeps : (t : Throttle) (e : Call) → IsForeign e → Keeps t.clients → Keeps (call t e).clients
  unfolding call record_failure charge_gate charge_client record_success
  call-Keeps t (asks now c) f k = admit-Keeps t now c k
  call-Keeps t (fails now c) f k =
      let t' = set_gate t c.kind (charged (gate_for t c.kind) now) in
      let k' : Keeps t'.clients =
        ap (Assoc.get ℕ_discrete other)
          (set_gate-clients t c.kind (charged (gate_for t c.kind) now))
        ∙ k in
      elim (Option-cases (key c)) [
        | inl e ↦ rw (e, charge_client) k'
        | inr (addr, e) ↦
            rw (e, charge_client)
              (charge_addr-Keeps t'.clients addr now (λ same. f.0 (e ∙ ap some same)) f.1 k')
      ]
  call-Keeps t (succeeds now c) f k = elim (Option-cases (key c)) [
    | inl e ↦ rw (e, record_success) k
    | inr (addr, e) ↦
        rw (e, record_success)
          (Assoc.get-delete_ne ℕ_discrete addr other t.clients (λ same. f (e ∙ ap some same)) ∙ k)
  ]

  calls-Keeps :
      (t : Throttle) (es : List Call) → AllForeign es → Keeps t.clients → Keeps (calls t es).clients
  unfolding calls
  calls-Keeps t [] f k = k
  calls-Keeps t (e ∷ es) f k = calls-Keeps (call t e) es f.1 (call-Keeps t e f.0 k)

refused :
    (t : Throttle) (addr now : ℕ) (state : ClientState)
    → Assoc.get ℕ_discrete addr t.clients ≡ some state
    → now < state.blocked_until
    → (admit t (record { kind = client_remote; addr = addr }) now).1 ≡ false
unfolding admit admit_gate admit_client
refused t addr now state e h = elim (Bool-cases (holds_until t.remote.cooldown_until now)) [
  | inl cooling ↦ rw (cooling, admit, admit_gate) refl
  | inr passes ↦ rw (passes, admit, admit_gate) (ap (λ o. slot_admits o now) e ∙ ground arith)
]

-- A client that sits out a penalty is refused until it ends, whatever calls others make before
-- then, and however many of them there are.
pub admit-penalized :
    (t : Throttle) (es : List Call) (addr now : ℕ) (state : ClientState)
    → Assoc.get ℕ_discrete addr t.clients ≡ some state
    → AllForeign addr state es
    → now < state.blocked_until
    → (admit (calls t es) (record { kind = client_remote; addr = addr }) now).1 ≡ false
admit-penalized t es addr now state e f h =
    refused (calls t es) addr now state (calls-Keeps addr state t es f e) h
