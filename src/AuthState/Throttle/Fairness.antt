-- ===== src/AuthState/Throttle/Fairness.antt =====
-- Whom a failure, a success or a flood of them touches.
use wildtoken.Prelude.{
  ℕ, ◌≡◌, refl, sym, ap, ◌∙◌, Bool, true, false, not, List, [], ◌∷◌, Bool-cases, Option-cases, inl,
  inr, ℕ_discrete,
}
use wildtoken.Prelude.Assoc
use wildtoken.Prelude.Assoc.{Assoc}
use wildtoken.AuthState.Throttle.{
  Client, ClientKind, GlobalState, Throttle, client_loopback, client_remote, client_unknown, key,
  set_gate, gate_for, admit_gate, admit_client, admit, slot_admits, record_success, charge_gate,
  charge_client, charged, record_failure, holds_until,
}

-- A call by a client at an instant: an admission, a failure or a success.
pub data Call : Type 0 where
  asks fails succeeds : ℕ → Client → Call

unfoldable pub call : Throttle → Call → Throttle
call t (asks now c) = (admit t c now).0
call t (fails now c) = record_failure t c now
call t (succeeds now c) = record_success t c

unfoldable pub calls : Throttle → List Call → Throttle
calls t [] = t
calls t (e ∷ es) = calls (call t e) es

abbrev pub caller : Call → Client
caller (asks now c) = c
caller (fails now c) = c
caller (succeeds now c) = c

abbrev pub is_loopback : ClientKind → Bool
is_loopback client_loopback = true
is_loopback client_remote = false
is_loopback client_unknown = false

-- None of the calls comes from the machine itself.
abbrev pub AllRemote : List Call → Type 0
AllRemote [] = Unit {0}
AllRemote (e ∷ es) = (is_loopback (caller e).kind ≡ false) × AllRemote es

set_gate-loopback :
    (t : Throttle) (k : ClientKind) (g : GlobalState)
    → is_loopback k ≡ false
    → (set_gate t k g).loopback ≡ t.loopback
set_gate-loopback t client_loopback g h = absurd (cc)
set_gate-loopback t client_remote g h = refl
set_gate-loopback t client_unknown g h = refl

loopback-admit :
    (t : Throttle) (now : ℕ) (c : Client)
    → is_loopback c.kind ≡ false
    → (admit t c now).0.loopback ≡ t.loopback
unfolding admit admit_gate
loopback-admit t now c h = elim (Bool-cases (holds_until (gate_for t c.kind).cooldown_until now)) [
  | inl cooling ↦ rw (cooling, admit, admit_gate) refl
  | inr passes ↦
      rw (passes, admit, admit_gate)
        (set_gate-loopback t c.kind (record (gate_for t c.kind) { cooldown_until = 0 }) h)
]

loopback-charge_client :
    (t : Throttle) (c : Client) (now : ℕ) → (charge_client t c now).loopback ≡ t.loopback
unfolding charge_client
loopback-charge_client t c now = elim (Option-cases (key c)) [
  | inl e ↦ rw (e, charge_client) refl
  | inr (addr, e) ↦ rw (e, charge_client) refl
]

loopback-success : (t : Throttle) (c : Client) → (record_success t c).loopback ≡ t.loopback
unfolding record_success
loopback-success t c = elim (Option-cases (key c)) [
  | inl e ↦ rw (e, record_success) refl
  | inr (addr, e) ↦ rw (e, record_success) refl
]

loopback-call :
    (t : Throttle) (e : Call)
    → is_loopback (caller e).kind ≡ false
    → (call t e).loopback ≡ t.loopback
unfolding call record_failure charge_gate
loopback-call t (asks now c) h = loopback-admit t now c h
loopback-call t (fails now c) h =
    loopback-charge_client (charge_gate t c now) c now
    ∙ set_gate-loopback t c.kind (charged (gate_for t c.kind) now) h
loopback-call t (succeeds now c) h = loopback-success t c

loopback-calls : (t : Throttle) (es : List Call) → AllRemote es → (calls t es).loopback ≡ t.loopback
unfolding calls
loopback-calls t [] a = refl
loopback-calls t (e ∷ es) a = loopback-calls (call t e) es a.1 ∙ loopback-call t e a.0

-- Whether a caller on the machine is admitted.
admit-loopback :
    (t : Throttle) (addr now : ℕ)
    → (admit t (record { kind = client_loopback; addr = addr }) now).1
      ≡ not (holds_until t.loopback.cooldown_until now)
unfolding admit admit_gate admit_client
admit-loopback t addr now = elim (Bool-cases (holds_until t.loopback.cooldown_until now)) [
  | inl cooling ↦ rw (cooling, admit, admit_gate) refl
  | inr passes ↦ rw (passes, admit, admit_gate) refl
]

-- Nothing that callers from outside do, in any order and number, changes whether a caller on the
-- machine itself is admitted.
pub admit-calls :
    (t : Throttle) (es : List Call) (addr now : ℕ)
    → AllRemote es
    → (admit (calls t es) (record { kind = client_loopback; addr = addr }) now).1
      ≡ (admit t (record { kind = client_loopback; addr = addr }) now).1
admit-calls t es addr now a =
    admit-loopback (calls t es) addr now
    ∙ ap (λ (g : GlobalState). not (holds_until g.cooldown_until now)) (loopback-calls t es a)
    ∙ sym (admit-loopback t addr now)

success_of :
    (t : Throttle) (k : ClientKind) (addr now : ℕ)
    → (let c : Client = record { kind = k; addr = addr } in (admit (record_success t c) c now).1)
      ≡ not (holds_until (gate_for t k).cooldown_until now)
unfolding admit admit_gate admit_client record_success
success_of t client_loopback addr now = admit-loopback t addr now
success_of t client_unknown addr now = elim (Bool-cases (holds_until t.remote.cooldown_until now)) [
  | inl cooling ↦ rw (cooling, admit, admit_gate) refl
  | inr passes ↦ rw (passes, admit, admit_gate) refl
]
success_of t client_remote addr now = elim (Bool-cases (holds_until t.remote.cooldown_until now)) [
  | inl cooling ↦ rw (cooling, admit, admit_gate) refl
  | inr passes ↦
      rw (passes, admit, admit_gate)
        (ap (λ o. slot_admits o now) (Assoc.get-delete_self ℕ_discrete addr t.clients))
]

-- After a success a client's own backoff is gone: only its gate can refuse it.
pub admit-record_success :
    (t : Throttle) (c : Client) (now : ℕ)
    → (admit (record_success t c) c now).1
      ≡ not (holds_until (gate_for t c.kind).cooldown_until now)
admit-record_success t c now = success_of t c.kind c.addr now
