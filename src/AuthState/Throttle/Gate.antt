-- ===== src/AuthState/Throttle/Gate.antt =====
-- When a gate closes, and for how long.
use wildtoken.Prelude.{
  ℕ, ◌+◌, ◌<◌, ◌≡◌, refl, sym, ap, ◌∙◌, true, false, not, List, [], ◌∷◌, arith, Bool-cases,
  Option-cases, inl, inr, length, subst,
}
use wildtoken.AuthState.Throttle.{
  Client, ClientKind, GlobalState, Throttle, client_loopback, client_remote, client_unknown, key,
  set_gate, gate_for, admit_gate, admit_client, admit, charge_gate, charge_client, charged,
  record_failure, holds_until, global_window, global_threshold, global_cooldown, unknown_client,
}
use wildtoken.AuthState.Throttle.Fairness.{is_loopback}

-- The failures of some callers, one after the other.
unfoldable pub flood : Throttle → List (ℕ × Client) → Throttle
flood t [] = t
flood t ((now, c) ∷ es) = flood (record_failure t c now) es

-- Failures from outside the machine, within the window that began at a start.
abbrev pub AllWithin : ℕ → List (ℕ × Client) → Type 0
AllWithin start [] = Unit {0}
AllWithin start ((now, c) ∷ es) =
    (is_loopback c.kind ≡ false) × (now < start + global_window) × AllWithin start es

remote-charge_client :
    (t : Throttle) (c : Client) (now : ℕ) → (charge_client t c now).remote ≡ t.remote
unfolding charge_client
remote-charge_client t c now = elim (Option-cases (key c)) [
  | inl e ↦ rw (e, charge_client) refl
  | inr (addr, e) ↦ rw (e, charge_client) refl
]

remote-set_gate :
    (t : Throttle) (k : ClientKind) (now : ℕ)
    → is_loopback k ≡ false
    → (set_gate t k (charged (gate_for t k) now)).remote ≡ charged t.remote now
remote-set_gate t client_loopback now h = absurd (cc)
remote-set_gate t client_remote now h = refl
remote-set_gate t client_unknown now h = refl

remote-failure :
    (t : Throttle) (c : Client) (now : ℕ)
    → is_loopback c.kind ≡ false
    → (record_failure t c now).remote ≡ charged t.remote now
unfolding record_failure charge_gate
remote-failure t c now h =
    remote-charge_client (charge_gate t c now) c now ∙ remote-set_gate t c.kind now h

charged-counts :
    (g : GlobalState) (now : ℕ)
    → now < g.window_start + global_window
    → g.failures + 1 < global_threshold
    → charged g now ≡ record g { failures = g.failures + 1 }
unfolding charged
charged-counts g now h f = ground arith

charged-closes :
    (g : GlobalState) (now : ℕ)
    → now < g.window_start + global_window
    → g.failures + 1 ≡ global_threshold
    → (charged g now).cooldown_until ≡ now + global_cooldown
unfolding charged
charged-closes g now h f = ground arith

flood-counts :
    (t : Throttle) (es : List (ℕ × Client))
    → AllWithin t.remote.window_start es
    → t.remote.failures + length es < global_threshold
    → (flood t es).remote ≡ record (t.remote) { failures = t.remote.failures + length es }
unfolding flood
flood-counts t [] a f = ground arith
flood-counts t ((now, c) ∷ es) a f =
    let next = remote-failure t c now a.0 ∙ charged-counts t.remote now a.1 (omega arith) in
    let start : AllWithin (record_failure t c now).remote.window_start es =
      subst (λ s. AllWithin s es) (sym (ap (λ (g : GlobalState). g.window_start) next)) a.2 in
    let count = ap (λ (g : GlobalState). g.failures) next in
    flood-counts (record_failure t c now) es start (omega (arith, count))
    ∙ ap (λ (g : GlobalState). record g { failures = g.failures + length es }) next
    ∙ ground arith

-- Whether a caller whose address is not known is admitted.
admit-unknown :
    (t : Throttle) (now : ℕ)
    → (admit t unknown_client now).1 ≡ not (holds_until t.remote.cooldown_until now)
unfolding admit admit_gate admit_client
admit-unknown t now = elim (Bool-cases (holds_until t.remote.cooldown_until now)) [
  | inl cooling ↦ rw (cooling, admit, admit_gate) refl
  | inr passes ↦ rw (passes, admit, admit_gate) refl
]

remote-gate : (t : Throttle) (k : ClientKind) → is_loopback k ≡ false → gate_for t k ≡ t.remote
remote-gate t client_loopback h = absurd (cc)
remote-gate t client_remote h = refl
remote-gate t client_unknown h = refl

refused_by :
    (t : Throttle) (c : Client) (now : ℕ)
    → is_loopback c.kind ≡ false
    → holds_until t.remote.cooldown_until now ≡ true
    → (admit t c now).1 ≡ false
unfolding admit admit_gate
refused_by t c now r h =
    let same : gate_for t c.kind ≡ t.remote = remote-gate t c.kind r in
    rw (same, h, admit, admit_gate) refl

-- Failures from outside within one window leave the gate as it was while they are fewer than 100,
-- together with those already counted; the hundredth closes it to every caller from outside for the
-- next 30 seconds.
pub flood-closes :
    (t : Throttle) (es : List (ℕ × Client)) (c d : Client) (now later : ℕ)
    → AllWithin t.remote.window_start ((now, c) ∷ es)
    → t.remote.failures + length es + 1 ≡ global_threshold
    → is_loopback d.kind ≡ false
    → later < now + global_cooldown
    → ((admit (flood t es) unknown_client later).1 ≡ (admit t unknown_client later).1)
      × ((admit (record_failure (flood t es) c now) d later).1 ≡ false)
flood-closes t es c d now later a f r h =
    let counted = flood-counts t es a.2 (omega arith) in
    let start = ap (λ (g : GlobalState). g.window_start) counted in
    let count = ap (λ (g : GlobalState). g.failures) counted in
    let cooling = ap (λ (g : GlobalState). g.cooldown_until) counted in
    let closed : (record_failure (flood t es) c now).remote.cooldown_until ≡ now + global_cooldown =
      ap (λ (g : GlobalState). g.cooldown_until) (remote-failure (flood t es) c now a.0)
      ∙ charged-closes (flood t es).remote now (omega (arith, start, a.1)) (omega (arith, count)) in
    (
      admit-unknown (flood t es) later
          ∙ ap (λ n. not (holds_until n later)) cooling
          ∙ sym (admit-unknown t later),
      refused_by (record_failure (flood t es) c now) d later r
          (ap (λ n. holds_until n later) closed ∙ ground arith),
    )
