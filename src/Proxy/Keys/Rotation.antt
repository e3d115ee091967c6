-- ===== src/Proxy/Keys/Rotation.antt =====
-- Picks in a row start on different keys.
use native.Mathlib.Nat.{mod-lt}
use wildtoken.Prelude.{
  ℕ, zero, suc, ◌+◌, ◌%◌, ◌^◌, ◌<◌, ◌≡◌, refl, sym, ap, ap₂, ◌∙◌, Bool, false, Option, none, some,
  List, [], ◌∷◌, arith, ℕ_discrete, length, get_elem?, Occurs, Occurs-at, get_elem?-some,
}
use wildtoken.Prelude.Assoc
use wildtoken.Clock.{before}
use wildtoken.Proxy.Keys.{
  UpstreamKey, KeyPicker, Choice, candidate_index, pick_loop, pick, sitting_out, bench_or_zero,
  next_or_zero,
}

-- The choices of `m` picks in a row.
pub pick_run : ℕ → Option KeyPicker → ℕ → List UpstreamKey → (ℕ → Bool) → ℕ → List Choice
pick_run zero p upstream_id keys refused now = []
pick_run (suc m) p upstream_id keys refused now =
    let (p', choice) = pick p upstream_id keys refused now in
    choice ∷ pick_run m p' upstream_id keys refused now

-- A key that may serve at once.
abbrev pub usable : Option UpstreamKey → Choice
usable none = none
usable (some k) = some (k, false)

-- The keys from a position on, in order and round again; the position is a uint64.
pub round_robin : List UpstreamKey → ℕ → ℕ → List Choice
round_robin keys zero position = []
round_robin keys (suc m) position =
    usable (get_elem? keys (position % length keys)) ∷ round_robin keys m ((position + 1) % 2 ^ 64)

-- No key of the channel is refused or benched.
pub record AllUsable (p : KeyPicker) (keys : List UpstreamKey) (refused : ℕ → Bool) (now : ℕ)
    : Type 0 where
  pub accepted : (k : UpstreamKey) → Occurs k keys → refused k.id ≡ false
  pub rested : (k : UpstreamKey) → Occurs k keys → sitting_out p k.id now ≡ false

position : KeyPicker → ℕ → ℕ
position p upstream_id = next_or_zero (Assoc.get ℕ_discrete upstream_id p.next)

first_round :
    (k : UpstreamKey) (ks : List UpstreamKey) (p : KeyPicker) (upstream_id : ℕ) (refused : ℕ → Bool)
    (now : ℕ)
    → AllUsable p (k ∷ ks) refused now
    → position p upstream_id < 2 ^ 64
    → (pick (some p) upstream_id (k ∷ ks) refused now).1
      ≡ usable (get_elem? (k ∷ ks) (position p upstream_id % length (k ∷ ks)))
unfolding pick position pick_loop
first_round k ks p upstream_id refused now u h =
    let start = position p upstream_id in
    let keys = k ∷ ks in
    let low : start % length keys < length keys = mod-lt start (omega arith) in
    let index : candidate_index start 0 (length keys) ≡ start % length keys =
      ap (λ i. i % length keys) {y = start} (omega arith) in
    let (c, at) = get_elem?-some keys (start % length keys) low in
    let here = ap (get_elem? keys) index ∙ at in
    let o = Occurs-at keys _ c at in
    rw (here, pick_loop, u.accepted c o, u.rested c o) (sym (ap usable at))

-- Whether a key sits out depends on the benches alone.
rests_by :
    (p q : KeyPicker) (id now : ℕ)
    → p.benched ≡ q.benched
    → sitting_out p id now ≡ sitting_out q id now
unfolding sitting_out
rests_by p q id now e = ap (λ b. before now (bench_or_zero (Assoc.get ℕ_discrete id b)).until) e

step_position :
    (k : UpstreamKey) (ks : List UpstreamKey) (p : KeyPicker) (upstream_id : ℕ) (refused : ℕ → Bool)
    (now : ℕ)
    → (p' : KeyPicker) × ((pick (some p) upstream_id (k ∷ ks) refused now).0 ≡ some p')
      × (position p' upstream_id ≡ (position p upstream_id + 1) % 2 ^ 64)
      × (p'.benched ≡ p.benched)
unfolding pick position
step_position k ks p upstream_id refused now =
    (_, refl, ap next_or_zero (Assoc.get-put_self ℕ_discrete upstream_id _ p.next), refl)

run-round_robin :
    (k : UpstreamKey) (ks : List UpstreamKey) (upstream_id : ℕ) (refused : ℕ → Bool) (now m : ℕ)
    (p : KeyPicker)
    → AllUsable p (k ∷ ks) refused now
    → position p upstream_id < 2 ^ 64
    → pick_run m (some p) upstream_id (k ∷ ks) refused now
      ≡ round_robin (k ∷ ks) m (position p upstream_id)
unfolding pick_run round_robin
run-round_robin k ks upstream_id refused now zero p u h = refl
run-round_robin k ks upstream_id refused now (suc m) p u h =
    let (p', state, moved, kept) = step_position k ks p upstream_id refused now in
    let u' : AllUsable p' (k ∷ ks) refused now = record {
      accepted = u.accepted;
      rested = λ c o. rests_by p' p c.id now kept ∙ u.rested c o;
    } in
    let rest = run-round_robin k ks upstream_id refused now m p' u' (omega (arith, moved)) in
    ap₂ ◌∷◌ (first_round k ks p upstream_id refused now u h) (
      ap (λ s. pick_run m s upstream_id (k ∷ ks) refused now) state
      ∙ rest
      ∙ ap (round_robin (k ∷ ks) m) moved)

-- While no key of a channel is refused or sits out, picks in a row go through its keys in order and
-- round again, from the channel's position on.
pub pick_run-round_robin :
    (keys : List UpstreamKey) (upstream_id : ℕ) (refused : ℕ → Bool) (now m : ℕ) (p : KeyPicker)
    → 0 < length keys
    → AllUsable p keys refused now
    → next_or_zero (Assoc.get ℕ_discrete upstream_id p.next) < 2 ^ 64
    → pick_run m (some p) upstream_id keys refused now
      ≡ round_robin keys m (next_or_zero (Assoc.get ℕ_discrete upstream_id p.next))
unfolding position
pick_run-round_robin [] upstream_id refused now m p h u f = absurd (omega arith)
pick_run-round_robin (k ∷ ks) upstream_id refused now m p h u f =
    run-round_robin k ks upstream_id refused now m p u f
