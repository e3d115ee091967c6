-- ===== src/Proxy/Keys/Choice.antt =====
-- Which key `pick` may return, and when it returns none.
use native.Mathlib.Nat.{mod-lt, mod-eq_of_lt, add-mod-mod, div-add-mod, mul-add-mod_self_left}
use wildtoken.Prelude.{
  ℕ, zero, suc, ◌+◌, ◌-◌, ◌*◌, ◌%◌, ◌/◌, ◌^◌, ◌≤◌, ◌<◌, ◌≡◌, ◌⊎◌, refl, sym, ap, ◌∙◌, Bool, true,
  false, ◌||◌, Option, none, some, List, [], ◌∷◌, arith, Bool-cases, Option-cases, inl, inr, subst,
  index_of_Occurs, Occurs-at, length, get_elem?, ℕ_discrete, some_eq, Occurs,
}
use wildtoken.Prelude.Assoc
use wildtoken.Proxy.Keys.{
  UpstreamKey, KeyPicker, Choice, or_kept, candidate_index, pick_loop, pick, sitting_out,
  next_or_zero,
}

module _ (keys : List UpstreamKey) (refused sitting : ℕ → Bool) (start : ℕ) where
  abbrev candidate : ℕ → Option UpstreamKey
  candidate i = get_elem? keys (candidate_index start i (length keys))

  -- What a choice says of the candidates of the rounds from `i` on, given the key kept before.
  abbrev Explains : Option UpstreamKey → ℕ → ℕ → Choice → Type 0
  Explains kept i rounds none =
      (kept ≡ none)
      × ((j : ℕ) (k : UpstreamKey)
          → i ≤ j
          → j < i + rounds
          → candidate j ≡ some k
          → refused k.id ≡ true)
  Explains kept i rounds (some (k, true)) =
      ((kept ≡ some k) ⊎ ((j : ℕ) × (candidate j ≡ some k) × (refused k.id ≡ false)))
      × ((j : ℕ) (c : UpstreamKey)
          → i ≤ j
          → j < i + rounds
          → candidate j ≡ some c
          → (refused c.id || sitting c.id) ≡ true)
  Explains kept i rounds (some (k, false)) =
      (j : ℕ) × (candidate j ≡ some k) × (refused k.id ≡ false) × (sitting k.id ≡ false)

  -- From the rounds after `i` to those from `i` on, given what holds of the candidate at `i`.
  extend :
      (P : UpstreamKey → Type 0) (i rounds : ℕ)
      → ((c : UpstreamKey) → candidate i ≡ some c → P c)
      → ((j : ℕ) (c : UpstreamKey) → i + 1 ≤ j → j < i + 1 + rounds → candidate j ≡ some c → P c)
      → (j : ℕ) (c : UpstreamKey) → i ≤ j
      → j < i + suc rounds
      → candidate j ≡ some c
      → P c
  extend P i rounds here rest j c low high e = elim (ℕ_discrete i j) [
    | yes same ↦ here c (ap candidate same ∙ e)
    | no other ↦ rest j c (omega arith) (omega arith) e
  ]

  skip-Explains :
      (i rounds : ℕ) (kept : Option UpstreamKey) (r : Choice)
      → ((c : UpstreamKey) → candidate i ≡ some c → refused c.id ≡ true)
      → Explains kept (i + 1) rounds r
      → Explains kept i (suc rounds) r
  skip-Explains i rounds kept none here h =
      (h.0, extend (λ c. refused c.id ≡ true) i rounds here h.1)
  skip-Explains i rounds kept (some (k, true)) here h = (
    h.0,
    extend (λ c. (refused c.id || sitting c.id) ≡ true) i rounds (λ c e. rw (here c e) refl) h.1,
  )
  skip-Explains i rounds kept (some (k, false)) here h = h

  sits_here :
      (i : ℕ) (k : UpstreamKey)
      → candidate i ≡ some k
      → refused k.id ≡ false
      → sitting k.id ≡ true
      → (c : UpstreamKey) → candidate i ≡ some c
      → (refused c.id || sitting c.id) ≡ true
  sits_here i k e f s c e' =
      subst (λ (x : UpstreamKey). (refused x.id || sitting x.id) ≡ true) (some_eq (sym e ∙ e'))
        (ground (arith, f, s))

  keep-Explains :
      (i rounds : ℕ) (kept : Option UpstreamKey) (k : UpstreamKey) (r : Choice)
      → candidate i ≡ some k
      → refused k.id ≡ false
      → sitting k.id ≡ true
      → Explains (or_kept kept k) (i + 1) rounds r
      → Explains kept i (suc rounds) r
  keep-Explains i rounds none k none e f s h = absurd (cc h.0)
  keep-Explains i rounds (some x) k none e f s h = absurd (cc h.0)
  keep-Explains i rounds none k (some (c, true)) e f s (inl same, rest) =
      let c_is = some_eq same in
      (
        inr (i, e ∙ same, ap (λ (x : UpstreamKey). refused x.id) (sym c_is) ∙ f),
        extend (λ x. (refused x.id || sitting x.id) ≡ true) i rounds (sits_here i k e f s) rest,
      )
  keep-Explains i rounds none k (some (c, true)) e f s (inr found, rest) = (
    inr found,
    extend (λ x. (refused x.id || sitting x.id) ≡ true) i rounds (sits_here i k e f s) rest,
  )
  keep-Explains i rounds (some x) k (some (c, true)) e f s h =
      (h.0, extend (λ x. (refused x.id || sitting x.id) ≡ true) i rounds (sits_here i k e f s) h.1)
  keep-Explains i rounds kept k (some (c, false)) e f s h = h

  loop-Explains :
      (rounds i : ℕ) (kept : Option UpstreamKey)
      → Explains kept i rounds (pick_loop keys refused sitting start rounds i kept)
  unfolding pick_loop
  loop-Explains zero i none = (refl, λ j k h l e. absurd (omega arith))
  loop-Explains zero i (some k) = (inl refl, λ j c h l e. absurd (omega arith))
  loop-Explains (suc rounds) i kept = elim (Option-cases (candidate i)) [
    | inl e ↦
        rw (e, pick_loop)
          (skip-Explains i rounds kept _ (λ c e'. absurd (cc (e, e')))
            (loop-Explains rounds (i + 1) kept))
    | inr (k, e) ↦ elim (Bool-cases (refused k.id)) [
      | inl out ↦
          rw (e, pick_loop, out)
            (skip-Explains i rounds kept _
              (λ c e'. ap (λ (x : UpstreamKey). refused x.id) (some_eq (sym e' ∙ e)) ∙ out)
              (loop-Explains rounds (i + 1) kept))
      | inr fine ↦ elim (Bool-cases (sitting k.id)) [
        | inl sits ↦
            rw (e, pick_loop, fine, sits)
              (keep-Explains i rounds kept k _ e fine sits
                (loop-Explains rounds (i + 1) (or_kept kept k)))
        | inr fresh ↦ rw (e, pick_loop, fine, fresh) (i, e, fine, fresh)
      ]
    ]
  ]

-- From any start, as many rounds as there are keys reach every key.
rounds_cover :
    (start j n : ℕ)
    → j < n
    → start + n ≤ 2 ^ 64
    → (i : ℕ) × (i < n) × (candidate_index start i n ≡ j)
rounds_cover start j n h fits =
    let r = start % n in
    let x = j + n - r in
    let pos : 0 < n = omega arith in
    let r_lt = mod-lt start pos in
    let i_lt = mod-lt x pos in
    let whole = div-add-mod start n in
    let sum : start + x ≡ n * (start / n + 1) + j = omega (arith, whole, r_lt) in
    let no_wrap : (start + x % n) % 2 ^ 64 ≡ start + x % n = mod-eq_of_lt (omega (arith, i_lt)) in
    (
      x % n,
      i_lt,
      ap (λ t. t % n) no_wrap
          ∙ add-mod-mod start x n
          ∙ ap (λ t. t % n) sum
          ∙ mul-add-mod_self_left n (start / n + 1) j
          ∙ mod-eq_of_lt h,
    )

-- What a choice promises: no key at all only where every key is refused; a key that is not refused
-- and not benched; or one that sits out, where every key is refused or sits out.
abbrev pub Promises : List UpstreamKey → (ℕ → Bool) → (ℕ → Bool) → Choice → Type 0
Promises keys refused sitting none = (k : UpstreamKey) → Occurs k keys → refused k.id ≡ true
Promises keys refused sitting (some (k, true)) =
    Occurs k keys
    × (refused k.id ≡ false)
    × ((c : UpstreamKey) → Occurs c keys → (refused c.id || sitting c.id) ≡ true)
Promises keys refused sitting (some (k, false)) =
    Occurs k keys × (refused k.id ≡ false) × (sitting k.id ≡ false)

module _ (keys : List UpstreamKey) (refused sitting : ℕ → Bool) (start : ℕ)
    (fits : start + length keys ≤ 2 ^ 64) where
  everywhere :
      (P : UpstreamKey → Type 0)
      → ((j : ℕ) (c : UpstreamKey)
          → 0 ≤ j
          → j < 0 + length keys
          → candidate keys refused sitting start j ≡ some c
          → P c)
      → (c : UpstreamKey) → Occurs c keys
      → P c
  everywhere P all c o =
      let (j, low, at) = index_of_Occurs o in
      let (i, high, here) = rounds_cover start j (length keys) low fits in
      all i c (omega arith) (omega (arith, high)) (ap (get_elem? keys) here ∙ at)

  loop-Promises :
      (r : Choice)
      → Explains keys refused sitting start none 0 (length keys) r
      → Promises keys refused sitting r
  loop-Promises none h = everywhere (λ k. refused k.id ≡ true) h.1
  loop-Promises (some (k, true)) (inl e, rest) = absurd (cc)
  loop-Promises (some (k, true)) (inr (j, e, f), rest) =
      (Occurs-at keys _ k e, f, everywhere (λ c. (refused c.id || sitting c.id) ≡ true) rest)
  loop-Promises (some (k, false)) (j, e, f, s) = (Occurs-at keys _ k e, f, s)

-- A picker's choice among a channel's keys keeps its promise, as long as the channel's position
-- has not wrapped: a key that is not refused and not benched is preferred, one that sits out
-- is returned, marked, only where every key is refused or sits out, and there is no key only
-- where every key is refused.
pub pick-Promises :
    (p : KeyPicker) (upstream_id : ℕ) (keys : List UpstreamKey) (refused : ℕ → Bool) (now : ℕ)
    → next_or_zero (Assoc.get ℕ_discrete upstream_id p.next) + length keys ≤ 2 ^ 64
    → Promises keys refused
        (λ id. sitting_out p id now)
        (pick (some p) upstream_id keys refused now).1
unfolding pick
pick-Promises p upstream_id [] refused now fits =
    λ k o. let (i, low, e) = index_of_Occurs o in absurd (omega (arith, low))
pick-Promises p upstream_id (k ∷ ks) refused now fits =
    let start = next_or_zero (Assoc.get ℕ_discrete upstream_id p.next) in
    let sitting = λ (id : ℕ). sitting_out p id now in
    loop-Promises (k ∷ ks) refused sitting start fits _
      (loop-Explains (k ∷ ks) refused sitting start (length (k ∷ ks)) 0 none)
