-- ===== src/Proxy/Matcher/Weighted.antt =====
-- The weighted choice within a priority group.
use Prim.Native.Nat.add
use wildtoken.Prelude.{
  ltb→le, subst, Option-cases, length-map, ℕ, zero, suc, ◌+◌, ◌-◌, ◌%◌, ◌^◌, ◌≤◌, ◌<◌, ◌≡◌, refl,
  sym, ap, ◌∙◌, false, some, List, [], ◌∷◌, map, arith, ltb, ◌==◌, Bool-cases, inl, inr, length,
  get_elem?, Occurs, Occurs-at, get_elem?-some,
}
use wildtoken.Proxy.Matcher.{ParsedUpstream}
use wildtoken.Proxy.Matcher.Select.{total_weight, weighted_from, weighted_index, choose}

abbrev pub sum : List ℕ → ℕ
sum [] = 0
sum (w ∷ ws) = w + sum ws

-- The weights before an index.
abbrev pub before : ℕ → List ℕ → ℕ
before zero ws = 0
before (suc i) [] = 0
before (suc i) (w ∷ ws) = w + before i ws

-- The target falls into the stretch of an index: as many targets do as its weight says.
pub record Lands (ws : List ℕ) (target i : ℕ) : Type 0 where
  pub weight : ℕ
  pub at : get_elem? ws i ≡ some weight
  pub from : before i ws ≤ target
  pub below : target < before i ws + weight

weighted_from-Lands :
    (i : ℕ) (ws : List ℕ) (target : ℕ)
    → target < sum ws
    → (j : ℕ) × (weighted_from i ws target ≡ some (i + j)) × Lands ws target j
unfolding weighted_from
weighted_from-Lands i [] target h = absurd (omega arith)
weighted_from-Lands i (w ∷ ws) target h = elim (Bool-cases (ltb target w)) [
  | inl here ↦ (
    0,
    rw here (ap some (omega arith)),
    record { weight = w; at = refl; from = omega arith; below = ground arith },
  )
  | inr past ↦
      let low = ltb→le target w past in
      let (j, e, l) = weighted_from-Lands (i + 1) ws (target - w) (omega arith) in
      (
        suc j,
        rw past (e ∙ ap some (omega arith)),
        record {
          weight = l.weight;
          at = l.at;
          from = omega (arith, l.from);
          below = omega (arith, l.below);
        },
      )
]

total_weight-eq :
    (total : ℕ) (ws : List ℕ) → total + sum ws < 2 ^ 64 → total_weight total ws ≡ total + sum ws
unfolding total_weight
total_weight-eq total [] h = omega arith
total_weight-eq total (w ∷ ws) h =
    let here : (total + w) % 2 ^ 64 ≡ total + w = omega arith in
    ap (λ t. total_weight t ws) here ∙ total_weight-eq (total + w) ws (omega arith) ∙ omega arith

-- A draw below the total weight, which does not wrap, picks the index into whose stretch of the
-- total it falls; the stretches lie side by side and are as long as the weights.
pub weighted_index-Lands :
    (draw : ℕ → ℕ) (ws : List ℕ)
    → 0 < sum ws
    → sum ws < 2 ^ 64
    → draw (sum ws) < sum ws
    → Lands ws (draw (sum ws)) (weighted_index draw ws (total_weight 0 ws))
unfolding weighted_index
weighted_index-Lands draw ws pos fits drawn =
    let total = total_weight-eq 0 ws (omega (arith, fits)) in
    let (j, found, l) = weighted_from-Lands 0 ws (draw (sum ws)) drawn in
    let some_weight : (sum ws == 0) ≡ false = ground arith in
    rw (total, add.zero (sum ws), some_weight, found)
      (subst (Lands ws (draw (sum ws))) (omega arith) l)

weighted_from-bound :
    (i : ℕ) (ws : List ℕ) (target j : ℕ) → weighted_from i ws target ≡ some j → j < i + length ws
unfolding weighted_from
weighted_from-bound i [] target j e = absurd (cc)
weighted_from-bound i (w ∷ ws) target j e =
    ground (arith, weighted_from-bound (i + 1) ws (target - w) j)

weighted_index-bound :
    (draw : ℕ → ℕ) (ws : List ℕ) (total : ℕ)
    → 0 < length ws
    → weighted_index draw ws total < length ws
unfolding weighted_index
weighted_index-bound draw ws total h = elim (Bool-cases (total == 0)) [
  | inl none_left ↦ rw none_left h
  | inr more ↦ elim (Option-cases (weighted_from 0 ws (draw total))) [
    | inl e ↦ rw (more, e) (omega arith)
    | inr (j, e) ↦ rw (more, e) (omega (arith, weighted_from-bound 0 ws (draw total) j e))
  ]
]

-- Whatever is drawn, and even where the total wraps, a choice among some upstreams is one of them.
pub choose-Occurs :
    (draw : ℕ → ℕ) (x : ParsedUpstream × ℕ) (xs : List (ParsedUpstream × ℕ))
    → (u : ParsedUpstream) × (choose draw (x ∷ xs) ≡ some u)
      × Occurs u (map (λ (y : ParsedUpstream × ℕ). y.0) (x ∷ xs))
unfolding choose
choose-Occurs draw x xs =
    let us = map (λ (y : ParsedUpstream × ℕ). y.0) (x ∷ xs) in
    let ws = map (λ (y : ParsedUpstream × ℕ). y.1) (x ∷ xs) in
    let i = weighted_index draw ws (total_weight 0 ws) in
    let same : length us ≡ length ws =
      length-map (x ∷ xs) (λ (y : ParsedUpstream × ℕ). y.0)
      ∙ sym (length-map (x ∷ xs) (λ (y : ParsedUpstream × ℕ). y.1)) in
    let low = weighted_index-bound draw ws (total_weight 0 ws) (omega arith) in
    let (u, e) = get_elem?-some us i (omega (arith, low, same)) in (u, e, Occurs-at us i u e)
