-- ===== src/Proxy/Matcher/Select.antt =====
-- internal/proxy/matcher.go: the choice among the candidates, by priority and by weight, and the
-- selection as a whole.
use mathlib.Core.Option
use wildtoken.Prelude.{
  ℕ, ◌+◌, ◌-◌, ◌%◌, ◌^◌, Option, none, some, List, [], ◌∷◌, map, ltb, ◌==◌, if◌then◌else◌, length,
  keep, get_elem?,
}
use wildtoken.Prelude.Int64
use wildtoken.Text.{Text}
use wildtoken.Proxy.Health
use wildtoken.Proxy.Health.{Policy, Manager}
use wildtoken.Proxy.Matcher.{
  ParsedUpstream, RoutingSnapshot, Selection, filter_by_best_score, filter_by_group,
  filter_excluded, new_selection, select_direct,
}

-- The distinct priorities of the candidates, from highest to lowest: the keys of `byPriority`,
-- sorted.
unfoldable pub insert_priority : ℕ → List ℕ → List ℕ
insert_priority p [] = p ∷ []
insert_priority p (q ∷ qs) =
    if p == q then q ∷ qs else if Int64.lt q p then p ∷ q ∷ qs else q ∷ insert_priority p qs

unfoldable pub priorities : List ParsedUpstream → List ℕ
unfolding insert_priority
priorities [] = []
priorities (u ∷ us) = insert_priority u.row.priority (priorities us)

abbrev pub group_of : ℕ → List ParsedUpstream → List ParsedUpstream
group_of priority us = keep (λ (u : ParsedUpstream). u.row.priority == priority) us

-- The inner loop over a priority group: the members with a weight, and the weights. A read of a
-- health score may update it.
unfoldable pub weigh :
    Manager → Policy → ℕ → List ParsedUpstream → Manager × List (ParsedUpstream × ℕ)
weigh m p now [] = (m, [])
weigh m p now (u ∷ us) =
    let (m', s) = Health.snapshot m u.row.id u.row.weight (u.row.auto_weight_enabled == 1) p now in
    let (m'', rest) = weigh m' p now us in
    (m'', (if ltb 0 s.routing_weight then (u, s.routing_weight) ∷ rest else rest))

-- The uint64 sum of the weights.
unfoldable pub total_weight : ℕ → List ℕ → ℕ
total_weight total [] = total
total_weight total (w ∷ ws) = total_weight ((total + w) % 2 ^ 64) ws

-- The loop of weightedIndex; `none` where it runs to its end.
unfoldable pub weighted_from : ℕ → List ℕ → ℕ → Option ℕ
weighted_from i [] target = none
weighted_from i (w ∷ ws) target =
    if ltb target w then some i else weighted_from (i + 1) ws (target - w)

abbrev pub index_or : Option ℕ → ℕ → ℕ
index_or none d = d
index_or (some i) d = i

-- `draw total` is rand.Uint64N(total).
unfoldable pub weighted_index : (ℕ → ℕ) → List ℕ → ℕ → ℕ
unfolding weighted_from
weighted_index draw ws total =
    if total == 0 then 0 else index_or (weighted_from 0 ws (draw total)) (length ws - 1)

unfoldable pub choose : (ℕ → ℕ) → List (ParsedUpstream × ℕ) → Option ParsedUpstream
unfolding weighted_index total_weight
choose draw weighed =
    let ws = map (λ (x : ParsedUpstream × ℕ). x.1) weighed in
    get_elem? (map (λ (x : ParsedUpstream × ℕ). x.0) weighed)
      (weighted_index draw ws (total_weight 0 ws))

-- The outer loop, over the priorities that are left.
unfoldable pub select_by_priority :
    (ℕ → ℕ) → Policy → ℕ → List ℕ → List ParsedUpstream → Manager → Manager × Option ParsedUpstream
select_by_priority draw p now [] cs m = (m, none)
select_by_priority draw p now (q ∷ qs) cs m =
    let (m', weighed) = weigh m p now (group_of q cs) in
    let next = select_by_priority draw p now qs cs m' in
    elim weighed [ [] ↦ next | x ∷ xs ↦ (m', choose draw (x ∷ xs)) ]

module _ (normalize : Text → Text) where
  -- The candidates of a request that names no upstream.
  unfoldable pub candidates : RoutingSnapshot → Option Text → ℕ → List ℕ → List ParsedUpstream
  candidates s model group exclude =
      filter_by_best_score normalize (filter_excluded (filter_by_group s.upstreams group) exclude)
        model

  -- The upstream that selectFromSnapshot settles on, with the health scores that it may update; a
  -- selection reads the clock once here. The early returns on an empty list are the loops over it.
  unfoldable pub select_upstream :
      (ℕ → ℕ)
      → RoutingSnapshot
      → Manager
      → Policy
      → ℕ
      → Option Text
      → Option Text
      → ℕ
      → List ℕ
      → Manager × Option ParsedUpstream
  select_upstream draw s m p now (some selector) model group exclude =
      (m, select_direct normalize s selector model group exclude)
  select_upstream draw s m p now none model group exclude =
      let cs = candidates s model group exclude in
      select_by_priority draw p now (priorities cs) cs m

  unfoldable pub select_from_snapshot :
      (ℕ → ℕ)
      → RoutingSnapshot
      → Manager
      → Policy
      → ℕ
      → Option Text
      → Option Text
      → ℕ
      → List ℕ
      → Manager × Option Selection
  unfolding new_selection
  select_from_snapshot draw s m p now selector model group exclude =
      let (m', found) = select_upstream draw s m p now selector model group exclude in
      (m', Option.map (λ u. new_selection normalize u model) found)
