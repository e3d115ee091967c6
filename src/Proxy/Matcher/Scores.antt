-- ===== src/Proxy/Matcher/Scores.antt =====
-- The candidates are the reachable upstreams with the best score.
use wildtoken.Prelude.{
  ℕ, ◌≤◌, ◌<◌, ◌≡◌, refl, ap, max, true, false, not, Option, none, some, List, [], ◌∷◌, arith, ◌==◌,
  ==_iff, lt→ltb, not-Occurs-nil, subst, ◌↔◌, Bool-cases, inl, inr, Occurs, first, later,
  keep-Occurs, Occurs-keep,
}
use wildtoken.Text.{Text}
use wildtoken.Proxy.Matcher.{
  ParsedUpstream, RoutingSnapshot, contains, serves_group, filter_by_group, filter_excluded,
  model_match_score, matches_model, best_score, filter_by_best_score,
}
use wildtoken.Proxy.Matcher.Select.{candidates}

-- What a request may be routed to at all.
pub record IsReachable (s : RoutingSnapshot) (group : ℕ) (exclude : List ℕ) (u : ParsedUpstream)
    : Type 0 where
  pub listed : Occurs u s.upstreams
  pub served : serves_group u group ≡ true
  pub allowed : contains exclude u.row.id ≡ false

filter_excluded-Occurs :
    (us : List ParsedUpstream) (exclude : List ℕ) (u : ParsedUpstream)
    → Occurs u (filter_excluded us exclude)
    → Occurs u us × (contains exclude u.row.id ≡ false)
unfolding filter_excluded
filter_excluded-Occurs us [] u o = (o, refl)
filter_excluded-Occurs us (x ∷ xs) u o =
    let (o', e) = keep-Occurs (λ (v : ParsedUpstream). not (contains (x ∷ xs) v.row.id)) u us o in
    (o', ground (arith, e))

Occurs-filter_excluded :
    (us : List ParsedUpstream) (exclude : List ℕ) (u : ParsedUpstream)
    → Occurs u us
    → contains exclude u.row.id ≡ false
    → Occurs u (filter_excluded us exclude)
unfolding filter_excluded
Occurs-filter_excluded us [] u o e = o
Occurs-filter_excluded us (x ∷ xs) u o e =
    Occurs-keep (λ (v : ParsedUpstream). not (contains (x ∷ xs) v.row.id)) u o (ap not e)

module _ (normalize : Text → Text) where
  best_score-ge-start :
      (best : ℕ) (us : List ParsedUpstream) (model : Option Text)
      → best ≤ best_score normalize best us model
  unfolding best_score
  best_score-ge-start best [] model = omega arith
  best_score-ge-start best (u ∷ us) model =
      omega (arith, best_score-ge-start (max best (model_match_score normalize u model)) us model)

  best_score-ge :
      (model : Option Text) (u : ParsedUpstream) (best : ℕ) {us : List ParsedUpstream}
      → Occurs u us
      → model_match_score normalize u model ≤ best_score normalize best us model
  unfolding best_score
  best_score-ge model u best (first {xs = xs}) =
      omega (arith, best_score-ge-start (max best (model_match_score normalize u model)) xs model)
  best_score-ge model u best (later {x = x} o) =
      best_score-ge model u (max best (model_match_score normalize x model)) o

  -- The reachable upstreams that filterByBestModelScore is given.
  abbrev reachable : RoutingSnapshot → ℕ → List ℕ → List ParsedUpstream
  reachable s group exclude = filter_excluded (filter_by_group s.upstreams group) exclude

  reachable-IsReachable :
      (s : RoutingSnapshot) (group : ℕ) (exclude : List ℕ) (u : ParsedUpstream)
      → Occurs u (reachable s group exclude)
      → IsReachable s group exclude u
  unfolding filter_by_group
  reachable-IsReachable s group exclude u o =
      let (o', allowed) = filter_excluded-Occurs (filter_by_group s.upstreams group) exclude u o in
      let (listed, served) = keep-Occurs (λ v. serves_group v group) u s.upstreams o' in
      record { listed = listed; served = served; allowed = allowed }

  IsReachable-reachable :
      (s : RoutingSnapshot) (group : ℕ) (exclude : List ℕ) (u : ParsedUpstream)
      → IsReachable s group exclude u
      → Occurs u (reachable s group exclude)
  unfolding filter_by_group
  IsReachable-reachable s group exclude u r =
      Occurs-filter_excluded _ exclude u
        (Occurs-keep (λ v. serves_group v group) u r.listed r.served) r.allowed

  best_score-le :
      (n best : ℕ) (us : List ParsedUpstream) (model : Option Text)
      → best ≤ n
      → ((v : ParsedUpstream) → Occurs v us → model_match_score normalize v model ≤ n)
      → best_score normalize best us model ≤ n
  unfolding best_score
  best_score-le n best [] model h all = h
  best_score-le n best (u ∷ us) model h all =
      best_score-le n (max best (model_match_score normalize u model)) us model
        (omega (arith, h, all u first)) (λ v o. all v (later o))

  -- No upstream of the list scores higher.
  abbrev Highest : List ParsedUpstream → Text → ParsedUpstream → Type 0
  Highest us model u =
      (v : ParsedUpstream)
      → Occurs v us
      → model_match_score normalize v (some model) ≤ model_match_score normalize u (some model)

  kept_best :
      (us : List ParsedUpstream) (model : Text) (u : ParsedUpstream)
      → Occurs u (filter_by_best_score normalize us (some model))
      → Occurs u us × (0 < model_match_score normalize u (some model)) × Highest us model u
  unfolding filter_by_best_score
  kept_best us model u o = elim (Bool-cases (best_score normalize 0 us (some model) == 0)) [
    | inl nothing ↦ absurd (not-Occurs-nil (subst (Occurs u) (ground (arith, nothing)) o))
    | inr scored ↦
        let best = best_score normalize 0 us (some model) in
        let test = λ (v : ParsedUpstream). model_match_score normalize v (some model) == best in
        let (o', e) = keep-Occurs test u us (subst (Occurs u) (ground (arith, scored)) o) in
        let top : model_match_score normalize u (some model) ≡ best = (==_iff _ _).0 e in
        (o', ground (arith, top, scored), λ v ov. rw top (best_score-ge (some model) v 0 ov))
  ]

  best_kept :
      (us : List ParsedUpstream) (model : Text) (u : ParsedUpstream)
      → Occurs u us
      → 0 < model_match_score normalize u (some model)
      → Highest us model u
      → Occurs u (filter_by_best_score normalize us (some model))
  unfolding filter_by_best_score
  best_kept us model u o pos top =
      let best = best_score normalize 0 us (some model) in
      let test = λ (v : ParsedUpstream). model_match_score normalize v (some model) == best in
      let low =
        best_score-le (model_match_score normalize u (some model)) 0 us (some model) (omega arith)
          top in
      let high = best_score-ge (some model) u 0 o in
      let same : model_match_score normalize u (some model) ≡ best = omega (arith, low, high) in
      let scored : (best == 0) ≡ false = ground (arith, pos, same) in
      rw scored (Occurs-keep test u o ((==_iff _ _).1 same))

  -- The candidates for a model are exactly the reachable upstreams that match it and that no
  -- reachable upstream matches better.
  pub candidates_iff :
      (s : RoutingSnapshot) (model : Text) (group : ℕ) (exclude : List ℕ) (u : ParsedUpstream)
      → Occurs u (candidates normalize s (some model) group exclude) ↔ (
          IsReachable s group exclude u
          × (0 < model_match_score normalize u (some model))
          × ((v : ParsedUpstream)
              → IsReachable s group exclude v
              → model_match_score normalize v (some model)
                ≤ model_match_score normalize u (some model)))
  unfolding candidates
  candidates_iff s model group exclude u = (
    λ o.
        let (o', pos, top) = kept_best (reachable s group exclude) model u o in
        (
          reachable-IsReachable s group exclude u o',
          pos,
          λ v r. top v (IsReachable-reachable s group exclude v r),
        ),
    λ h.
        best_kept (reachable s group exclude) model u (IsReachable-reachable s group exclude u h.0)
          h.1 (λ v o. h.2 v (reachable-IsReachable s group exclude v o)),
  )

  pub candidate_reachable :
      (s : RoutingSnapshot) (model : Option Text) (group : ℕ) (exclude : List ℕ)
      (u : ParsedUpstream)
      → Occurs u (candidates normalize s model group exclude)
      → IsReachable s group exclude u × (matches_model normalize u model ≡ true)
  unfolding candidates filter_by_best_score matches_model
  candidate_reachable s none group exclude u o = (reachable-IsReachable s group exclude u o, refl)
  candidate_reachable s (some model) group exclude u o =
      let (o', pos, top) = kept_best (reachable s group exclude) model u o in
      (reachable-IsReachable s group exclude u o', lt→ltb _ _ pos)
