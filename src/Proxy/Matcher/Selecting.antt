-- ===== src/Proxy/Matcher/Selecting.antt =====
-- A selection, direct or weighted, never leaves what the request may reach.
use wildtoken.Prelude.{
  ℕ, ◌≡◌, refl, sym, ap, ◌∙◌, subst, Bool, true, false, Option, none, some, List, [], ◌∷◌, ◌++◌,
  map, arith, ltb, ◌==◌, ==_iff, if◌then◌else◌, Bool-cases, Option-cases, List-cases, ◌⊎◌, inl, inr,
  ℕ_discrete, some_eq, Occurs, first, later, keep-Occurs, not-Occurs-nil,
}
use wildtoken.Prelude.Assoc
use wildtoken.Text.{Text, Text-discrete, parse_signed}
use wildtoken.Proxy.Health
use wildtoken.Proxy.Health.{Policy, Manager}
use wildtoken.Proxy.Keys.{UpstreamKey}
use wildtoken.Proxy.Matcher.{
  UpstreamRow, ParsedUpstream, RoutingSnapshot, Selection, contains, matches_model,
  new_parsed_upstream, add_upstream, build_snapshot, new_routing_snapshot, empty_snapshot,
  new_selection, select_direct, admissible, by_id_hit, direct_hit,
}
use wildtoken.Proxy.Matcher.Select.{
  group_of, weigh, choose, priorities, select_by_priority, candidates, select_upstream,
  select_from_snapshot,
}
use wildtoken.Proxy.Matcher.Weighted.{choose-Occurs}
use wildtoken.Proxy.Matcher.Scores.{IsReachable, candidate_reachable}

-- The maps of a snapshot lead to its own upstreams, all of them enabled.
pub record IsWellFormed (s : RoutingSnapshot) : Type 0 where
  pub by_id :
      (id : ℕ) (u : ParsedUpstream)
      → Assoc.get ℕ_discrete id s.by_id ≡ some u
      → Occurs u s.upstreams × (u.row.id ≡ id)
  pub by_name :
      (name : Text) (u : ParsedUpstream)
      → Assoc.get Text-discrete name s.by_name ≡ some u
      → Occurs u s.upstreams
  pub enabled : (u : ParsedUpstream) → Occurs u s.upstreams → u.row.enabled ≡ 1

Occurs-append_left {ℓ} :
    {A : Type ℓ} (a : A) {xs : List A} (ys : List A) → Occurs a xs → Occurs a (xs ++ ys)
Occurs-append_left a ys first = first
Occurs-append_left a ys (later o) = later (Occurs-append_left a ys o)

Occurs-append_last {ℓ} : {A : Type ℓ} (a : A) (xs : List A) → Occurs a (xs ++ (a ∷ []))
Occurs-append_last a [] = first
Occurs-append_last a (x ∷ xs) = later (Occurs-append_last a xs)

Occurs-append_cases {ℓ} :
    {A : Type ℓ} (a b : A) (xs : List A) → Occurs a (xs ++ (b ∷ [])) → Occurs a xs ⊎ (a ≡ b)
Occurs-append_cases a b [] first = inr refl
Occurs-append_cases a b [] (later o) = absurd (not-Occurs-nil o)
Occurs-append_cases a b (x ∷ xs) first = inl first
Occurs-append_cases a b (x ∷ xs) (later o) = elim (Occurs-append_cases a b xs o) [
  | inl old ↦ inl (later old)
  | inr new ↦ inr new
]

module _ (normalize : Text → Text) where
  add_upstream-IsWellFormed :
      (s : RoutingSnapshot) (u : ParsedUpstream)
      → u.row.enabled ≡ 1
      → IsWellFormed s
      → IsWellFormed (add_upstream normalize s u)
  unfolding add_upstream
  add_upstream-IsWellFormed s u e w = record {
    by_id = λ id v found. elim (Assoc.get-put_cases ℕ_discrete u.row.id id u v s.by_id found) [
      | inl (same, is) ↦ (
        subst (λ x. Occurs x (s.upstreams ++ (u ∷ []))) is (Occurs-append_last u s.upstreams),
        ap (λ (x : ParsedUpstream). x.row.id) (sym is) ∙ same,
      )
      | inr old ↦ let (o, i) = w.by_id id v old in (Occurs-append_left v (u ∷ []) o, i)
    ];
    by_name = λ name v found.
        elim (Assoc.get-put_cases Text-discrete u.row.name name u v s.by_name found) [
          | inl (same, is) ↦
              subst (λ x. Occurs x (s.upstreams ++ (u ∷ []))) is (Occurs-append_last u s.upstreams)
          | inr old ↦ Occurs-append_left v (u ∷ []) (w.by_name name v old)
        ];
    enabled = λ v o. elim (Occurs-append_cases v u s.upstreams o) [
      | inl old ↦ w.enabled v old
      | inr is ↦ ap (λ (x : ParsedUpstream). x.row.enabled) is ∙ e
    ];
  }

  row-parsed :
      (row : UpstreamRow) (groups : List ℕ) (keys : List UpstreamKey)
      → (new_parsed_upstream normalize row groups keys).row ≡ row
  unfolding new_parsed_upstream
  row-parsed row groups keys = refl

  build-IsWellFormed :
      (s : RoutingSnapshot) (rows : List UpstreamRow) (membership : ℕ → List ℕ)
      (keys : ℕ → List UpstreamKey)
      → IsWellFormed s
      → IsWellFormed (build_snapshot normalize s rows membership keys)
  unfolding build_snapshot
  build-IsWellFormed s [] membership keys w = w
  build-IsWellFormed s (row ∷ rows) membership keys w =
      let u = new_parsed_upstream normalize row (membership row.id) (keys row.id) in
      elim (Bool-cases (row.enabled == 1)) [
        | inl on ↦ rw on (
            build-IsWellFormed (add_upstream normalize s u) rows membership keys (
              add_upstream-IsWellFormed s u
                (ap (λ (r : UpstreamRow). r.enabled)
                    (row-parsed row (membership row.id) (keys row.id))
                  ∙ (==_iff _ _).0 on)
                w))
        | inr off ↦ rw off (build-IsWellFormed s rows membership keys w)
      ]

  -- Every snapshot that is loaded is well formed: its maps lead to its own upstreams, under their
  -- ids, and each of them is enabled.
  pub new_routing_snapshot-IsWellFormed :
      (rows : List UpstreamRow) (membership : ℕ → List ℕ) (keys : ℕ → List UpstreamKey)
      → IsWellFormed (new_routing_snapshot normalize rows membership keys)
  unfolding new_routing_snapshot
  new_routing_snapshot-IsWellFormed rows membership keys =
      build-IsWellFormed (empty_snapshot normalize) rows membership keys (record {
        by_id = λ id u found. unfold Assoc.get in absurd (cc);
        by_name = λ name u found. unfold Assoc.get in absurd (cc);
        enabled = λ u o. absurd (not-Occurs-nil o);
      })

weighed_cases :
    (b : Bool) (x : ParsedUpstream × ℕ) (rest : List (ParsedUpstream × ℕ)) (u : ParsedUpstream)
    → Occurs u (map (λ (y : ParsedUpstream × ℕ). y.0) (if b then x ∷ rest else rest))
    → (u ≡ x.0) ⊎ Occurs u (map (λ (y : ParsedUpstream × ℕ). y.0) rest)
weighed_cases true x rest u first = inl refl
weighed_cases true x rest u (later o) = inr o
weighed_cases false x rest u o = inr o

weigh-Occurs :
    (m : Manager) (p : Policy) (now : ℕ) (us : List ParsedUpstream) (u : ParsedUpstream)
    → Occurs u (map (λ (x : ParsedUpstream × ℕ). x.0) (weigh m p now us).1)
    → Occurs u us
unfolding weigh
weigh-Occurs m p now [] u o = o
weigh-Occurs m p now (v ∷ us) u o =
    let (m', s) = Health.snapshot m v.row.id v.row.weight (v.row.auto_weight_enabled == 1) p now in
    elim (weighed_cases (ltb 0 s.routing_weight) (v, s.routing_weight) (weigh m' p now us).1 u o) [
      | inl e ↦ subst (λ x. Occurs u (x ∷ us)) e first
      | inr o' ↦ later (weigh-Occurs m' p now us u o')
    ]

select_by_priority-Occurs :
    (draw : ℕ → ℕ) (p : Policy) (now : ℕ) (qs : List ℕ) (cs : List ParsedUpstream) (m : Manager)
    (u : ParsedUpstream)
    → (select_by_priority draw p now qs cs m).1 ≡ some u
    → Occurs u cs
unfolding select_by_priority
select_by_priority-Occurs draw p now [] cs m u h = absurd (cc)
select_by_priority-Occurs draw p now (q ∷ qs) cs m u h =
    let (m', weighed) = weigh m p now (group_of q cs) in
    elim (List-cases weighed) [
      | inl e ↦ select_by_priority-Occurs draw p now qs cs m' u (rw (e, select_by_priority) at h)
      | inr (x, xs, e) ↦
          let (v, chosen, o) = choose-Occurs draw x xs in
          let picked : choose draw (x ∷ xs) ≡ some u = rw (e, select_by_priority) at h in
          let o' =
            subst (λ y. Occurs y (map (λ (z : ParsedUpstream × ℕ). z.0) (x ∷ xs)))
              (some_eq (sym chosen ∙ picked)) o in
          let o'' = weigh-Occurs m p now (group_of q cs) u (
            subst
              (λ (l : List (ParsedUpstream × ℕ)).
                Occurs u (map (λ (z : ParsedUpstream × ℕ). z.0) l))
              (sym e) o') in
          (keep-Occurs (λ (w : ParsedUpstream). w.row.priority == q) u cs o'').0
    ]

-- What a selected upstream satisfies.
pub record IsAllowed (normalize : Text → Text) (s : RoutingSnapshot) (model : Option Text)
    (group : ℕ) (exclude : List ℕ) (u : ParsedUpstream) : Type 0 where
  pub reachable : IsReachable s group exclude u
  pub matches : matches_model normalize u model ≡ true
  pub enabled : u.row.enabled ≡ 1

module _ (normalize : Text → Text) (s : RoutingSnapshot) (w : IsWellFormed s) where
  admissible-IsAllowed :
      (model : Option Text) (group : ℕ) (exclude : List ℕ) (id : ℕ) (u : ParsedUpstream)
      → Occurs u s.upstreams
      → u.row.id ≡ id
      → admissible normalize u model group exclude id ≡ true
      → IsAllowed normalize s model group exclude u
  admissible-IsAllowed model group exclude id u o same h = record {
    reachable = record {
      listed = o;
      served = ground (arith, h);
      allowed = ap (contains exclude) same ∙ ground (arith, h);
    };
    matches = ground (arith, h);
    enabled = w.enabled u o;
  }

  by_id_hit-IsAllowed :
      (o : Option ℕ) (model : Option Text) (group : ℕ) (exclude : List ℕ) (u : ParsedUpstream)
      → by_id_hit normalize s o model group exclude ≡ some u
      → IsAllowed normalize s model group exclude u
  by_id_hit-IsAllowed none model group exclude u h = absurd (cc)
  by_id_hit-IsAllowed (some id) model group exclude u h =
      elim (Option-cases (Assoc.get ℕ_discrete id s.by_id)) [
        | inl e ↦ absurd (ground (arith, e, h))
        | inr (v, e) ↦ elim (Bool-cases (admissible normalize v model group exclude id)) [
          | inl fine ↦
              let same : v ≡ u = ground (arith, e, h, fine) in
              let (o, i) = w.by_id id v e in
              subst (IsAllowed normalize s model group exclude) same
                (admissible-IsAllowed model group exclude id v o i fine)
          | inr bad ↦ absurd (ground (arith, e, h, bad))
        ]
      ]

  direct_hit-IsAllowed :
      (name : Text) (model : Option Text) (group : ℕ) (exclude : List ℕ) (u : ParsedUpstream)
      → direct_hit normalize (Assoc.get Text-discrete name s.by_name) model group exclude ≡ some u
      → IsAllowed normalize s model group exclude u
  direct_hit-IsAllowed name model group exclude u h =
      elim (Option-cases (Assoc.get Text-discrete name s.by_name)) [
        | inl e ↦ absurd (ground (arith, e, h))
        | inr (v, e) ↦ elim (Bool-cases (admissible normalize v model group exclude v.row.id)) [
          | inl fine ↦
              let same : v ≡ u = ground (arith, e, h, fine) in
              subst (IsAllowed normalize s model group exclude) same
                (admissible-IsAllowed model group exclude v.row.id v (w.by_name name v e) refl fine)
          | inr bad ↦ absurd (ground (arith, e, h, bad))
        ]
      ]

  direct-IsAllowed :
      (selector : Text) (model : Option Text) (group : ℕ) (exclude : List ℕ) (u : ParsedUpstream)
      → select_direct normalize s selector model group exclude ≡ some u
      → IsAllowed normalize s model group exclude u
  unfolding select_direct
  direct-IsAllowed selector model group exclude u h =
      elim (Option-cases (by_id_hit normalize s (parse_signed selector) model group exclude)) [
        | inl e ↦ direct_hit-IsAllowed selector model group exclude u (rw (e, select_direct) at h)
        | inr (v, e) ↦
            let same : v ≡ u = some_eq (rw (e, select_direct) at h) in
            subst (IsAllowed normalize s model group exclude) same
              (by_id_hit-IsAllowed (parse_signed selector) model group exclude v e)
      ]

  upstream-IsAllowed :
      (draw : ℕ → ℕ) (m : Manager) (p : Policy) (now : ℕ) (selector model : Option Text) (group : ℕ)
      (exclude : List ℕ) (u : ParsedUpstream)
      → (select_upstream normalize draw s m p now selector model group exclude).1 ≡ some u
      → IsAllowed normalize s model group exclude u
  unfolding select_upstream
  upstream-IsAllowed draw m p now (some selector) model group exclude u h =
      direct-IsAllowed selector model group exclude u h
  upstream-IsAllowed draw m p now none model group exclude u h =
      let cs = candidates normalize s model group exclude in
      let (r, matched) =
        candidate_reachable normalize s model group exclude u
          (select_by_priority-Occurs draw p now (priorities cs) cs m u h) in
      record { reachable = r; matches = matched; enabled = w.enabled u r.listed }

-- Whatever way a request is routed, by a selector or by weight, the upstream it gets is one of the
-- enabled rows, serves the caller's group, is not excluded, and serves the model asked for; the
-- selection carries that upstream's row, the model name it is to be sent, and its keys.
pub select_from_snapshot-IsAllowed :
    (normalize : Text → Text) (rows : List UpstreamRow) (membership : ℕ → List ℕ)
    (keys : ℕ → List UpstreamKey) (draw : ℕ → ℕ) (m : Manager) (p : Policy) (now : ℕ)
    (selector model : Option Text) (group : ℕ) (exclude : List ℕ) (sel : Selection)
    → (select_from_snapshot normalize draw
        (new_routing_snapshot normalize rows membership keys)
        m
        p
        now
        selector
        model
        group
        exclude).1
      ≡ some sel
    → (u : ParsedUpstream) × (sel ≡ new_selection normalize u model)
      × IsAllowed normalize
          (new_routing_snapshot normalize rows membership keys)
          model
          group
          exclude
          u
unfolding select_from_snapshot
select_from_snapshot-IsAllowed normalize rows membership keys draw m p now selector model group
      exclude sel h =
    let s = new_routing_snapshot normalize rows membership keys in
    let w = new_routing_snapshot-IsWellFormed normalize rows membership keys in
    elim (Option-cases (select_upstream normalize draw s m p now selector model group exclude).1) [
      | inl e ↦ absurd (ground (arith, e, h))
      | inr (u, e) ↦ (
        u,
        ground (arith, e, h),
        upstream-IsAllowed normalize s w draw m p now selector model group exclude u e,
      )
    ]
