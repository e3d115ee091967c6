-- ===== src/Handlers/Failover/Rounds.antt =====
-- The choice of a channel ends: every round that goes on has fewer channels left.
use wildtoken.Prelude.{
  ℕ, zero, suc, ◌+◌, ◌≤◌, ◌<◌, ◌≡◌, refl, ap, ◌∙◌, subst, Bool, true, false, not, ◌&&◌, Option,
  none, some, List, [], ◌∷◌, ◌++◌, ◌==◌, length, keep, arith, Bool-cases, inl, inr, if_all,
  option_all, if_all_eq, option_all_eq, Occurs, Occurs-cases, not-Occurs-nil, ==_iff,
}
use wildtoken.Handlers.Failover.{
  Selection, Selected, broken, found, Services, Config, Run, Choice, selection_failed, member,
  is_empty, routing_exclusions, log_attempt, exclude, asked, admit_channel, prepare_channel,
  pick_key, try_channel, try_selected, direct_candidate, select_anew, select_round, select_loop,
}

-- The channels that are not in a list.
abbrev left : List ℕ → List ℕ → ℕ
left ids out = length (keep (λ id. not (member id out)) ids)

left-cons-le : (ids out : List ℕ) (x : ℕ) → left ids (x ∷ out) ≤ left ids out
left-cons-le [] out x = omega arith
left-cons-le (id ∷ ids) out x = ground (arith, left-cons-le ids out x)

left-cons-lt :
    (ids out : List ℕ) (x : ℕ)
    → Occurs x ids
    → member x out ≡ false
    → left ids (x ∷ out) < left ids out
left-cons-lt [] out x o fresh = absurd (not-Occurs-nil o)
left-cons-lt (id ∷ ids) out x o fresh = elim (Occurs-cases o) [
  | inl e ↦
      let here : (x == id) ≡ true = (==_iff x id).1 e in
      let out_before : member id out ≡ false = subst (λ i. member i out ≡ false) e fresh in
      ground (arith, here, out_before, left-cons-le ids out x)
  | inr o' ↦ ground (arith, left-cons-lt ids out x o' fresh)
]

member-append_left : (id : ℕ) (xs ys : List ℕ) → member id (xs ++ ys) ≡ false → member id xs ≡ false
member-append_left id [] ys e = refl
member-append_left id (x ∷ xs) ys e = ground (arith, e, member-append_left id xs ys)

member-append_right :
    (id : ℕ) (xs ys : List ℕ) → member id (xs ++ ys) ≡ false → member id ys ≡ false
member-append_right id [] ys e = e
member-append_right id (x ∷ xs) ys e = ground (arith, e, member-append_right id xs ys)

exclusions-excluded :
    (id : ℕ) (excluded cooling : List ℕ) (last_resort : Bool)
    → member id (routing_exclusions excluded cooling last_resort) ≡ false
    → member id excluded ≡ false
exclusions-excluded id excluded cooling true e = e
exclusions-excluded id excluded [] false e = e
exclusions-excluded id excluded (c ∷ cs) false e = member-append_left id excluded (c ∷ cs) e

exclusions-cooling :
    (id : ℕ) (excluded cooling : List ℕ)
    → member id (routing_exclusions excluded cooling false) ≡ false
    → member id cooling ≡ false
exclusions-cooling id excluded [] e = refl
exclusions-cooling id excluded (c ∷ cs) e = member-append_right id excluded (c ∷ cs) e

-- What routing promises: it answers with one of the channels, and not with one that is excluded.
pub record IsRouting {W : Type 0} (ids : List ℕ) (services : Services W) (config : Config)
    : Type 0 where
  pub select_fresh :
      (w : W) (excluded : List ℕ) (s : Selection)
      → (services.select w excluded).1 ≡ found (some s)
      → Occurs s.upstream ids × (member s.upstream excluded ≡ false)
  pub direct_known : (s : Selection) → config.direct_selection ≡ some s → Occurs s.upstream ids

abbrev resort : List ℕ → Bool → List ℕ → ℕ
resort ids true cooling = 0
resort ids false cooling = suc (left ids cooling)

abbrev stays : Option Selection → ℕ
stays none = 0
stays (some s) = 1

-- How many rounds the choice of a channel can still take, but for the one that ends it.
abbrev pub rounds_left : {W : Type 0} → List ℕ → Run W → ℕ
rounds_left ids r = stays r.stay + left ids r.excluded + resort ids r.last_resort r.cooling

-- Enough fuel for the choice: one more than the rounds that are left.
abbrev pub fuel : {W : Type 0} → List ℕ → Run W → ℕ
fuel ids r = suc (rounds_left ids r)

-- A round that goes on leaves fewer than m rounds.
abbrev Shrinks : {W : Type 0} → List ℕ → ℕ → Run W × Option Choice → Type 0
Shrinks ids m p = elim p.1 [ none ↦ rounds_left ids p.0 < m | some c ↦ Unit {0} ]

module _ {W : Type 0} (ids : List ℕ) (services : Services W) (config : Config) where
  admit_channel-Shrinks :
      (m : ℕ) (r : Run W) (s : Selection) (key : ℕ)
      → rounds_left ids (exclude services config r s) < m
      → Shrinks ids m (admit_channel services config r s key)
  unfolding admit_channel
  admit_channel-Shrinks m r s key h = if_all (Shrinks ids m) (services.admits r.world s).1 _ _ tt h

  prepare_channel-Shrinks :
      (m : ℕ) (r : Run W) (s : Selection) (key : ℕ) (stayed : Bool)
      → rounds_left ids (exclude services config r s) < m
      → Shrinks ids m (prepare_channel services config r s key stayed)
  unfolding prepare_channel log_attempt
  prepare_channel-Shrinks m r s key stayed h =
      if_all (Shrinks ids m) (not (services.prepare r.world s key)) _ _
        (if_all (λ (q : Run W). rounds_left ids (exclude services config q s) < m) r.armed _ _ h h)
        (if_all (Shrinks ids m) (config.response_route && not (services.credentials_match s key)) _
          _ tt (if_all (Shrinks ids m) stayed _ _ tt (admit_channel-Shrinks m r s key h)))

  pick_key-Shrinks :
      (m : ℕ) (r : Run W) (s : Selection) (stayed : Bool)
      → rounds_left ids (exclude services config r s) < m
      → (stayed ≡ false
          → r.last_resort ≡ false
          → config.selector ≡ false
          → rounds_left ids (record r { cooling = s.upstream ∷ r.cooling }) < m)
      → Shrinks ids m (pick_key services config r s stayed)
  unfolding pick_key
  pick_key-Shrinks m r s stayed h cool =
      option_all (Shrinks ids m) (services.pick r.world s r.refused).1 _ _ h (λ (p : ℕ × Bool).
        if_all_eq (Shrinks ids m) (p.1 && not stayed && not r.last_resort && not config.selector) _
          _
          (λ benched.
            cool (ground (arith, benched)) (ground (arith, benched)) (ground (arith, benched)))
          (λ fine.
            prepare_channel-Shrinks m (record r { world = (services.pick r.world s r.refused).0 }) s
              p.0 stayed h))

  try_channel-Shrinks :
      (m : ℕ) (r : Run W) (s : Selection) (stayed : Bool)
      → rounds_left ids (exclude services config r s) < m
      → (stayed ≡ false
          → r.last_resort ≡ false
          → config.selector ≡ false
          → rounds_left ids (record r { cooling = s.upstream ∷ r.cooling }) < m)
      → Shrinks ids m (try_channel services config r s stayed)
  unfolding try_channel
  try_channel-Shrinks m r s stayed h cool =
      if_all (Shrinks ids m) config.response_route _ _
        (option_all (Shrinks ids m) (services.route_key s) _ _ tt
          (λ key. prepare_channel-Shrinks m r s key stayed h))
        (if_all (Shrinks ids m) (is_empty s.keys) _ _ (prepare_channel-Shrinks m r s 0 stayed h)
          (pick_key-Shrinks m r s stayed h cool))

  -- A channel that a round may try: one of the known, and neither excluded nor, while others remain,
  -- one that waits.
  abbrev IsOpen : Run W → Selection → Type 0
  IsOpen r s =
      Occurs s.upstream ids
      × (member s.upstream r.excluded ≡ false)
      × (r.last_resort ≡ false → config.selector ≡ false → member s.upstream r.cooling ≡ false)

  stay-lt :
      (r : Run W) (s : Selection)
      → r.stay ≡ some s
      → rounds_left ids (exclude services config (record r { stay = none }) s) < rounds_left ids r
  stay-lt r s staying = rw staying (omega (arith, left-cons-le ids r.excluded s.upstream))

  excluded-lt :
      (r : Run W) (s : Selection)
      → IsOpen r s
      → rounds_left ids (exclude services config r s) < rounds_left ids r
  excluded-lt r s o = omega (arith, left-cons-lt ids r.excluded s.upstream o.0 o.1)

  cooled-lt :
      (r : Run W) (s : Selection)
      → IsOpen r s
      → r.last_resort ≡ false
      → config.selector ≡ false
      → rounds_left ids (record r { cooling = s.upstream ∷ r.cooling }) < rounds_left ids r
  cooled-lt r s o last direct =
      rw last (omega (arith, left-cons-lt ids r.cooling s.upstream o.0 (o.2 last direct)))

  try_selected-Shrinks :
      (r : Run W) (selected : Option Selection)
      → ((s : Selection) → selected ≡ some s → IsOpen r s)
      → Shrinks ids (rounds_left ids r) (try_selected services config r selected)
  unfolding try_selected
  try_selected-Shrinks r none o =
      elim (Bool-cases (not r.last_resort && not (is_empty r.cooling))) [
        | inl more ↦
            let waiting : r.last_resort ≡ false = ground (arith, more) in
            rw more (rw waiting (omega arith))
        | inr over ↦ rw over tt
      ]
  try_selected-Shrinks r (some s) o =
      try_channel-Shrinks (rounds_left ids r) r s false (excluded-lt r s (o s refl))
        (λ _ last direct. cooled-lt r s (o s refl) last direct)

  module _ (routing : IsRouting ids services config) where
    direct-IsOpen :
        (r : Run W) (s : Selection) (direct : Option Selection)
        → config.selector ≡ true
        → config.direct_selection ≡ direct
        → direct_candidate services config direct r.excluded ≡ some s
        → IsOpen r s
    direct-IsOpen r s none by_selector e h = absurd (cc)
    direct-IsOpen r s (some d) by_selector e h = elim (Bool-cases (member d.upstream r.excluded)) [
      | inl out ↦ absurd (let impossible : none ≡ some s = rw out at h in cc)
      | inr fresh ↦
          let same : some d ≡ some s = rw fresh at h in
          let upstream = ap (λ o. elim o [ none ↦ d.upstream | some t ↦ t.upstream ]) same in
          (
            subst (λ u. Occurs u ids) upstream (routing.direct_known d e),
            subst (λ u. member u r.excluded ≡ false) upstream fresh,
            λ last other. absurd (cc),
          )
    ]

    select_answer :
        (r : Run W) (answer : Selected)
        → (services.select r.world (routing_exclusions r.excluded r.cooling r.last_resort)).1
          ≡ answer
        → Shrinks {W = W} ids (rounds_left ids r) (elim answer [
          | broken ↦ (asked services config r, some selection_failed)
          | found selected ↦ try_selected services config (asked services config r) selected
        ])
    select_answer r broken e = tt
    select_answer r (found selected) e =
        try_selected-Shrinks (asked services config r) selected (λ s h.
          let (known, fresh) = routing.select_fresh r.world _ s (e ∙ ap found h) in
          (
            known,
            exclusions-excluded s.upstream r.excluded r.cooling r.last_resort fresh,
            λ last direct. exclusions-cooling s.upstream r.excluded r.cooling (
                subst (λ b. member s.upstream (routing_exclusions r.excluded r.cooling b) ≡ false)
                  last fresh),
          ))

    select_anew-Shrinks :
        (r : Run W) → Shrinks ids (rounds_left ids r) (select_anew services config r)
    unfolding select_anew
    select_anew-Shrinks r =
        if_all_eq (Shrinks ids (rounds_left ids r)) config.selector _ _
          (λ by_selector.
            try_selected-Shrinks r
              (direct_candidate services config config.direct_selection r.excluded)
              (λ s h. direct-IsOpen r s config.direct_selection by_selector refl h))
          (λ by_weight. select_answer r _ refl)

    select_round-Shrinks :
        (r : Run W) → Shrinks ids (rounds_left ids r) (select_round services config r)
    unfolding select_round
    select_round-Shrinks r =
        option_all_eq (Shrinks ids (rounds_left ids r)) r.stay _ _ (λ anew. select_anew-Shrinks r)
          (λ s staying.
            try_channel-Shrinks (rounds_left ids r) (record r { stay = none }) s true
              (stay-lt r s staying) (λ h. absurd (cc)))

    -- Whatever routing, keys and limiters answer, the choice of a channel comes to an end: with as
    -- much fuel as there are rounds left, it is never cut off.
    pub select_loop-ends :
        (fuel : ℕ) (r : Run W)
        → rounds_left ids r < fuel
        → (c : Choice) × ((select_loop services config fuel r).1 ≡ some c)
    unfolding select_loop
    select_loop-ends zero r h = absurd (omega arith)
    select_loop-ends (suc fuel) r h =
        let next = (select_round services config r).0 in
        option_all_eq (λ (p : Run W × Option Choice). (c : Choice) × (p.1 ≡ some c))
          (select_round services config r).1 _ _
          (λ again.
            let fewer : rounds_left ids next < rounds_left ids r =
              subst
                (λ o. elim o [
                  | none ↦ rounds_left ids next < rounds_left ids r
                  | some c ↦ Unit {0}
                ])
                again (select_round-Shrinks r) in
            select_loop-ends fuel next (omega arith))
          (λ c e. (c, refl))
