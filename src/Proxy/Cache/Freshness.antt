-- ===== src/Proxy/Cache/Freshness.antt =====
-- That no snapshot outlives the change that it does not show. The database is counted in committed
-- changes; a load is tagged with the count at its first query, its later queries see no less.
use wildtoken.Prelude.{
  ℕ, suc, ◌+◌, ◌%◌, ◌^◌, ◌≤◌, ◌<◌, ◌≡◌, refl, sym, ap, ◌∙◌, none, some, List, [], ◌∷◌, arith, ◌==◌,
  ==_iff, Bool-cases, Option-cases, some_eq, inl, inr, Occurs, first, later, not-Occurs-nil,
}
use wildtoken.Proxy.Cache.{RoutingCache, new_routing_cache, advance, drop_value, publish, get}

-- A round of getOrLoad: the revision that it observed, when, and the change that it reads from.
pub record Loader : Type 0 where
  pub observed : ℕ
  pub advances : ℕ
  pub oldest : ℕ

pub record World : Type 0 where
  pub cache : RoutingCache ℕ
  -- Changes committed to the database, of these the calls of Invalidate that advanced the
  -- revision, and of these the ones that have not dropped the value yet.
  pub committed : ℕ
  pub advances : ℕ
  pub dropping : ℕ
  pub loaders : List Loader

abbrev pub new_world : World
new_world = record {
  cache = new_routing_cache;
  committed = 0;
  advances = 0;
  dropping = 0;
  loaders = [];
}

-- A change commits, then advances the revision, then drops the value. A round observes the
-- revision, then queries, at any time after, then publishes.
pub data Step (w : World) : World → Type 0 where
  commits : Step w (record w { committed = w.committed + 1 })
  invalidates :
      w.advances < w.committed
      → Step w (record w {
        cache = advance w.cache;
        advances = w.advances + 1;
        dropping = w.dropping + 1;
      })
  drops :
      (n : ℕ) → w.dropping ≡ suc n → Step w (record w { cache = drop_value w.cache; dropping = n })
  observes : Step w (record w {
    loaders =
        record { observed = w.cache.revision; advances = w.advances; oldest = w.committed }
        ∷ w.loaders;
  })
  queries :
      (l : Loader)
      → Occurs l w.loaders
      → Step w (record w { loaders = record l { oldest = w.committed } ∷ w.loaders })
  publishes :
      (l : Loader)
      → Occurs l w.loaders
      → Step w (record w { cache = (publish w.cache l.oldest l.observed).0 })

pub data Reachable : World → Type 0 where
  begins : Reachable new_world
  goes_on : {w v : World} → Reachable w → Step w v → Reachable v

-- A round observed the revision of its time, and reads nothing from before.
pub record IsHonest (w : World) (l : Loader) : Type 0 where
  pub observed : l.observed ≡ l.advances % 2 ^ 64
  pub before : l.advances ≤ w.advances
  pub newer : l.advances ≤ l.oldest
  pub known : l.oldest ≤ w.committed

pub record IsValid (w : World) : Type 0 where
  pub revision : w.cache.revision ≡ w.advances % 2 ^ 64
  pub order : w.advances ≤ w.committed
  pub honest : (l : Loader) → Occurs l w.loaders → IsHonest w l
  -- A value that is behind is about to be dropped.
  pub held : (v : ℕ) → get w.cache ≡ some v → (w.advances ≤ v + w.dropping) × (v ≤ w.committed)

Occurs_cons {ℓ} :
    {A : Type ℓ} (P : A → Type ℓ) (a : A) (xs : List A)
    → P a
    → ((x : A) → Occurs x xs → P x)
    → (x : A) → Occurs x (a ∷ xs)
    → P x
Occurs_cons P a xs p ps x first = p
Occurs_cons P a xs p ps x (later o) = ps x o

-- What a round answers with is as new as what may be held.
publish_answer :
    (w : World) (l : Loader)
    → Occurs l w.loaders
    → w.advances < 2 ^ 64
    → IsValid w
    → (v : ℕ) → (publish w.cache l.oldest l.observed).1 ≡ some v
    → (w.advances ≤ v + w.dropping) × (v ≤ w.committed)
unfolding publish
publish_answer w l o fits i v e = elim (Option-cases w.cache.value) [
  | inr (u, held) ↦
      let same : u ≡ v = some_eq (rw (held, publish) at e) in i.held v (held ∙ ap some same)
  | inl empty ↦ elim (Bool-cases (w.cache.revision == l.observed)) [
    | inr moved ↦ absurd (let never : none ≡ some v = rw (empty, moved, publish) at e in cc (never))
    | inl same ↦
        let h = i.honest l o in
        let fresh : l.oldest ≡ v = some_eq (rw (empty, same, publish) at e) in
        let at_once : w.advances ≡ l.advances =
          omega (arith, (==_iff _ _).0 same, i.revision, h.observed, h.before) in
        (omega (arith, h.newer), omega (arith, h.known))
  ]
]

publish_holds :
    (w : World) (l : Loader) (v : ℕ)
    → get (publish w.cache l.oldest l.observed).0 ≡ some v
    → (publish w.cache l.oldest l.observed).1 ≡ some v
unfolding publish
publish_holds w l v e = elim (Option-cases w.cache.value) [
  | inr (u, held) ↦ rw (held, publish) (sym held ∙ (rw (held, publish) at e))
  | inl empty ↦ elim (Bool-cases (w.cache.revision == l.observed)) [
    | inr moved ↦
        absurd (
          let never : w.cache.value ≡ some v = rw (empty, moved, publish) at e in cc (never, empty))
    | inl same ↦ rw (empty, same, publish) (rw (empty, same, publish) at e)
  ]
]

revision-publish :
    (w : World) (l : Loader) → (publish w.cache l.oldest l.observed).0.revision ≡ w.cache.revision
unfolding publish
revision-publish w l = elim (Option-cases w.cache.value) [
  | inr (u, held) ↦ rw (held, publish) refl
  | inl empty ↦ elim (Bool-cases (w.cache.revision == l.observed)) [
    | inr moved ↦ rw (empty, moved, publish) refl
    | inl same ↦ rw (empty, same, publish) refl
  ]
]

publish-IsValid :
    (w : World) (l : Loader)
    → Occurs l w.loaders
    → w.advances < 2 ^ 64
    → IsValid w
    → IsValid (record w { cache = (publish w.cache l.oldest l.observed).0 })
publish-IsValid w l o fits i = record {
  revision = revision-publish w l ∙ i.revision;
  order = i.order;
  honest = λ k p.
      let h = i.honest k p in
      record { observed = h.observed; before = h.before; newer = h.newer; known = h.known };
  held = λ v e. publish_answer w l o fits i v (publish_holds w l v e);
}

Step-advances : {w v : World} → Step w v → w.advances ≤ v.advances
Step-advances commits = omega arith
Step-advances (invalidates room) = omega arith
Step-advances (drops n e) = omega arith
Step-advances observes = omega arith
Step-advances (queries l o) = omega arith
Step-advances (publishes l o) = omega arith

Step-IsValid : {w v : World} → Step w v → v.advances < 2 ^ 64 → IsValid w → IsValid v
unfolding advance drop_value
Step-IsValid {w} commits fits i = record {
  revision = i.revision;
  order = omega (arith, i.order);
  honest = λ l o.
      let h = i.honest l o in
      record {
        observed = h.observed;
        before = h.before;
        newer = h.newer;
        known = omega (arith, h.known);
      };
  held = λ v e. let (a, b) = i.held v e in (a, omega (arith, b));
}
Step-IsValid {w} (invalidates room) fits i = record {
  revision = omega (arith, i.revision);
  order = omega (arith, room);
  honest = λ l o.
      let h = i.honest l o in
      record {
        observed = h.observed;
        before = omega (arith, h.before);
        newer = h.newer;
        known = h.known;
      };
  held = λ v e. let (a, b) = i.held v e in (omega (arith, a), b);
}
Step-IsValid {w} (drops n e) fits i = record {
  revision = i.revision;
  order = i.order;
  honest = λ l o.
      let h = i.honest l o in
      record { observed = h.observed; before = h.before; newer = h.newer; known = h.known };
  held = λ v e'. absurd (cc (e'));
}
Step-IsValid {w} observes fits i = record {
  revision = i.revision;
  order = i.order;
  honest =
      Occurs_cons (IsHonest _) _ w.loaders
        (record {
          observed = i.revision;
          before = omega arith;
          newer = i.order;
          known = omega arith;
        })
        (λ l o.
          let h = i.honest l o in
          record { observed = h.observed; before = h.before; newer = h.newer; known = h.known });
  held = i.held;
}
Step-IsValid {w} (queries l o) fits i = record {
  revision = i.revision;
  order = i.order;
  honest =
      Occurs_cons (IsHonest _) _ w.loaders
        (let h = i.honest l o in
          record {
            observed = h.observed;
            before = h.before;
            newer = omega (arith, h.before, i.order);
            known = omega arith;
          })
        (λ k p.
          let h = i.honest k p in
          record { observed = h.observed; before = h.before; newer = h.newer; known = h.known });
  held = i.held;
}
Step-IsValid {w} (publishes l o) fits i = publish-IsValid w l o fits i

Reachable-IsValid : {w : World} → Reachable w → w.advances < 2 ^ 64 → IsValid w
Reachable-IsValid begins fits = record {
  revision = refl;
  order = omega arith;
  honest = λ l o. absurd (not-Occurs-nil o);
  held = λ v e. absurd (cc (e));
}
Reachable-IsValid (goes_on r s) fits =
    Step-IsValid s fits (Reachable-IsValid r (omega (arith, fits, Step-advances s)))

-- Before 2 ^ 64 invalidations, once every committed change has been through Invalidate, a cached
-- snapshot shows all of them: none of what it was built from was read before the last change.
pub cached-current :
    {w : World} {v : ℕ}
    → Reachable w
    → w.advances < 2 ^ 64
    → w.advances ≡ w.committed
    → w.dropping ≡ 0
    → get w.cache ≡ some v
    → v ≡ w.committed
cached-current {w} {v} r fits done dropped e =
    let (low, high) = (Reachable-IsValid r fits).held v e in omega (arith, low, high)

-- The same holds of the snapshot that a round of getOrLoad answers with at that time.
pub published-current :
    {w : World} {v : ℕ}
    → Reachable w
    → w.advances < 2 ^ 64
    → w.advances ≡ w.committed
    → w.dropping ≡ 0
    → (l : Loader) → Occurs l w.loaders
    → (publish w.cache l.oldest l.observed).1 ≡ some v
    → v ≡ w.committed
published-current {w} {v} r fits done dropped l o e =
    let (low, high) = publish_answer w l o fits (Reachable-IsValid r fits) v e in
    omega (arith, low, high)
