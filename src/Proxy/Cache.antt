-- ===== src/Proxy/Cache.antt =====
-- internal/proxy/matcher.go, type RoutingCache: the snapshot that requests are routed by. The
-- value is of any type; the revision is a uint64. Each function is one step of the code: a section
-- under the lock, or an access to the atomic revision. A load that the database fails returns its
-- error and changes nothing.
pub mod Freshness
mod Examples
use wildtoken.Prelude.{ℕ, ◌+◌, ◌%◌, ◌^◌, Bool, true, false, Option, none, some, ◌==◌, if◌then◌else◌}

pub record RoutingCache {ℓ} (A : Type ℓ) : Type ℓ where
  pub value : Option A
  pub revision : ℕ

abbrev pub new_routing_cache {ℓ} : {A : Type ℓ} → RoutingCache A
new_routing_cache = record { value = none; revision = 0 }

abbrev pub get {ℓ} : {A : Type ℓ} → RoutingCache A → Option A
get c = c.value

-- The first step of Invalidate.
unfoldable pub advance {ℓ} : {A : Type ℓ} → RoutingCache A → RoutingCache A
advance c = record c { revision = (c.revision + 1) % 2 ^ 64 }

-- The second step of Invalidate.
unfoldable pub drop_value {ℓ} : {A : Type ℓ} → RoutingCache A → RoutingCache A
drop_value c = record c { value = none }

-- The locked end of a round of getOrLoad, with what the round loaded and the revision that it
-- observed first: the answer, or `none` for another round.
unfoldable pub publish {ℓ} : {A : Type ℓ} → RoutingCache A → A → ℕ → RoutingCache A × Option A
publish c loaded observed = elim c.value [
  | some held ↦ (c, some held)
  | none ↦
      (if c.revision == observed
        then (record c { value = some loaded }, some loaded)
        else (c, none))
]

abbrev pub is_cached {ℓ} : {A : Type ℓ} → RoutingCache A → Bool
is_cached c = elim (get c) [ none ↦ false | some held ↦ true ]
