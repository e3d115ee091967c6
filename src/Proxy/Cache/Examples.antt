-- ===== src/Proxy/Cache/Examples.antt =====
-- A change, its invalidation and a reload of the routing cache, and the theorems at that run.
use wildtoken.Prelude.{◌≡◌, refl, none, some, [], ◌∷◌, arith, first}
use wildtoken.Proxy.Cache.{advance, drop_value, publish}
use wildtoken.Proxy.Cache.Freshness.{
  Loader, World, Reachable, begins, goes_on, commits, invalidates, drops, observes, publishes,
  cached-current,
}

abbrev round : Loader
round = record { observed = 1; advances = 1; oldest = 1 }

-- One change is committed and has been through Invalidate, and a round has queried since.
abbrev queried : World
queried = record {
  cache = record { value = none; revision = 1 };
  committed = 1;
  advances = 1;
  dropping = 0;
  loaders = round ∷ [];
}

queried-Reachable : Reachable queried
unfolding advance drop_value
queried-Reachable =
    goes_on (goes_on (goes_on (goes_on begins commits) (invalidates (omega arith))) (drops 0 refl))
      observes

abbrev cached : World
cached = record queried { cache = record { value = some 1; revision = 1 } }

cached-Reachable : Reachable cached
unfolding publish
cached-Reachable = goes_on queried-Reachable (publishes round first)

cached-current_example : 1 ≡ cached.committed
cached-current_example = cached-current cached-Reachable (omega arith) refl refl refl
