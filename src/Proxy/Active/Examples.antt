-- ===== src/Proxy/Active/Examples.antt =====
-- Two requests, of which the first is released, and the theorem at a late update of it.
use wildtoken.Prelude.{◌≡◌, none, arith, ℕ_discrete}
use wildtoken.Prelude.Int64
use wildtoken.Prelude.Assoc
use wildtoken.Proxy.Sse.{codes}
use wildtoken.Proxy.Active.{Request, Registry, new_registry, begin, release, update}
use wildtoken.Proxy.Active.Handles.{stands, goes_on, begins, release-final}

abbrev one_open : Registry
one_open = begin new_registry (codes "unknown") (codes "POST") (codes "messages") 100

abbrev late : Registry
late = begin (release one_open 1) (codes "unknown") (codes "POST") (codes "responses") 200

abbrev renamed : Request → Request
renamed a = record a { attempt = 9 }

release-final_example :
    (Assoc.get ℕ_discrete 1 late.entries ≡ none) × (update late 1 renamed ≡ late)
unfolding begin release Int64.add ℕ_discrete
release-final_example =
    release-final one_open 1 renamed (omega arith) (
      goes_on (begins (codes "unknown") (codes "POST") (codes "responses") 200 (omega arith))
        stands)
