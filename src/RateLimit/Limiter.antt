-- ===== src/RateLimit/Limiter.antt =====
-- internal/ratelimit/limiter.go, type Limiter: one window for each token.
-- A call reads the clock once and holds the window's lock from then on, so it is one step; the
-- clock's reading is an argument. `cleanup` takes two steps, `scan` and `reclaim`, between which
-- checks may run.
pub mod Decision
pub mod Reclaim
pub mod Sliding
use wildtoken.Prelude.{
  ℕ, ◌*◌, Bool, true, false, Option, none, some, List, [], ◌∷◌, leb, if◌then◌else◌, ℕ_discrete,
}
use wildtoken.Prelude.Int64
use wildtoken.Prelude.Assoc
use wildtoken.Prelude.Assoc.{Assoc}
use wildtoken.Clock.{unix, back, minute}
use wildtoken.RateLimit.Window.{TokenWindow, empty, expire, record_request, prune}

-- type RateLimit of parser.go
pub record RateLimit : Type 0 where
  pub requests : ℕ
  pub window : ℕ

abbrev pub Limiter : Type 0
Limiter = Assoc ℕ TokenWindow

abbrev pub cleanup_interval : ℕ
cleanup_interval = 5 * minute

abbrev pub fresh_window : ℕ → ℕ → TokenWindow
fresh_window retain now = record {
  buckets = [];
  head = 0;
  total = 0;
  retain = retain;
  last_used = now;
}

abbrev pub found_or_fresh : Option TokenWindow → ℕ → ℕ → TokenWindow
found_or_fresh (some w) retain now = w
found_or_fresh none retain now = fresh_window retain now

unfoldable pub get_or_create : Limiter → ℕ → ℕ → ℕ → TokenWindow
get_or_create l token retain now = found_or_fresh (Assoc.get ℕ_discrete token l) retain now

-- `Check` once it holds the window.
unfoldable pub admit : TokenWindow → RateLimit → ℕ → TokenWindow × Bool
admit w limit now =
    let expired =
      expire (record w { retain = limit.window; last_used = now }) (unix (back now limit.window)) in
    if Int64.le limit.requests expired.total
    then (expired, false)
    else (record_request expired (unix now), true)

unfoldable pub check : Limiter → ℕ → Option RateLimit → ℕ → Limiter × Bool
unfolding get_or_create
check l token none now = (l, true)
check l token (some limit) now =
    let (w, admitted) = admit (get_or_create l token limit.window now) limit now in
    (Assoc.put ℕ_discrete token w l, admitted)

-- The first half of `cleanup`: every window is pruned, and the idle ones are listed.
unfoldable pub scan : Limiter → ℕ → Limiter × List ℕ
scan [] now = ([], [])
scan ((token, w) ∷ l) now =
    let (pruned, idle) = prune w now cleanup_interval in
    let (rest, ids) = scan l now in ((token, pruned) ∷ rest, (if idle then token ∷ ids else ids))

-- The second half, under the map's lock: a listed window goes if it is still empty.
unfoldable pub reclaim_one : Limiter → ℕ → Limiter
reclaim_one l token = elim (Assoc.get ℕ_discrete token l) [
  | none ↦ l
  | some w ↦ (if empty w then Assoc.delete ℕ_discrete token l else l)
]

unfoldable pub reclaim : List ℕ → Limiter → Limiter
unfolding reclaim_one
reclaim [] l = l
reclaim (token ∷ ids) l = reclaim ids (reclaim_one l token)

unfoldable pub cleanup : Limiter → ℕ → Limiter
unfolding scan reclaim
cleanup l now = let (pruned, ids) = scan l now in reclaim ids pruned
