-- ===== src/RateLimit/Window.antt =====
-- internal/ratelimit/limiter.go, type tokenWindow: counts of one token's requests by second.
-- The slice `buckets` is a list; the part from `head` on is live. Counts are int64 patterns.
pub mod Valid
pub mod Expiry
pub mod Counting
use wildtoken.Prelude.{
  ℕ, suc, ◌+◌, ◌*◌, ◌≤◌, Bool, true, false, ◌&&◌, Option, none, some, List, [], ◌∷◌, ◌++◌, ltb, leb,
  if◌then◌else◌, length, drop,
}
use wildtoken.Prelude.Int64
use wildtoken.Clock.{unix, back, elapsed}

pub record Bucket : Type 0 where
  pub second : ℕ
  pub count : ℕ

pub record TokenWindow : Type 0 where
  pub buckets : List Bucket
  pub head : ℕ
  pub total : ℕ
  pub retain : ℕ
  pub last_used : ℕ

-- The buckets from `head` on.
abbrev pub live : TokenWindow → List Bucket
live w = drop w.head w.buckets

abbrev pub empty : TokenWindow → Bool
empty w = leb (length w.buckets) w.head

pub compact : TokenWindow → TokenWindow
compact w = record w { buckets = live w; head = 0 }

-- The loop of `expire` over the buckets from `head` on: the new head, and the new total.
pub drain : ℕ → List Bucket → ℕ → ℕ → ℕ × ℕ
drain since [] head total = (head, total)
drain since (b ∷ bs) head total =
    let rest = drain since bs (head + 1) (Int64.sub total b.count) in
    if ltb b.second since then rest else (head, total)

-- The reclaiming test at the end of `expire`.
reclaim : TokenWindow → TokenWindow
unfolding compact
reclaim w = if ltb 0 w.head && leb (length w.buckets) (w.head * 2) then compact w else w

unfoldable pub expire : TokenWindow → ℕ → TokenWindow
unfolding drain reclaim
expire w since =
    let (head, total) = drain since (live w) w.head w.total in
    reclaim (record w { head = head; total = total })

-- One more request in the last bucket: `newest.count++`.
pub bump_last : List Bucket → List Bucket
bump_last [] = []
bump_last (b ∷ []) = record b { count = Int64.add b.count 1 } ∷ []
bump_last (b ∷ c ∷ bs) = b ∷ bump_last (c ∷ bs)

pub last? : List Bucket → Option Bucket
last? [] = none
last? (b ∷ []) = some b
last? (b ∷ c ∷ bs) = last? (c ∷ bs)

-- Whether the request joins the newest bucket: there is a live one, not older than the request.
joins : TokenWindow → ℕ → Bool
unfolding last?
joins w second = elim (last? w.buckets) [
  | none ↦ false
  | some newest ↦ (if empty w then false else leb second newest.second)
]

unfoldable pub record_request : TokenWindow → ℕ → TokenWindow
unfolding joins bump_last
record_request w second = record w {
  total = Int64.add w.total 1;
  buckets =
      if joins w second
      then bump_last w.buckets
      else w.buckets ++ (record { second = second; count = 1 } ∷ []);
}

-- `prune`: the new window, and whether it may be reclaimed.
unfoldable pub prune : TokenWindow → ℕ → ℕ → TokenWindow × Bool
unfolding expire compact
prune w now idle_for =
    let expired = expire w (unix (back now w.retain)) in
    let pruned = if ltb 0 expired.head then compact expired else expired in
    (pruned, (if empty pruned then elapsed now pruned.last_used idle_for else false))
