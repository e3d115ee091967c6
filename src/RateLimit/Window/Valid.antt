-- ===== src/RateLimit/Window/Valid.antt =====
-- What a window means: the number of counted requests from a second on; and when it is well formed.
use wildtoken.Prelude.{
  ℕ, suc, ◌+◌, ◌≤◌, ◌<◌, ◌≡◌, refl, List, [], ◌∷◌, arith, leb, if◌then◌else◌, length, keep, All,
}
use wildtoken.Prelude.Int64.{max_int}
use wildtoken.RateLimit.Window.{Bucket, TokenWindow, live}

-- The requests in the buckets, and those from second `since` on.
abbrev pub sum : List Bucket → ℕ
sum [] = 0
sum (b ∷ bs) = b.count + sum bs

abbrev pub sum_since : ℕ → List Bucket → ℕ
sum_since since [] = 0
sum_since since (b ∷ bs) = (if leb since b.second then b.count else 0) + sum_since since bs

-- Seconds ascend strictly from `lo` on, and no bucket is empty.
abbrev pub Ascends : ℕ → List Bucket → Type 0
Ascends lo [] = Unit {0}
Ascends lo (b ∷ bs) = (lo ≤ b.second) × (0 < b.count) × Ascends (suc b.second) bs

pub record IsValid (w : TokenWindow) : Type 0 where
  pub in_range : w.head ≤ length w.buckets
  pub ascends : Ascends 0 (live w)
  pub counted : w.total ≡ sum (live w)
  pub no_wrap : w.total ≤ max_int

-- The buckets that are not older than `since`.
abbrev pub recent : ℕ → List Bucket → List Bucket
recent since = keep (λ b. leb since b.second)

pub Ascends-weaken : (lo hi : ℕ) (bs : List Bucket) → lo ≤ hi → Ascends hi bs → Ascends lo bs
Ascends-weaken lo hi [] h a = tt
Ascends-weaken lo hi (b ∷ bs) h a = (omega arith, a.1, a.2)

pub recent-Ascends :
    (since lo : ℕ) (bs : List Bucket) → Ascends lo bs → Ascends lo (recent since bs)
recent-Ascends since lo [] a = tt
recent-Ascends since lo (b ∷ bs) a = ground (
  arith,
  recent-Ascends since (suc b.second) bs a.2,
  Ascends-weaken lo (suc b.second) (recent since bs),
)

pub sum-recent : (since : ℕ) (bs : List Bucket) → sum (recent since bs) ≡ sum_since since bs
sum-recent since [] = refl
sum-recent since (b ∷ bs) = ground (arith, sum-recent since bs)

pub sum_since-le : (since : ℕ) (bs : List Bucket) → sum_since since bs ≤ sum bs
sum_since-le since [] = omega arith
sum_since-le since (b ∷ bs) = ground (arith, sum_since-le since bs)

pub recent-id : (since : ℕ) (bs : List Bucket) → Ascends since bs → recent since bs ≡ bs
recent-id since [] a = refl
recent-id since (b ∷ bs) a =
    ground (arith, recent-id since bs, Ascends-weaken since (suc b.second) bs)

-- Counting from a later second does not see what was dropped.
pub sum_since-recent :
    (since q : ℕ) (bs : List Bucket) → since ≤ q → sum_since q (recent since bs) ≡ sum_since q bs
sum_since-recent since q [] h = refl
sum_since-recent since q (b ∷ bs) h = ground (arith, sum_since-recent since q bs)

-- No bucket is younger than second `t`.
abbrev pub UpTo : ℕ → List Bucket → Type 0
UpTo t = All (λ b. b.second ≤ t)

pub recent-UpTo : (since t : ℕ) (bs : List Bucket) → UpTo t bs → UpTo t (recent since bs)
recent-UpTo since t [] u = tt
recent-UpTo since t (b ∷ bs) u = ground (arith, recent-UpTo since t bs u.1)

pub UpTo-mono : (s t : ℕ) (bs : List Bucket) → s ≤ t → UpTo s bs → UpTo t bs
UpTo-mono s t [] h u = tt
UpTo-mono s t (b ∷ bs) h u = (omega arith, UpTo-mono s t bs h u.1)
