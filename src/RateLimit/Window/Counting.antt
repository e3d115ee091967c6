-- ===== src/RateLimit/Window/Counting.antt =====
-- What `record` adds to a window.
use wildtoken.Prelude.{
  ℕ, zero, suc, ◌+◌, ◌≤◌, ◌<◌, ◌≡◌, refl, ◌∙◌, sym, ap, false, some, List, [], ◌∷◌, ◌++◌, arith,
  leb, ltb, length, drop, drop-append_le, if◌then◌else◌, Bool-cases, inl, inr, length-append, max,
  length-drop, nil_of_length, ltb→lt, ltb→le,
}
use wildtoken.Prelude.Int64
use wildtoken.Prelude.Int64.{max_int}
use wildtoken.RateLimit.Window.{Bucket, TokenWindow, live, bump_last, last?, joins, record_request}
use wildtoken.RateLimit.Window.Valid.{sum, sum_since, Ascends, IsValid, UpTo}

-- The second of the newest bucket, 0 when there is none.
abbrev pub newest : List Bucket → ℕ
newest [] = 0
newest (b ∷ []) = b.second
newest (b ∷ c ∷ bs) = newest (c ∷ bs)

-- The second that a request is counted under: that of the newest bucket, if the clock went back.
abbrev pub counted_at : List Bucket → ℕ → ℕ
counted_at bs second = max (newest bs) second

-- `record` over the live buckets alone.
abbrev added : List Bucket → ℕ → List Bucket
added [] second = record { second = second; count = 1 } ∷ []
added (b ∷ []) second =
    if leb second b.second
    then record b { count = Int64.add b.count 1 } ∷ []
    else b ∷ record { second = second; count = 1 } ∷ []
added (b ∷ c ∷ bs) second = b ∷ added (c ∷ bs) second

sum-added : (bs : List Bucket) (second : ℕ) → sum bs < max_int → sum (added bs second) ≡ sum bs + 1
sum-added [] second h = omega arith
sum-added (b ∷ []) second h = ground (arith, Int64.add_lem b.count 1)
sum-added (b ∷ c ∷ bs) second h = omega (arith, sum-added (c ∷ bs) second (omega arith))

sum_since-added :
    (q : ℕ) (bs : List Bucket) (second : ℕ)
    → sum bs < max_int
    → sum_since q (added bs second)
      ≡ sum_since q bs + (if leb q (counted_at bs second) then 1 else 0)
sum_since-added q [] second h = ground arith
sum_since-added q (b ∷ []) second h = ground (arith, Int64.add_lem b.count 1)
sum_since-added q (b ∷ c ∷ bs) second h =
    ground (arith, sum_since-added q (c ∷ bs) second (omega arith))

pub newest-UpTo : (t : ℕ) (bs : List Bucket) → UpTo t bs → newest bs ≤ t
newest-UpTo t [] u = omega arith
newest-UpTo t (b ∷ []) u = u.0
newest-UpTo t (b ∷ c ∷ bs) u = newest-UpTo t (c ∷ bs) u.1

added-UpTo :
    (t : ℕ) (bs : List Bucket) (second : ℕ) → second ≤ t → UpTo t bs → UpTo t (added bs second)
added-UpTo t [] second h u = (h, tt)
added-UpTo t (b ∷ []) second h u = ground arith
added-UpTo t (b ∷ c ∷ bs) second h u = (u.0, added-UpTo t (c ∷ bs) second h u.1)

newest-ge : (lo : ℕ) (b : Bucket) (bs : List Bucket) → Ascends lo (b ∷ bs) → lo ≤ newest (b ∷ bs)
newest-ge lo b [] a = omega arith
newest-ge lo b (c ∷ bs) a = omega (arith, newest-ge (suc b.second) c bs a.2)

added-Ascends :
    (lo : ℕ) (bs : List Bucket) (second : ℕ)
    → sum bs < max_int
    → lo ≤ counted_at bs second
    → Ascends lo bs
    → Ascends lo (added bs second)
added-Ascends lo [] second h k a = ground arith
added-Ascends lo (b ∷ []) second h k a = ground (arith, Int64.add_lem b.count 1)
added-Ascends lo (b ∷ c ∷ bs) second h k a = (
  a.0,
  a.1,
  added-Ascends (suc b.second) (c ∷ bs) second (omega arith)
      (omega (arith, newest-ge (suc b.second) c bs a.2)) a.2,
)

-- The newest bucket and its increment lie in the live part, where that has any.
length-bump_last : (bs : List Bucket) → length (bump_last bs) ≡ length bs
unfolding bump_last
length-bump_last [] = refl
length-bump_last (b ∷ []) = refl
length-bump_last (b ∷ c ∷ bs) = ap suc (length-bump_last (c ∷ bs))

drop-bump_last :
    (h : ℕ) (bs : List Bucket) → h < length bs → drop h (bump_last bs) ≡ bump_last (drop h bs)
unfolding bump_last
drop-bump_last zero bs k = refl
drop-bump_last (suc h) [] k = absurd (omega arith)
drop-bump_last (suc h) (b ∷ []) k = absurd (omega arith)
drop-bump_last (suc h) (b ∷ c ∷ bs) k = drop-bump_last h (c ∷ bs) (omega arith)

last?-drop : (h : ℕ) (bs : List Bucket) → h < length bs → last? (drop h bs) ≡ last? bs
unfolding last?
last?-drop zero bs k = refl
last?-drop (suc h) [] k = absurd (omega arith)
last?-drop (suc h) (b ∷ []) k = absurd (omega arith)
last?-drop (suc h) (b ∷ c ∷ bs) k = last?-drop h (c ∷ bs) (omega arith)

added-last? :
    (bs : List Bucket) (second : ℕ)
    → 0 < length bs
    → (n : Bucket) × (last? bs ≡ some n)
      × (added bs second ≡ (
          if leb second n.second
          then bump_last bs
          else bs ++ record { second = second; count = 1 } ∷ []))
unfolding last? bump_last
added-last? [] second h = absurd (omega arith)
added-last? (b ∷ []) second h = (b, refl, ground arith)
added-last? (b ∷ c ∷ bs) second h =
    let (n, e, f) = added-last? (c ∷ bs) second (omega arith) in (n, e, ground (arith, f))

joins-live :
    (w : TokenWindow) (second : ℕ) (n : Bucket)
    → w.head < length w.buckets
    → last? w.buckets ≡ some n
    → joins w second ≡ leb second n.second
unfolding joins
joins-live w second n h e = rw (e, joins) (ground arith)

joins-empty : (w : TokenWindow) (second : ℕ) → length w.buckets ≤ w.head → joins w second ≡ false
unfolding joins
joins-empty w second h = ground arith

module _ (w : TokenWindow) (second : ℕ) (v : IsValid w) where
  live-record_full :
      w.head < length w.buckets → live (record_request w second) ≡ added (live w) second
  unfolding record_request
  live-record_full h =
      let (n, e, f) = added-last? (live w) second (omega (arith, length-drop w.head w.buckets)) in
      let j = joins-live w second n h (sym (last?-drop w.head w.buckets h) ∙ e) in
      elim (Bool-cases (leb second n.second)) [
        | inl older ↦
            rw (j ∙ older) (drop-bump_last w.head w.buckets h ∙ sym (ground (arith, f, older)))
        | inr newer ↦
            rw (j ∙ newer)
              (drop-append_le w.head w.buckets _ v.in_range ∙ sym (ground (arith, f, newer)))
      ]

  live-record_empty :
      length w.buckets ≤ w.head → live (record_request w second) ≡ added (live w) second
  unfolding record_request
  live-record_empty h =
      let none_left = nil_of_length (live w) (omega (arith, length-drop w.head w.buckets)) in
      rw (joins-empty w second h)
        (drop-append_le w.head w.buckets _ v.in_range ∙ ground (arith, none_left))

  -- The live buckets after `record`: one more request in the newest, or one more bucket.
  pub live-record_request : live (record_request w second) ≡ added (live w) second
  live-record_request = elim (Bool-cases (ltb w.head (length w.buckets))) [
    | inl h ↦ live-record_full (ltb→lt _ _ h)
    | inr h ↦ live-record_empty (ltb→le _ _ h)
  ]

  module _ (room : w.total < max_int) where
    in_range-record_request :
        (record_request w second).head ≤ length (record_request w second).buckets
    unfolding record_request
    in_range-record_request = ground (
      arith,
      length-bump_last w.buckets,
      length-append w.buckets (record { second = second; count = 1 } ∷ []),
      v.in_range,
    )

    total-record_request : (record_request w second).total ≡ w.total + 1
    unfolding record_request
    total-record_request = Int64.add_lem w.total 1 (omega arith)

    pub record_request-IsValid : IsValid (record_request w second)
    record_request-IsValid = record {
      in_range = in_range-record_request;
      ascends =
          rw live-record_request
            (added-Ascends 0 (live w) second (omega (arith, v.counted)) (omega arith) v.ascends);
      counted = rw live-record_request (
          omega (
            arith,
            total-record_request,
            v.counted,
            sum-added (live w) second (omega (arith, v.counted)),
          ));
      no_wrap = omega (arith, total-record_request);
    }

    -- From any second on, `record` adds one request at the second that it is counted under.
    pub sum_since-record_request :
        (q : ℕ)
        → sum_since q (live (record_request w second))
          ≡ sum_since q (live w) + (if leb q (counted_at (live w) second) then 1 else 0)
    sum_since-record_request q =
        rw live-record_request (sum_since-added q (live w) second (omega (arith, v.counted)))

  pub record_request-UpTo :
      (t : ℕ) → second ≤ t → UpTo t (live w) → UpTo t (live (record_request w second))
  record_request-UpTo t h u = rw live-record_request (added-UpTo t (live w) second h u)

pub retain-record_request :
    (w : TokenWindow) (second : ℕ) → (record_request w second).retain ≡ w.retain
unfolding record_request
retain-record_request w second = refl
