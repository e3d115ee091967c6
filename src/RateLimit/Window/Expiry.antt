-- ===== src/RateLimit/Window/Expiry.antt =====
-- What `expire`, `compact` and `prune` leave of a window.
use wildtoken.Prelude.{
  ℕ, zero, suc, ◌+◌, ◌≤◌, ◌<◌, ◌≡◌, refl, ◌∙◌, sym, ap, true, List, [], ◌∷◌, arith, ltb, length,
  drop, nil_of_length, length-drop, leb→le, Bool-cases, inl, inr, ◌↔◌,
}
use native.Mathlib.Numerals.{add-one}
use wildtoken.Prelude.Int64
use wildtoken.Prelude.Int64.{max_int}
use wildtoken.Clock.{unix, back}
use wildtoken.RateLimit.Window.{
  Bucket, TokenWindow, live, empty, compact, drain, reclaim, expire, prune,
}
use wildtoken.RateLimit.Window.Valid.{
  sum, sum_since, Ascends, IsValid, recent, recent-id, recent-Ascends, sum-recent, sum_since-le,
  Ascends-weaken,
}

drop-next :
    (h : ℕ) (all : List Bucket) (b : Bucket) (bs : List Bucket)
    → drop h all ≡ b ∷ bs
    → (drop (suc h) all ≡ bs) × (h < length all)
drop-next zero [] b bs e = absurd (cc)
drop-next zero (c ∷ all) b bs e = ground arith
drop-next (suc h) [] b bs e = absurd (cc)
drop-next (suc h) (c ∷ all) b bs e = ground (arith, drop-next h all b bs e)

drop-next_add :
    (h : ℕ) (all : List Bucket) (b : Bucket) (bs : List Bucket)
    → drop h all ≡ b ∷ bs
    → (drop (h + 1) all ≡ bs) × (h + 1 ≤ length all)
drop-next_add h all b bs e = rw add-one (drop-next h all b bs e)

-- A bucket list that starts at `since` or later is counted whole.
sum_since-Ascends : (since : ℕ) (bs : List Bucket) → Ascends since bs → sum_since since bs ≡ sum bs
sum_since-Ascends since bs a = sym (sum-recent since bs) ∙ ap sum (recent-id since bs a)

-- The loop stops at the first bucket that is live: in an ascending slice, all the rest are.
drain-live :
    (since h t : ℕ) (all bs : List Bucket)
    → drop h all ≡ bs
    → h ≤ length all
    → Ascends 0 bs
    → t ≡ sum bs
    → t ≤ max_int
    → (drop (drain since bs h t).0 all ≡ recent since bs)
      × ((drain since bs h t).0 ≤ length all)
      × ((drain since bs h t).1 ≡ sum_since since bs)
unfolding drain
drain-live since h t all [] e k a s m = (e, k, s)
drain-live since h t all (b ∷ bs) e k a s m =
    let next = drop-next_add h all b bs e in
    let wk = Ascends-weaken 0 (suc b.second) bs (omega arith) a.2 in
    let less : Int64.sub t b.count ≡ sum bs =
      Int64.sub_lem t b.count (omega arith) (omega arith) ∙ omega arith in
    let ih =
      drain-live since (h + 1) (Int64.sub t b.count) all bs next.0 next.1 wk less (omega arith) in
    elim (Bool-cases (ltb b.second since)) [
      | inl old ↦ ground (arith, ih)
      | inr kept ↦
          let asc = Ascends-weaken since (suc b.second) bs (ground arith) a.2 in
          ground (arith, recent-id since bs asc, sum_since-Ascends since bs asc)
    ]

reclaim-live :
    (w : TokenWindow)
    → w.head ≤ length w.buckets
    → (live (reclaim w) ≡ live w)
      × ((reclaim w).head ≤ length (reclaim w).buckets)
      × ((reclaim w).total ≡ w.total)
unfolding reclaim compact
reclaim-live w h = ground arith

module _ (w : TokenWindow) (since : ℕ) (v : IsValid w) where
  expire_facts :
      (live (expire w since) ≡ recent since (live w))
      × ((expire w since).head ≤ length (expire w since).buckets)
      × ((expire w since).total ≡ sum_since since (live w))
  unfolding expire
  expire_facts =
      let (h, t) = drain since (live w) w.head w.total in
      let d =
        drain-live since w.head w.total w.buckets (live w) refl v.in_range v.ascends v.counted
          v.no_wrap in
      let r = reclaim-live (record w { head = h; total = t }) d.1 in (r.0 ∙ d.0, r.1, r.2 ∙ d.2)

  -- In a valid window, expiry keeps exactly the live buckets that are not older than the window's start.
  pub live-expire : live (expire w since) ≡ recent since (live w)
  live-expire = expire_facts.0

  -- The running total that expiry keeps is the number of requests left in the window.
  pub total-expire : (expire w since).total ≡ sum_since since (live w)
  total-expire = expire_facts.2

  pub expire-IsValid : IsValid (expire w since)
  expire-IsValid = record {
    in_range = expire_facts.1;
    ascends = rw live-expire (recent-Ascends since 0 (live w) v.ascends);
    counted = rw live-expire (total-expire ∙ sym (sum-recent since (live w)));
    no_wrap = omega (arith, total-expire, sum_since-le since (live w), v.counted);
  }

pub live-compact : (w : TokenWindow) → live (compact w) ≡ live w
unfolding compact
live-compact w = refl

pub compact-IsValid : {w : TokenWindow} → IsValid w → IsValid (compact w)
unfolding compact
compact-IsValid v = record {
  in_range = omega arith;
  ascends = v.ascends;
  counted = v.counted;
  no_wrap = v.no_wrap;
}

-- The live buckets are none exactly when the head stands at the end.
pub empty_iff : (w : TokenWindow) → (empty w ≡ true) ↔ (live w ≡ [])
empty_iff w = (
  λ e. nil_of_length (live w) (omega (arith, length-drop w.head w.buckets, leb→le _ _ e)),
  λ e. none_left (omega (arith, length-drop w.head w.buckets, ap (length {0}) e)),
)
  where
    none_left : length w.buckets ≤ w.head → empty w ≡ true
    none_left h = ground arith

-- `prune` keeps what the window's own span still counts, and leaves a well-formed window.
module _ (w : TokenWindow) (now idle_for : ℕ) (v : IsValid w) where
  pub live-prune : live (prune w now idle_for).0 ≡ recent (unix (back now w.retain)) (live w)
  unfolding prune compact
  live-prune = ground (arith, live-expire w (unix (back now w.retain)) v)

  pub prune-IsValid : IsValid (prune w now idle_for).0
  unfolding prune
  prune-IsValid =
      let e = expire w (unix (back now w.retain)) in
      let ve = expire-IsValid w (unix (back now w.retain)) v in
      elim (Bool-cases (ltb 0 e.head)) [ inl h ↦ rw h (compact-IsValid ve) | inr h ↦ rw h ve ]

pub retain-expire : (w : TokenWindow) (since : ℕ) → (expire w since).retain ≡ w.retain
unfolding expire reclaim compact
retain-expire w since = ground arith

pub retain-prune : (w : TokenWindow) (now idle_for : ℕ) → (prune w now idle_for).0.retain ≡ w.retain
unfolding prune compact
retain-prune w now idle_for = ground (arith, retain-expire w (unix (back now w.retain)))
