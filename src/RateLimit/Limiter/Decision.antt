-- ===== src/RateLimit/Limiter/Decision.antt =====
-- What one check decides, and that it keeps the limiter well formed.
use wildtoken.Prelude.{
  some_eq, ℕ, ◌+◌, ◌≤◌, ◌<◌, ◌≡◌, refl, subst, sym, ap, ◌&&◌, ◌∙◌, false, Option, none, some, List,
  [], arith, leb, ltb, if◌then◌else◌, Bool-cases, inl, inr, Option-cases, ℕ_discrete,
}
use wildtoken.Prelude.Int64
use wildtoken.Prelude.Int64.{max_int}
use wildtoken.Prelude.Assoc
use wildtoken.Clock.{unix, back}
use wildtoken.RateLimit.Window.{Bucket, TokenWindow, live, expire}
use wildtoken.RateLimit.Window.Valid.{IsValid, sum_since, UpTo, recent-UpTo, sum_since-recent}
use wildtoken.RateLimit.Window.Expiry.{live-expire, total-expire, expire-IsValid, retain-expire}
use wildtoken.RateLimit.Window.Counting.{
  record_request-IsValid, retain-record_request, newest-UpTo, record_request-UpTo,
  sum_since-record_request,
}
use wildtoken.RateLimit.Limiter.{RateLimit, Limiter, fresh_window, get_or_create, admit, check}

-- The live buckets of a slot of the map.
abbrev pub live_of : Option TokenWindow → List Bucket
live_of none = []
live_of (some w) = live w

-- The requests that the limiter counts for a token from a second on.
abbrev pub requests_since : ℕ → Limiter → ℕ → ℕ
requests_since q l token = sum_since q (live_of (Assoc.get ℕ_discrete token l))

-- Every window of the limiter is well formed.
pub record AllValid (l : Limiter) : Type 0 where
  pub at_token : (token : ℕ) (w : TokenWindow) → Assoc.get ℕ_discrete token l ≡ some w → IsValid w

pub fresh-IsValid : (retain now : ℕ) → IsValid (fresh_window retain now)
fresh-IsValid retain now = omega arith

-- The second from which a check counts.
abbrev pub since : RateLimit → ℕ → ℕ
since limit now = unix (back now limit.window)

module _ (w : TokenWindow) (limit : RateLimit) (now : ℕ) (v : IsValid w)
    (fits : limit.requests ≤ max_int) where
  -- The window as the check stamps it.
  abbrev stamped : TokenWindow
  stamped = record w { retain = limit.window; last_used = now }

  abbrev expired : TokenWindow
  expired = expire stamped (since limit now)

  stamped-IsValid : IsValid stamped
  stamped-IsValid = record {
    in_range = v.in_range;
    ascends = v.ascends;
    counted = v.counted;
    no_wrap = v.no_wrap;
  }

  expired-IsValid : IsValid expired
  expired-IsValid = expire-IsValid stamped (since limit now) stamped-IsValid

  over-limit :
      Int64.le limit.requests expired.total
      ≡ leb limit.requests (sum_since (since limit now) (live w))
  over-limit =
      Int64.le_lem limit.requests expired.total fits expired-IsValid.no_wrap
      ∙ ap (leb limit.requests) (total-expire stamped (since limit now) stamped-IsValid)

  below : Int64.le limit.requests expired.total ≡ false → expired.total < max_int
  below fine =
      ground (arith, over-limit, total-expire stamped (since limit now) stamped-IsValid, fits, fine)

  pub admit_decides :
      (admit w limit now).1 ≡ ltb (sum_since (since limit now) (live w)) limit.requests
  unfolding admit
  admit_decides = ground (arith, over-limit)

  pub admit-IsValid : IsValid (admit w limit now).0
  unfolding admit
  admit-IsValid = elim (Bool-cases (Int64.le limit.requests expired.total)) [
    | inl over ↦ rw over expired-IsValid
    | inr fine ↦ rw fine (record_request-IsValid expired (unix now) expired-IsValid (below fine))
  ]

  -- The counts that a check leaves, from its own start on: an admitted request is one more, counted
  -- at its second or at a later one that the window has seen.
  pub sum_since-admit :
      (q : ℕ)
      → since limit now ≤ q
      → UpTo (unix now) (live w)
      → sum_since q (live (admit w limit now).0)
        ≡ sum_since q (live w) + (if (admit w limit now).1 && leb q (unix now) then 1 else 0)
  unfolding admit
  sum_since-admit q h u =
      let kept = live-expire stamped (since limit now) stamped-IsValid in
      let same = ap (sum_since q) kept ∙ sum_since-recent (since limit now) q (live w) h in
      elim (Bool-cases (Int64.le limit.requests expired.total)) [
        | inl over ↦ rw over (omega (arith, same))
        | inr fine ↦
            let top =
              newest-UpTo (unix now) (live expired)
                (rw kept (recent-UpTo (since limit now) (unix now) (live w) u)) in
            let more = sum_since-record_request expired (unix now) expired-IsValid (below fine) q in
            rw fine (ground (arith, same, top, more))
      ]

  pub admit-UpTo : UpTo (unix now) (live w) → UpTo (unix now) (live (admit w limit now).0)
  unfolding admit
  admit-UpTo u =
      let kept = live-expire stamped (since limit now) stamped-IsValid in
      let u' : UpTo (unix now) (live expired) =
        rw kept (recent-UpTo (since limit now) (unix now) (live w) u) in
      elim (Bool-cases (Int64.le limit.requests expired.total)) [
        | inl over ↦ rw over u'
        | inr fine ↦
            rw fine
              (record_request-UpTo expired (unix now) expired-IsValid (unix now) (omega arith) u')
      ]

put-AllValid :
    (l : Limiter) (token : ℕ) (new : TokenWindow) (t : ℕ) (w : TokenWindow)
    → AllValid l
    → IsValid new
    → Assoc.get ℕ_discrete t (Assoc.put ℕ_discrete token new l) ≡ some w
    → IsValid w
put-AllValid l token new t w v mine e = elim (ℕ_discrete token t) [
  | yes same ↦
      let stored =
        sym (Assoc.get-put_self ℕ_discrete token new l)
        ∙ subst (λ k. Assoc.get ℕ_discrete k (Assoc.put ℕ_discrete token new l) ≡ some w) (sym same)
            e in
      subst IsValid (some_eq stored) mine
  | no other ↦ v.at_token t w (sym (Assoc.get-put_ne ℕ_discrete token t new l other) ∙ e)
]

slot-IsValid :
    (l : Limiter) (token retain now : ℕ) → AllValid l → IsValid (get_or_create l token retain now)
unfolding get_or_create
slot-IsValid l token retain now v = elim (Option-cases (Assoc.get ℕ_discrete token l)) [
  | inl e ↦ rw e (fresh-IsValid retain now)
  | inr (w, e) ↦ rw e (v.at_token token w e)
]

slot-live :
    (l : Limiter) (token retain now : ℕ)
    → live (get_or_create l token retain now) ≡ live_of (Assoc.get ℕ_discrete token l)
unfolding get_or_create
slot-live l token retain now = elim (Option-cases (Assoc.get ℕ_discrete token l)) [
  | inl e ↦ rw e refl
  | inr (w, e) ↦ rw e refl
]

module _ (l : Limiter) (token : ℕ) (limit : RateLimit) (now : ℕ) (v : AllValid l)
    (fits : limit.requests ≤ max_int) where
  -- With valid windows and a limit that is an int64, a check admits a request exactly when the token's requests since the start of the window, in
  -- whole seconds, are fewer than the limit; a token that was never seen has none.
  pub check_decides :
      (check l token (some limit) now).1
      ≡ ltb (requests_since (since limit now) l token) limit.requests
  unfolding check
  check_decides =
      admit_decides _ limit now (slot-IsValid l token limit.window now v) fits
      ∙ ap (λ bs. ltb (sum_since (since limit now) bs) limit.requests)
          (slot-live l token limit.window now)

  -- A check leaves every window valid.
  pub check-AllValid : AllValid (check l token (some limit) now).0
  unfolding check
  check-AllValid = record {
    at_token = λ t w e.
        let mine = admit-IsValid _ limit now (slot-IsValid l token limit.window now v) fits in
        put-AllValid l token _ t w v mine e;
  }

pub retain-admit :
    (w : TokenWindow) (limit : RateLimit) (now : ℕ) → (admit w limit now).0.retain ≡ limit.window
unfolding admit
retain-admit w limit now =
    let e = record w { retain = limit.window; last_used = now } in
    ground (
      arith,
      retain-expire e (since limit now),
      retain-record_request (expire e (since limit now)) (unix now),
    )
