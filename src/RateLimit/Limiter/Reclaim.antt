-- ===== src/RateLimit/Limiter/Reclaim.antt =====
-- What the two halves of `cleanup` keep.
use wildtoken.Prelude.{
  some_eq, ℕ, ◌≡◌, refl, subst, sym, ap, ◌∙◌, Option, none, some, List, [], ◌∷◌, arith, Bool-cases,
  inl, inr, Option-cases, ℕ_discrete,
}
use wildtoken.Prelude.Assoc
use wildtoken.RateLimit.Window.{TokenWindow, empty, prune}
use wildtoken.RateLimit.Window.Valid.{IsValid}
use wildtoken.RateLimit.Window.Expiry.{empty_iff, prune-IsValid}
use wildtoken.RateLimit.Limiter.{Limiter, scan, reclaim_one, reclaim, cleanup_interval}
use wildtoken.RateLimit.Limiter.Decision.{live_of, AllValid}

live-reclaim_one :
    (l : Limiter) (id token : ℕ)
    → live_of (Assoc.get ℕ_discrete token (reclaim_one l id))
      ≡ live_of (Assoc.get ℕ_discrete token l)
unfolding reclaim_one
live-reclaim_one l id token = elim (Option-cases (Assoc.get ℕ_discrete id l)) [
  | inl e ↦ rw (e, reclaim_one) refl
  | inr (w, e) ↦ elim (Bool-cases (empty w)) [
    | inl gone ↦
        rw (e, reclaim_one, gone)
          (ground (arith, e, (empty_iff w).0 gone, Assoc.get-delete ℕ_discrete id token l))
    | inr busy ↦ rw (e, reclaim_one, busy) refl
  ]
]

-- Reclaiming any list of tokens, whatever happened since it was made, loses no count: every
-- token's live buckets stay as they are.
pub live-reclaim :
    (ids : List ℕ) (l : Limiter) (token : ℕ)
    → live_of (Assoc.get ℕ_discrete token (reclaim ids l)) ≡ live_of (Assoc.get ℕ_discrete token l)
unfolding reclaim
live-reclaim [] l token = refl
live-reclaim (id ∷ ids) l token =
    live-reclaim ids (reclaim_one l id) token ∙ live-reclaim_one l id token

-- A slot after the first half: the pruned window, if there was one.
abbrev pub pruned : Option TokenWindow → ℕ → Option TokenWindow
pruned none now = none
pruned (some w) now = some (prune w now cleanup_interval).0

pub get-scan :
    (l : Limiter) (now token : ℕ)
    → Assoc.get ℕ_discrete token (scan l now).0 ≡ pruned (Assoc.get ℕ_discrete token l) now
unfolding scan Assoc.get
get-scan [] now token = refl
get-scan ((t, w) ∷ l) now token = ground (arith, get-scan l now token)

pub scan-AllValid : (l : Limiter) (now : ℕ) → AllValid l → AllValid (scan l now).0
scan-AllValid l now v = record {
  at_token = λ token w e. elim (Option-cases (Assoc.get ℕ_discrete token l)) [
    | inl no_window ↦ absurd (cc (e, get-scan l now token, ap (λ o. pruned o now) no_window))
    | inr (old, found) ↦
        subst IsValid
          (some_eq (sym (ap (λ o. pruned o now) found) ∙ sym (get-scan l now token) ∙ e))
          (prune-IsValid old now cleanup_interval (v.at_token token old found))
  ];
}

-- A window that `reclaim` leaves is one that was there.
get-reclaim_one :
    (l : Limiter) (id token : ℕ) (w : TokenWindow)
    → Assoc.get ℕ_discrete token (reclaim_one l id) ≡ some w
    → Assoc.get ℕ_discrete token l ≡ some w
unfolding reclaim_one
get-reclaim_one l id token w h = elim (Option-cases (Assoc.get ℕ_discrete id l)) [
  | inl e ↦ rw (e, reclaim_one) at h
  | inr (old, e) ↦ ground (arith, e, h, Assoc.get-delete ℕ_discrete id token l)
]

pub get-reclaim :
    (ids : List ℕ) (l : Limiter) (token : ℕ) (w : TokenWindow)
    → Assoc.get ℕ_discrete token (reclaim ids l) ≡ some w
    → Assoc.get ℕ_discrete token l ≡ some w
unfolding reclaim
get-reclaim [] l token w h = h
get-reclaim (id ∷ ids) l token w h =
    get-reclaim_one l id token w (get-reclaim ids (reclaim_one l id) token w h)

pub reclaim-AllValid : (ids : List ℕ) (l : Limiter) → AllValid l → AllValid (reclaim ids l)
reclaim-AllValid ids l v = record {
  at_token = λ token w e. v.at_token token w (get-reclaim ids l token w e);
}
