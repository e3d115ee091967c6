-- ===== src/RateLimit/Limiter/Sliding.antt =====
-- The sliding window that a limiter promises, kept as the whole history of admissions, and the
-- events that a limiter in service sees.
pub mod Agreement
pub mod Refinement
use wildtoken.Prelude.{
  ℕ, ◌≤◌, Bool, true, Option, none, some, List, [], ◌∷◌, leb, ltb, if◌then◌else◌, ℕ_discrete, ◌+◌,
}
use mathlib.Core.Logic.{ite}
use wildtoken.Clock.{unix}
use wildtoken.RateLimit.Limiter.{RateLimit, Limiter, check, scan, reclaim}
use wildtoken.RateLimit.Limiter.Decision.{since}

-- The seconds at which each token was admitted, newest first; nothing is ever forgotten.
abbrev pub History : Type 0
History = ℕ → List ℕ

abbrev pub count_since : ℕ → List ℕ → ℕ
count_since q [] = 0
count_since q (s ∷ ss) = (if leb q s then 1 else 0) + count_since q ss

abbrev pub note : ℕ → ℕ → History → History
note token second h t = ite (ℕ_discrete token t) (second ∷ h t) (h t)

-- A request is admitted while those since the start of the window are fewer than the limit.
abbrev pub ideal_check : History → ℕ → Option RateLimit → ℕ → History × Bool
ideal_check h token none now = (h, true)
ideal_check h token (some limit) now =
    let fits = ltb (count_since (since limit now) (h token)) limit.requests in
    ((if fits then note token (unix now) h else h), fits)

-- A check of a token, or a half of a cleanup. The second half may come any time after the first,
-- and the list that it works off may be any.
pub data Event : Type 0 where
  checks : ℕ → Event
  scans : Event
  reclaims : List ℕ → Event

module _ (limits : ℕ → Option RateLimit) where
  -- The answers to the checks, in order. A token's configured limit stays the same.
  unfoldable pub run : Limiter → List (ℕ × Event) → List Bool
  run l [] = []
  run l ((now, checks token) ∷ es) =
      let (l', admitted) = check l token (limits token) now in admitted ∷ run l' es
  run l ((now, scans) ∷ es) = run (scan l now).0 es
  run l ((now, reclaims ids) ∷ es) = run (reclaim ids l) es

  pub ideal_run : History → List (ℕ × Event) → List Bool
  ideal_run h [] = []
  ideal_run h ((now, checks token) ∷ es) =
      let (h', admitted) = ideal_check h token (limits token) now in admitted ∷ ideal_run h' es
  ideal_run h ((now, scans) ∷ es) = ideal_run h es
  ideal_run h ((now, reclaims ids) ∷ es) = ideal_run h es

-- The clock does not go back.
abbrev pub Forward : ℕ → List (ℕ × Event) → Type 0
Forward clock [] = Unit {0}
Forward clock ((now, e) ∷ es) = (clock ≤ now) × Forward now es
