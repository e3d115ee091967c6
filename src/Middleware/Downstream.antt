-- ===== src/Middleware/Downstream.antt =====
-- internal/middleware/auth.go: what a request passes before it is forwarded (RequireDownstream). Text
-- is its code points. The lookup of a token in the database and the handler that follows are
-- parameters; the handler may change the tracker and the limiter, as requests beside it do.
pub mod Refusals
mod Examples
use wildtoken.Prelude.{
  ℕ, ◌+◌, Bool, true, false, not, ◌&&◌, ◌||◌, Option, none, some, List, [], ◌∷◌, ◌==◌,
  if◌then◌else◌,
}
use wildtoken.Text.{Text, text_eq}
use wildtoken.Proxy.Sse.{codes, trim_points}
use wildtoken.Quota.Tracker
use wildtoken.Quota.Tracker.{Tracker, Reservation}
use wildtoken.RateLimit.Limiter
use wildtoken.RateLimit.Limiter.{Limiter}
use wildtoken.RateLimit.Parser.{ok, err, parse_rate_limit}

-- type DownstreamCredential
pub record Credential : Type 0 where
  pub token_id : ℕ
  pub token_name : Text
  pub group_id : ℕ
  pub used_tokens : ℕ
  pub limit_tokens : Option ℕ
  pub rate_limit : Option Text
  pub allowed_models : List Text

-- The results of LookupEnabledDownstreamToken.
pub data Lookup : Type 0 where
  lookup_failed : Lookup
  not_found : Lookup
  found : Credential → Lookup

pub data Refusal : Type 0 where
  invalid_api_key database_error quota_exhausted rate_limited : Refusal

abbrev pub status_of : Refusal → ℕ
status_of invalid_api_key = 401
status_of database_error = 500
status_of quota_exhausted = 429
status_of rate_limited = 429

pub data Reply (R : Type 0) : Type 0 where
  refused : Refusal → Reply R
  served : R → Reply R

pub record Gates : Type 0 where
  pub quotas : Tracker
  pub limiter : Limiter

-- strings.EqualFold(scheme, "bearer")
abbrev is_bearer : Text → Text → Bool
is_bearer [] rest = text_eq rest []
is_bearer (c ∷ cs) [] = false
is_bearer (c ∷ cs) (b ∷ bs) = (c == b || c + 32 == b) && is_bearer cs bs

-- strings.Cut(authorization, " ")
abbrev onto_first : ℕ → Option (Text × Text) → Option (Text × Text)
onto_first c none = none
onto_first c (some (before, after)) = some (c ∷ before, after)

abbrev cut_space : Text → Option (Text × Text)
cut_space [] = none
cut_space (c ∷ cs) = let rest = cut_space cs in if c == 32 then some ([], cs) else onto_first c rest

abbrev non_empty : Text → Option Text
non_empty [] = none
non_empty (c ∷ cs) = some (c ∷ cs)

abbrev bearer_token : Option (Text × Text) → Option Text
bearer_token none = none
bearer_token (some (scheme, credentials)) =
    if is_bearer scheme (codes "bearer") then non_empty (trim_points credentials) else none

unfoldable pub extract_downstream_token : Text → Text → Bool → Option Text
unfolding trim_points text_eq
extract_downstream_token authorization x_api_key anthropic =
    elim (bearer_token (cut_space authorization)) [
      | some token ↦ some token
      | none ↦ (if anthropic then non_empty (trim_points x_api_key) else none)
    ]

-- The rate limit of a credential; an expression that does not parse admits the request.
unfoldable pub rate_admits : Limiter → Credential → ℕ → Limiter × Bool
unfolding parse_rate_limit Limiter.check
rate_admits l c now = elim c.rate_limit [
  | none ↦ (l, true)
  | some expression ↦ elim (parse_rate_limit expression) [
    | err e ↦ (l, true)
    | ok limit ↦ Limiter.check l c.token_id limit now
  ]
]

module _ {R : Type 0} (lookup : Text → Lookup) (serve : Credential → Gates → Gates × R) where
  -- What follows the admission to the quota, whose reservation is held meanwhile.
  unfoldable pub with_reservation : Gates → Credential → Bool → ℕ → Gates × Reply R
  unfolding rate_admits
  with_reservation g c admitted now =
      let (limiter, allowed) = rate_admits g.limiter c now in
      let checked : Gates = record g { limiter = limiter } in
      let (after, r) = serve c checked in
      if not admitted
      then (g, refused quota_exhausted)
      else if not allowed
      then (checked, refused rate_limited)
      else (after, served r)

  -- The deferred call of Release.
  abbrev pub released : Reservation → Gates × Reply R → Gates × Reply R
  released reservation (g, reply) =
      (record g { quotas = (Tracker.release g.quotas reservation).0 }, reply)

  unfoldable pub admit_credential : Gates → Credential → ℕ → Gates × Reply R
  unfolding with_reservation Tracker.admit Tracker.release
  admit_credential g c now =
      let (quotas, reservation, admitted) =
        Tracker.admit g.quotas c.token_id c.used_tokens c.limit_tokens in
      released reservation (with_reservation (record g { quotas = quotas }) c admitted now)

  abbrev admit_found : Gates → Lookup → ℕ → Gates × Reply R
  admit_found g lookup_failed now = (g, refused database_error)
  admit_found g not_found now = (g, refused invalid_api_key)
  admit_found g (found c) now = admit_credential g c now

  -- RequireDownstream
  unfoldable pub require_downstream : Gates → Text → Text → Bool → ℕ → Gates × Reply R
  unfolding extract_downstream_token admit_credential
  require_downstream g authorization x_api_key anthropic now =
      elim (extract_downstream_token authorization x_api_key anthropic) [
        | none ↦ (g, refused invalid_api_key)
        | some token ↦ admit_found g (lookup token) now
      ]
