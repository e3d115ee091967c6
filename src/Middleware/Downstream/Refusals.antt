-- ===== src/Middleware/Downstream/Refusals.antt =====
-- A refused request holds nothing of its token's quota.
use wildtoken.Prelude.{
  ℕ, ◌<◌, ◌≡◌, ◌≢◌, refl, sym, ap, ◌∙◌, subst, Bool, true, false, not, ◌&&◌, ◌==◌, arith, if_all,
  if_all_eq, option_all, option_all_eq, ℕ_discrete,
}
use wildtoken.Prelude.Int64
use wildtoken.Prelude.Int64.{max_int}
use wildtoken.Prelude.Assoc
use wildtoken.Text.{Text}
use wildtoken.Quota.Tracker
use wildtoken.Quota.Tracker.{
  Tracker, Outstanding, Reservation, no_reservation, nothing, entry_of, weight, projected,
  discard_if_idle, release_token, outstanding, not_negative,
}
use wildtoken.Middleware.Downstream.{
  Credential, Lookup, lookup_failed, not_found, found, Refusal, refused, served, Reply, Gates,
  extract_downstream_token, rate_admits, with_reservation, released, admit_credential, admit_found,
  require_downstream,
}

-- The entry of a token can take one more request.
abbrev pub HasRoom : Tracker → Type 0
HasRoom t = (token : ℕ) → (entry_of (Assoc.get ℕ_discrete token t)).requests < max_int

weight-nothing : (e : Outstanding) → e.requests ≡ 0 → e.metered ≡ 0 → weight e ≡ 0
unfolding Int64.add Int64.mul
weight-nothing e none_held none_metered = rw (none_held, none_metered) refl

outstanding-weight :
    (t : Tracker) (token : ℕ)
    → outstanding t token ≡ weight (entry_of (Assoc.get ℕ_discrete token t))
unfolding outstanding
outstanding-weight t token =
    option_all_eq (λ (w : ℕ). w ≡ weight (entry_of (Assoc.get ℕ_discrete token t)))
      (Assoc.get ℕ_discrete token t) _ _
      (λ e. sym (ap (λ o. weight (entry_of o)) e ∙ weight-nothing nothing refl refl))
      (λ a e. sym (ap (λ o. weight (entry_of o)) e))

-- An entry that is written back stands for itself, also where it is dropped.
discard_if_idle-weight :
    (t : Tracker) (token : ℕ) (e : Outstanding)
    → weight (entry_of (Assoc.get ℕ_discrete token (discard_if_idle t token e))) ≡ weight e
unfolding discard_if_idle
discard_if_idle-weight t token e =
    if_all_eq (λ (u : Tracker). weight (entry_of (Assoc.get ℕ_discrete token u)) ≡ weight e)
      (e.requests == 0 && e.metered == 0) _ _
      (λ idle.
        ap (λ o. weight (entry_of o))
          (Assoc.get-delete_self ℕ_discrete token (Assoc.put ℕ_discrete token e t))
        ∙ weight-nothing nothing refl refl
        ∙ sym (weight-nothing e (ground (arith, idle)) (ground (arith, idle))))
      (λ busy. ap (λ o. weight (entry_of o)) (Assoc.get-put_self ℕ_discrete token e t))

discard_if_idle-other :
    (t : Tracker) (token other : ℕ) (e : Outstanding)
    → token ≢ other
    → Assoc.get ℕ_discrete other (discard_if_idle t token e) ≡ Assoc.get ℕ_discrete other t
unfolding discard_if_idle
discard_if_idle-other t token other e apart =
    if_all (λ (u : Tracker). Assoc.get ℕ_discrete other u ≡ Assoc.get ℕ_discrete other t)
      (e.requests == 0 && e.metered == 0) _ _
      (Assoc.get-delete_ne ℕ_discrete token other (Assoc.put ℕ_discrete token e t) apart
        ∙ Assoc.get-put_ne ℕ_discrete token other e t apart)
      (Assoc.get-put_ne ℕ_discrete token other e t apart)

-- One request more and one less.
taken_back :
    (e : Outstanding)
    → e.requests < max_int
    → not_negative (Int64.sub (Int64.add e.requests 1) 1) ≡ e.requests
unfolding Int64.add Int64.sub Int64.lt
taken_back e room = ground arith

-- What a token has outstanding once the request is admitted and released.
unfoldable admitted : Tracker → ℕ → Tracker
admitted t token =
    Assoc.put ℕ_discrete token
      (record (entry_of (Assoc.get ℕ_discrete token t)) {
        requests = Int64.add (entry_of (Assoc.get ℕ_discrete token t)).requests 1;
      })
      t

release_token-outstanding :
    (t : Tracker) (token other : ℕ)
    → (entry_of (Assoc.get ℕ_discrete token t)).requests < max_int
    → outstanding (release_token (admitted t token) token) other ≡ outstanding t other
unfolding release_token admitted
release_token-outstanding t token other room =
    let before = entry_of (Assoc.get ℕ_discrete token t) in
    let held : Outstanding = record before { requests = Int64.add before.requests 1 } in
    let back : Outstanding = record held {
      requests = not_negative (Int64.sub (Int64.add before.requests 1) 1);
    } in
    let same : back ≡ before =
      ap (λ (n : ℕ). record before { requests = n }) (taken_back before room) in
    let present = Assoc.get-put_self ℕ_discrete token held t in
    let opened : release_token (admitted t token) token
        ≡ discard_if_idle (admitted t token) token back =
      rw (present, release_token) refl in
    let kept = discard_if_idle (admitted t token) token back in
    let at_other : weight (entry_of (Assoc.get ℕ_discrete other kept))
        ≡ weight (entry_of (Assoc.get ℕ_discrete other t)) =
      elim (ℕ_discrete token other) [
        | yes here ↦
            subst
              (λ k.
                weight (entry_of (Assoc.get ℕ_discrete k kept))
                ≡ weight (entry_of (Assoc.get ℕ_discrete k t)))
              here (discard_if_idle-weight (admitted t token) token back ∙ ap weight same)
        | no apart ↦
            ap (λ o. weight (entry_of o))
              (discard_if_idle-other (admitted t token) token other back apart
                ∙ Assoc.get-put_ne ℕ_discrete token other held t apart)
      ] in
    outstanding-weight (release_token (admitted t token) token) other
    ∙ ap (λ (u : Tracker). weight (entry_of (Assoc.get ℕ_discrete other u))) opened
    ∙ at_other
    ∙ sym (outstanding-weight t other)

module _ {R : Type 0} (lookup : Text → Lookup) (serve : Credential → Gates → Gates × R) where
  -- A refusal leaves what every token has outstanding as it was.
  abbrev LeavesQuota : Tracker → Gates × Reply R → Type 0
  LeavesQuota t p = elim p.1 [
    | refused why ↦ (token : ℕ) → outstanding p.0.quotas token ≡ outstanding t token
    | served r ↦ Unit {0}
  ]

  reserved-LeavesQuota :
      (t : Tracker) (reservation : Reservation) (g : Gates) (c : Credential) (ok : Bool) (now : ℕ)
      → ((token : ℕ)
          → outstanding (Tracker.release g.quotas reservation).0 token ≡ outstanding t token)
      → LeavesQuota t (released lookup serve reservation (with_reservation lookup serve g c ok now))
  unfolding with_reservation
  reserved-LeavesQuota t reservation g c ok now h =
      if_all (λ (p : Gates × Reply R). LeavesQuota t (released lookup serve reservation p)) (not ok)
        _ _ h
        (if_all (λ (p : Gates × Reply R). LeavesQuota t (released lookup serve reservation p))
          (not (rate_admits g.limiter c now).1) _ _ h tt)

  admit_credential-LeavesQuota :
      (g : Gates) (c : Credential) (now : ℕ)
      → HasRoom g.quotas
      → LeavesQuota g.quotas (admit_credential lookup serve g c now)
  unfolding admit_credential Tracker.admit Tracker.release admitted
  admit_credential-LeavesQuota g c now room =
      option_all_eq
        (λ (a : Tracker × Reservation × Bool). LeavesQuota g.quotas (
          released lookup serve a.1
            (with_reservation lookup serve (record g { quotas = a.0 }) c a.2 now)))
        c.limit_tokens _ _
        (λ _. reserved-LeavesQuota g.quotas no_reservation g c true now (λ token. refl))
        (λ limit _.
          if_all
            (λ (a : Tracker × Reservation × Bool). LeavesQuota g.quotas (
              released lookup serve a.1
                (with_reservation lookup serve (record g { quotas = a.0 }) c a.2 now)))
            (Int64.le limit (projected c.used_tokens (Assoc.get ℕ_discrete c.token_id g.quotas))) _
            _ (reserved-LeavesQuota g.quotas no_reservation g c false now (λ token. refl))
            (reserved-LeavesQuota g.quotas (record { token = c.token_id; held = true })
              (record g { quotas = admitted g.quotas c.token_id }) c true now
              (λ token. release_token-outstanding g.quotas c.token_id token (room c.token_id))))

  found-LeavesQuota :
      (g : Gates) (l : Lookup) (now : ℕ)
      → HasRoom g.quotas
      → LeavesQuota g.quotas (admit_found lookup serve g l now)
  found-LeavesQuota g lookup_failed now room = λ token. refl
  found-LeavesQuota g not_found now room = λ token. refl
  found-LeavesQuota g (found c) now room = admit_credential-LeavesQuota g c now room

  require_downstream-LeavesQuota :
      (g : Gates) (authorization x_api_key : Text) (anthropic : Bool) (now : ℕ)
      → HasRoom g.quotas
      → LeavesQuota g.quotas
          (require_downstream lookup serve g authorization x_api_key anthropic now)
  unfolding require_downstream
  require_downstream-LeavesQuota g authorization x_api_key anthropic now room =
      option_all (LeavesQuota g.quotas) (extract_downstream_token authorization x_api_key anthropic)
        _ _ (λ token. refl) (λ token. found-LeavesQuota g (lookup token) now room)

  restored :
      (t : Tracker) (p : Gates × Reply R) (why : Refusal) (token : ℕ)
      → LeavesQuota t p
      → p.1 ≡ refused why
      → outstanding p.0.quotas token ≡ outstanding t token
  restored t (g, refused other) why token leaves e = leaves token
  restored t (g, served r) why token leaves e = absurd (cc)

  -- A request that is refused, for whatever reason, leaves what every token has outstanding against
  -- its quota as it was: the admission that it was given before another check is taken back, where
  -- fewer than 2 ^ 63 - 1 requests of each token run.
  pub refusal_restores :
      (g : Gates) (authorization x_api_key : Text) (anthropic : Bool) (now : ℕ) (why : Refusal)
      (token : ℕ)
      → HasRoom g.quotas
      → (require_downstream lookup serve g authorization x_api_key anthropic now).1 ≡ refused why
      → outstanding
          (require_downstream lookup serve g authorization x_api_key anthropic now).0.quotas
          token
        ≡ outstanding g.quotas token
  refusal_restores g authorization x_api_key anthropic now why token room e =
      restored g.quotas (require_downstream lookup serve g authorization x_api_key anthropic now)
        why token (require_downstream-LeavesQuota g authorization x_api_key anthropic now room) e
