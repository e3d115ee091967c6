-- ===== src/RateLimit/Limiter/Sliding/Refinement.antt =====
-- The limiter implements the sliding window over the whole history.
use wildtoken.Prelude.{
  ℕ, ◌≤◌, ◌≡◌, refl, sym, ap, ap₂, ◌∙◌, subst, subst₂, some_eq, Bool, true, Option, none, some,
  List, [], ◌∷◌, arith, inl, inr, Option-cases, ℕ_discrete,
}
use wildtoken.Prelude.Int64.{max_int}
use wildtoken.Prelude.Assoc
use wildtoken.RateLimit.Limiter.{RateLimit, Limiter, check, scan, reclaim}
use wildtoken.RateLimit.Limiter.Reclaim.{get-scan, get-reclaim, live-reclaim}
use wildtoken.RateLimit.Limiter.Sliding.{
  History, ideal_check, Event, checks, scans, reclaims, run, ideal_run, Forward,
}
use wildtoken.RateLimit.Limiter.Sliding.Agreement.{
  Agrees, Agrees-wait, Agrees-none, Agrees-pruned, Agrees-reclaimed, Agrees-admit,
}

check-none : (l : Limiter) (token now : ℕ) → check l token none now ≡ (l, true)
unfolding check
check-none l token now = refl

module _ (limits : ℕ → Option RateLimit)
    (fits : (token : ℕ) (limit : RateLimit)
      → limits token ≡ some limit
      → limit.requests ≤ max_int) where
  record AllAgree (l : Limiter) (h : History) (clock : ℕ) : Type 0 where
    at_token :
        (token : ℕ) (limit : RateLimit)
        → limits token ≡ some limit
        → Agrees limit (Assoc.get ℕ_discrete token l) (h token) clock

  AllAgree-wait :
      {l : Limiter} {h : History} {clock now : ℕ}
      → clock ≤ now
      → AllAgree l h clock
      → AllAgree l h now
  AllAgree-wait later a = record {
    at_token = λ t limit e. Agrees-wait limit later (a.at_token t limit e);
  }

  AllAgree-scan :
      (l : Limiter) (h : History) (now : ℕ) → AllAgree l h now → AllAgree (scan l now).0 h now
  AllAgree-scan l h now a = record {
    at_token = λ t limit e.
        subst (λ o. Agrees limit o (h t) now) (sym (get-scan l now t))
          (Agrees-pruned limit _ (h t) now (a.at_token t limit e));
  }

  AllAgree-reclaim :
      (ids : List ℕ) (l : Limiter) (h : History) (now : ℕ)
      → AllAgree l h now
      → AllAgree (reclaim ids l) h now
  AllAgree-reclaim ids l h now a = record {
    at_token = λ t limit e.
        Agrees-reclaimed limit (live-reclaim ids l t) (get-reclaim ids l t) (a.at_token t limit e);
  }

  module _ (l : Limiter) (h : History) (now token : ℕ) (limit : RateLimit)
      (e : limits token ≡ some limit) (a : AllAgree l h now) where
    abbrev checked : Limiter × Bool
    checked = check l token (some limit) now

    abbrev noted : History × Bool
    noted = ideal_check h token (some limit) now

    admitted_facts :
        (checked.1 ≡ noted.1)
        × Agrees limit (Assoc.get ℕ_discrete token checked.0) (noted.0 token) now
    unfolding check
    admitted_facts =
        let mine =
          Agrees-admit limit (fits token limit e) _ (h token) now (a.at_token token limit e) in
        (
          mine.0,
          subst₂ (λ o (ss : List ℕ). Agrees limit o ss now)
              (sym (Assoc.get-put_self ℕ_discrete token _ l)) (ground arith) mine.1,
        )

    untouched :
        (t : ℕ)
        → ¬ (token ≡ t)
        → (Assoc.get ℕ_discrete t checked.0 ≡ Assoc.get ℕ_discrete t l) × (noted.0 t ≡ h t)
    unfolding check
    untouched t other = (Assoc.get-put_ne ℕ_discrete token t _ l other, ground arith)

    AllAgree-check : AllAgree checked.0 noted.0 now
    AllAgree-check = record {
      at_token = λ t limit' e'. elim (ℕ_discrete token t) [
        | yes same ↦
            subst (λ (r : RateLimit). Agrees r (Assoc.get ℕ_discrete t checked.0) (noted.0 t) now)
              (some_eq (sym e ∙ ap limits same ∙ e'))
              (subst (λ k. Agrees limit (Assoc.get ℕ_discrete k checked.0) (noted.0 k) now) same
                admitted_facts.1)
        | no other ↦
            let (kept, old) = untouched t other in
            subst₂ (λ o (ss : List ℕ). Agrees limit' o ss now) (sym kept) (sym old)
              (a.at_token t limit' e')
      ];
    }

  run-ideal :
      (l : Limiter) (h : History) (clock : ℕ) (es : List (ℕ × Event))
      → AllAgree l h clock
      → Forward clock es
      → run limits l es ≡ ideal_run limits h es
  unfolding run ideal_run
  run-ideal l h clock [] a f = refl
  run-ideal l h clock ((now, checks token) ∷ es) a f =
      let waited = AllAgree-wait f.0 a in
      elim (Option-cases (limits token)) [
        | inl free ↦
            rw (free, check-none l token now) (ap (◌∷◌ true) (run-ideal l h now es waited f.1))
        | inr (limit, e) ↦ rw e (
            ap₂ ◌∷◌ (admitted_facts l h now token limit e waited).0 (
              run-ideal (check l token (some limit) now).0 _ now es
                (AllAgree-check l h now token limit e waited) f.1))
      ]
  run-ideal l h clock ((now, scans) ∷ es) a f =
      run-ideal (scan l now).0 h now es (AllAgree-scan l h now (AllAgree-wait f.0 a)) f.1
  run-ideal l h clock ((now, reclaims ids) ∷ es) a f =
      run-ideal (reclaim ids l) h now es (AllAgree-reclaim ids l h now (AllAgree-wait f.0 a)) f.1

  -- Where each token keeps one configured limit throughout, if it has one, and every such limit is an
  -- int64: from an empty limiter, whatever checks under these limits and cleanups run and however
  -- they interleave, as long as the clock does not go back, every check is answered as by the
  -- sliding window over the whole history of admissions.
  pub run-eq-ideal_run :
      (es : List (ℕ × Event)) → Forward 0 es → run limits [] es ≡ ideal_run limits (λ _. []) es
  run-eq-ideal_run es f =
      run-ideal [] (λ _. []) 0 es
        (record { at_token = λ t limit e. unfold Assoc.get in Agrees-none limit 0 }) f
