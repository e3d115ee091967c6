-- ===== src/RateLimit/Limiter/Sliding/Agreement.antt =====
-- A limiter's slot for a token agrees with the token's history: every count that a check from now
-- on can ask for is the same.
use wildtoken.Prelude.{
  ℕ, ◌≤◌, ◌≡◌, refl, sym, ap, ◌∙◌, subst, Option, none, some, List, [], ◌∷◌, arith, ltb,
  if◌then◌else◌, inl, inr, Option-cases, some_eq,
}
use wildtoken.Prelude.Int64.{max_int}
use wildtoken.Clock.{unix, back}
use wildtoken.RateLimit.Window.{TokenWindow, live}
use wildtoken.RateLimit.Window.Valid.{
  IsValid, sum_since, UpTo, UpTo-mono, recent-UpTo, sum_since-recent,
}
use wildtoken.RateLimit.Window.Expiry.{live-prune, prune-IsValid, retain-prune}
use wildtoken.RateLimit.Limiter.{RateLimit, found_or_fresh, admit, cleanup_interval}
use wildtoken.RateLimit.Limiter.Decision.{
  live_of, since, fresh-IsValid, admit_decides, retain-admit, admit-IsValid, admit-UpTo,
  sum_since-admit,
}
use wildtoken.RateLimit.Limiter.Reclaim.{pruned}
use wildtoken.RateLimit.Limiter.Sliding.{count_since}

module _ (limit : RateLimit) where
  pub record Agrees (o : Option TokenWindow) (h : List ℕ) (clock : ℕ) : Type 0 where
    pub valid : (w : TokenWindow) → o ≡ some w → IsValid w
    pub spans : (w : TokenWindow) → o ≡ some w → w.retain ≡ limit.window
    pub counts : (q : ℕ) → since limit clock ≤ q → sum_since q (live_of o) ≡ count_since q h
    pub up_to : UpTo (unix clock) (live_of o)

  since_mono : (clock now : ℕ) → clock ≤ now → since limit clock ≤ since limit now
  since_mono clock now h = omega arith

  pub Agrees-wait :
      {o : Option TokenWindow} {h : List ℕ} {clock now : ℕ}
      → clock ≤ now
      → Agrees o h clock
      → Agrees o h now
  Agrees-wait {o} {h} {clock} {now} later a = record {
    valid = a.valid;
    spans = a.spans;
    counts = λ q k. a.counts q (omega (arith, since_mono clock now later));
    up_to = UpTo-mono (unix clock) (unix now) (live_of o) (omega arith) a.up_to;
  }

  pub Agrees-none : (clock : ℕ) → Agrees none [] clock
  Agrees-none clock = record {
    valid = λ w e. absurd (cc);
    spans = λ w e. absurd (cc);
    counts = λ q k. refl;
    up_to = tt;
  }

  pub Agrees-pruned :
      (o : Option TokenWindow) (h : List ℕ) (now : ℕ) → Agrees o h now → Agrees (pruned o now) h now
  Agrees-pruned none h now a = a
  Agrees-pruned (some w) h now a =
      let v = a.valid w refl in
      let kept = live-prune w now cleanup_interval v in
      let span = a.spans w refl in
      record {
        valid = λ w' e. subst IsValid (some_eq e) (prune-IsValid w now cleanup_interval v);
        spans = λ w' e.
            ap (λ (x : TokenWindow). x.retain) (sym (some_eq e)) ∙ retain-prune w now _ ∙ span;
        counts = λ q k.
            ap (sum_since q) kept
            ∙ sum_since-recent (unix (back now w.retain)) q (live w) (omega (arith, span))
            ∙ a.counts q k;
        up_to = rw kept (recent-UpTo _ (unix now) (live w) a.up_to);
      }

  -- A slot that shows the same live buckets, and no window that was not there.
  pub Agrees-reclaimed :
      {o o' : Option TokenWindow} {h : List ℕ} {now : ℕ}
      → live_of o' ≡ live_of o
      → ((w : TokenWindow) → o' ≡ some w → o ≡ some w)
      → Agrees o h now
      → Agrees o' h now
  Agrees-reclaimed {now = now} same old a = record {
    valid = λ w e. a.valid w (old w e);
    spans = λ w e. a.spans w (old w e);
    counts = λ q k. ap (sum_since q) same ∙ a.counts q k;
    up_to = subst (UpTo (unix now)) (sym same) a.up_to;
  }

  module _ (fits : limit.requests ≤ max_int) (o : Option TokenWindow) (h : List ℕ) (now : ℕ)
      (a : Agrees o h now) where
    abbrev slot : TokenWindow
    slot = found_or_fresh o limit.window now

    slot_facts : IsValid slot × (live slot ≡ live_of o)
    slot_facts = elim (Option-cases o) [
      | inl e ↦ rw e (fresh-IsValid limit.window now, refl)
      | inr (w, e) ↦ rw e (a.valid w e, refl)
    ]

    decided : (admit slot limit now).1 ≡ ltb (count_since (since limit now) h) limit.requests
    decided =
        admit_decides slot limit now slot_facts.0 fits
        ∙ ap (λ n. ltb n limit.requests)
            (ap (sum_since (since limit now)) slot_facts.1
              ∙ a.counts (since limit now) (omega arith))

    slot-UpTo : UpTo (unix now) (live slot)
    slot-UpTo = subst (UpTo (unix now)) (sym slot_facts.1) a.up_to

    -- The check answers as the history does, and leaves a slot that agrees with the new history.
    pub Agrees-admit :
        ((admit slot limit now).1 ≡ ltb (count_since (since limit now) h) limit.requests)
        × Agrees
            (some (admit slot limit now).0)
            (if ltb (count_since (since limit now) h) limit.requests then unix now ∷ h else h)
            now
    Agrees-admit = (
      decided,
      record {
        valid = λ w e. subst IsValid (some_eq e) (admit-IsValid slot limit now slot_facts.0 fits);
        spans = λ w e.
            ap (λ (x : TokenWindow). x.retain) (sym (some_eq e)) ∙ retain-admit slot limit now;
        counts = λ q k.
            let more = sum_since-admit slot limit now slot_facts.0 fits q k slot-UpTo in
            ground (arith, more, decided, a.counts q k, ap (sum_since q) slot_facts.1);
        up_to = admit-UpTo slot limit now slot_facts.0 fits slot-UpTo;
      },
    )
