-- ===== src/Handlers/Failover/Sent.antt =====
-- One attempt: it ends the request, or its failure is held for what comes next.
use wildtoken.Prelude.{
  ℕ, suc, ◌≤◌, ◌<◌, ◌≡◌, refl, ap, ◌∙◌, subst, Bool, true, false, not, ◌&&◌, ◌||◌, Option, none,
  some, List, [], ◌∷◌, ◌++◌, ◌==◌, if◌then◌else◌, arith, if_all, if_all_eq, option_all_eq,
  Bool-cases, inl, inr,
}
use wildtoken.Handlers.Failover.{
  retried_row, Selection, Services, Config, Run, Result, Outcome, answered, unpreserved, no_answer,
  Primed, has_content, no_content, account_lost, replaced_row, primed_rows, primed_outcome,
  is_content, received, early_row, Row, Ending, member, retried, concluded, ending_of, same_number,
  replace_last, retried_if, succeed, bench_key, keep_failure, end_failed, refusal_of, status_failed,
  settle_attempt, attempt_channel, is_streaming, primed, exclude, is_none, not_fault,
}
use wildtoken.Handlers.Failover.Keeps.{final_rows, final_rows-append}
use wildtoken.Handlers.Failover.Pending.{IsPending, IsOver, concluded-IsOver, replay-IsOver}

module _ {W : Type 0} (services : Services W) (config : Config) where
  -- After attempt n was forwarded: what was held as the last failure has been settled.
  pub record IsSent (n : ℕ) (r : Run W) : Type 0 where
    pub armed : r.armed ≡ true
    pub no_final : final_rows r.rows ≡ 0
    pub forwards : r.forwards ≤ suc n
    pub settled_below : (m : ℕ) → member m r.settled ≡ true → m < n
    pub no_last : r.last_failure ≡ none
    pub stream_open :
        (a : Result)
        → r.stream_failure ≡ some a
        → (a.number < n) × (member a.number r.settled ≡ false)

  replaced_row-finals :
      (rows : List Row) (outcome : Outcome)
      → final_rows (rows ++ replaced_row services config outcome) ≡ final_rows rows
  replaced_row-finals rows (answered response) =
      final_rows-append rows (retried_row ∷ []) ∙ omega arith
  replaced_row-finals rows (unpreserved response) = final_rows-append rows [] ∙ omega arith
  replaced_row-finals rows no_answer = final_rows-append rows (retried_row ∷ []) ∙ omega arith

  primed_rows-finals :
      (rows : List Row) (holds : Bool) (primed_as : Primed)
      → final_rows (rows ++ (if holds then primed_rows services config primed_as else []))
        ≡ final_rows rows
  primed_rows-finals rows true has_content = final_rows-append rows [] ∙ omega arith
  primed_rows-finals rows true no_content = final_rows-append rows [] ∙ omega arith
  primed_rows-finals rows true account_lost = final_rows-append rows (early_row ∷ []) ∙ omega arith
  primed_rows-finals rows false _ = final_rows-append rows [] ∙ omega arith

  pub member_below :
      (n a m : ℕ) (settled : List ℕ)
      → a < n
      → ((k : ℕ) → member k settled ≡ true → k < n)
      → member m (a ∷ settled) ≡ true
      → m < n
  member_below n a m settled h below e = elim (Bool-cases (a == m)) [
    | inl same ↦ ground (arith, same)
    | inr other ↦ below m (rw other at e)
  ]

  pub member_other :
      (a b : ℕ) (settled : List ℕ)
      → (a == b) ≡ false
      → member b settled ≡ false
      → member b (a ∷ settled) ≡ false
  member_other a b settled other fresh = rw other fresh

  pub fresh_now :
      (n : ℕ) (settled : List ℕ)
      → ((k : ℕ) → member k settled ≡ true → k < n)
      → member n settled ≡ false
  fresh_now n settled below = elim (Bool-cases (member n settled)) [
    | inl old ↦ let past : n < n = below n old in absurd (omega arith)
    | inr fresh ↦ fresh
  ]

  pub retried-finals :
      (a : Result) (r : Run W) → final_rows (retried services config a r).rows ≡ final_rows r.rows
  unfolding retried
  retried-finals a r =
      if_all (λ (q : Run W). final_rows q.rows ≡ final_rows r.rows) (member a.number r.settled) _ _
        refl (replaced_row-finals r.rows a.outcome)

  pub other_number :
      (a b : Result) (held : Option Result)
      → same_number services config (some a) held ≡ false
      → held ≡ some b
      → (a.number == b.number) ≡ false
  other_number a b held differ e =
      subst (λ h. same_number services config (some a) h ≡ false) e differ

  abbrev pub without_last : Run W → Run W
  without_last r = record r { last_failure = none }

  pub cleared : (n : ℕ) (r : Run W) → IsPending n r → IsPending n (without_last r)
  cleared n r p = record {
    armed = p.armed;
    no_final = p.no_final;
    forwards = p.forwards;
    settled_below = p.settled_below;
    last_open = λ a e. absurd (cc);
    stream_open = p.stream_open;
  }

  -- A failure other than the stream that is held has been settled as an attempt.
  pub replaced :
      (n : ℕ) (r : Run W) (a : Result)
      → IsPending n r
      → a.number < n
      → same_number services config (some a) r.stream_failure ≡ false
      → IsPending n (record r {
        settled = a.number ∷ r.settled;
        rows = r.rows ++ replaced_row services config a.outcome;
        last_failure = none;
      })
  replaced n r a p h differ = record {
    armed = p.armed;
    no_final = replaced_row-finals r.rows a.outcome ∙ p.no_final;
    forwards = p.forwards;
    settled_below = λ m e. member_below n a.number m r.settled h p.settled_below e;
    last_open = λ b e. absurd (cc);
    stream_open = λ b e.
        let (below, fresh) = p.stream_open b e in
        (
          below,
          member_other a.number b.number r.settled (other_number a b r.stream_failure differ e)
              fresh,
        );
  }

  pub replace_last-IsPending :
      (n : ℕ) (r : Run W)
      → IsPending n r
      → IsPending n (replace_last services config r)
        × ((replace_last services config r).last_failure ≡ none)
  unfolding replace_last retried
  replace_last-IsPending n r p =
      option_all_eq (λ (q : Run W). IsPending n q × (q.last_failure ≡ none)) r.last_failure _ _
        (λ e. (p, e))
        (λ a e.
          if_all_eq (λ (q : Run W). IsPending n q × (q.last_failure ≡ none))
            (same_number services config (some a) r.stream_failure) _ _ (λ _. (cleared n r p, refl))
            (λ differ.
              if_all_eq
                (λ (q : Run W).
                  IsPending n (without_last q) × ((without_last q).last_failure ≡ none))
                (member a.number r.settled) _ _ (λ _. (cleared n r p, refl))
                (λ fresh. (replaced n r a p (p.last_open a e).0 differ, refl))))

  -- What an attempt changes apart from the failures that are held.
  pub still-IsSent :
      (n : ℕ) (r : Run W) {world : W} {excluded cooling rejected refused : List ℕ}
      {stay : Option Selection}
      → IsSent n r
      → IsSent n (record r {
        world = world;
        excluded = excluded;
        cooling = cooling;
        rejected = rejected;
        refused = refused;
        stay = stay;
      })
  still-IsSent n r p = record {
    armed = p.armed;
    no_final = p.no_final;
    forwards = p.forwards;
    settled_below = p.settled_below;
    no_last = p.no_last;
    stream_open = p.stream_open;
  }

  pub bench_key-IsSent :
      (n : ℕ) (r : Run W) (s : Selection) (key : ℕ) (outcome : Outcome)
      → IsSent n r
      → IsSent n (bench_key services config r s key outcome)
  unfolding bench_key
  bench_key-IsSent n r s key outcome p =
      if_all (IsSent n) (not (key == 0) && refusal_of services config outcome) _ _
        (still-IsSent n r p) p

  pub succeed-IsOver :
      (n number key : ℕ) (outcome : Outcome) (r : Run W)
      → status_failed services config outcome ≡ false
      → IsSent n r
      → IsOver
          (suc n)
          (succeed services config r key (record { number = number; outcome = outcome }))
  unfolding succeed
  succeed-IsOver n number key (answered response) r fine p = (p.forwards, p.no_final)
  succeed-IsOver n number key (unpreserved response) r fine p = (p.forwards, p.no_final)
  succeed-IsOver n number key no_answer r fine p = absurd (cc)

  pub current-IsOver :
      (n : ℕ) (outcome : Outcome) (r : Run W)
      → IsSent n r
      → IsOver (suc n) (
        concluded services config (record { number = n; outcome = outcome }) r,
        ending_of services config (record { number = n; outcome = outcome }),
      )
  current-IsOver n outcome r p =
      concluded-IsOver services config (suc n) n outcome r p.forwards p.no_final
        (fresh_now n r.settled p.settled_below)

  pub retried-forwards :
      (a : Result) (r : Run W) → (retried services config a r).forwards ≡ r.forwards
  unfolding retried
  retried-forwards a r =
      if_all (λ (q : Run W). q.forwards ≡ r.forwards) (member a.number r.settled) _ _ refl refl

  pub retried-other :
      (a : Result) (m : ℕ) (r : Run W)
      → (a.number == m) ≡ false
      → member m r.settled ≡ false
      → member m (retried services config a r).settled ≡ false
  unfolding retried
  retried-other a m r other fresh =
      if_all (λ (q : Run W). member m q.settled ≡ false) (member a.number r.settled) _ _ fresh
        (member_other a.number m r.settled other fresh)

  pub end_failed-IsOver :
      (n : ℕ) (outcome : Outcome) (r : Run W) (stream_failed : Bool)
      → IsSent n r
      → IsOver
          (suc n)
          (end_failed services config r (record { number = n; outcome = outcome }) stream_failed)
  unfolding end_failed
  end_failed-IsOver n outcome r stream_failed p =
      let a : Result = record { number = n; outcome = outcome } in
      option_all_eq (IsOver (suc n)) r.stream_failure _ _ (λ _. current-IsOver n outcome r p)
        (λ held e. if_all (IsOver (suc n)) stream_failed _ _ (current-IsOver n outcome r p) (
          let (below, fresh) = p.stream_open held e in
          replay-IsOver services config (suc n) held (retried services config a r)
            (omega (arith, retried-forwards a r, p.forwards))
            (omega (arith, retried-finals a r, p.no_final))
            (retried-other a held.number r (ground (arith, below)) fresh)))

  pub held_open :
      (n : ℕ) (outcome : Outcome) (a : Result) (settled : List ℕ)
      → some (record { number = n; outcome = outcome }) ≡ some a
      → ((m : ℕ) → member m settled ≡ true → m < n)
      → (a.number < suc n) × (member a.number settled ≡ false)
  held_open n outcome a settled e below =
      let same : n ≡ a.number = ap (λ o. elim o [ none ↦ n | some b ↦ b.number ]) e in
      (omega arith, subst (λ k. member k settled ≡ false) same (fresh_now n settled below))

  -- The failure of attempt n is held for what comes next.
  pub held_failure :
      (n : ℕ) (outcome : Outcome) (upstream : ℕ) (r : Run W)
      → IsSent n r
      → IsPending (suc n) (record r {
        previous = some upstream;
        last_failure = some (record { number = n; outcome = outcome });
      })
  held_failure n outcome upstream r p = record {
    armed = p.armed;
    no_final = p.no_final;
    forwards = p.forwards;
    settled_below = λ m e. let past : m < n = p.settled_below m e in omega arith;
    last_open = λ a e. held_open n outcome a r.settled e p.settled_below;
    stream_open = λ a e. let (below, fresh) = p.stream_open a e in (omega arith, fresh);
  }

  pub held_both :
      (n : ℕ) (outcome : Outcome) (upstream : ℕ) (r : Run W)
      → r.armed ≡ true
      → final_rows r.rows ≡ 0
      → r.forwards ≤ suc n
      → ((m : ℕ) → member m r.settled ≡ true → m < n)
      → IsPending (suc n) (record r {
        stream_failure = some (record { number = n; outcome = outcome });
        previous = some upstream;
        last_failure = some (record { number = n; outcome = outcome });
      })
  held_both n outcome upstream r armed no_final forwards below = record {
    armed = armed;
    no_final = no_final;
    forwards = forwards;
    settled_below = λ m e. let past : m < n = below m e in omega arith;
    last_open = λ a e. held_open n outcome a r.settled e below;
    stream_open = λ a e. held_open n outcome a r.settled e below;
  }

  pub retried-armed : (a : Result) (r : Run W) → (retried services config a r).armed ≡ r.armed
  unfolding retried
  retried-armed a r =
      if_all (λ (q : Run W). q.armed ≡ r.armed) (member a.number r.settled) _ _ refl refl

  pub retried-below :
      (n : ℕ) (a : Result) (r : Run W)
      → a.number < n
      → ((m : ℕ) → member m r.settled ≡ true → m < n)
      → (m : ℕ) → member m (retried services config a r).settled ≡ true
      → m < n
  unfolding retried
  retried-below n a r h below =
      if_all (λ (q : Run W). (m : ℕ) → member m q.settled ≡ true → m < n)
        (member a.number r.settled) _ _ below (λ m e. member_below n a.number m r.settled h below e)

  -- The same where it is a stream, which takes the place of the one that is held.
  pub held_stream :
      (n : ℕ) (outcome : Outcome) (upstream : ℕ) (r : Run W)
      → IsSent n r
      → IsPending (suc n) (record (retried_if services config r.stream_failure r) {
        stream_failure = some (record { number = n; outcome = outcome });
        previous = some upstream;
        last_failure = some (record { number = n; outcome = outcome });
      })
  held_stream n outcome upstream r p =
      option_all_eq
        (λ (q : Run W). IsPending (suc n) (record q {
          stream_failure = some (record { number = n; outcome = outcome });
          previous = some upstream;
          last_failure = some (record { number = n; outcome = outcome });
        }))
        r.stream_failure _ _
        (λ _. held_both n outcome upstream r p.armed p.no_final p.forwards p.settled_below)
        (λ held e.
          held_both n outcome upstream (retried services config held r)
            (retried-armed held r ∙ p.armed) (retried-finals held r ∙ p.no_final)
            (omega (arith, retried-forwards held r, p.forwards))
            (retried-below n held r (p.stream_open held e).0 p.settled_below))

  pub keep_failure-IsPending :
      (n : ℕ) (outcome : Outcome) (r : Run W) (s : Selection) (stream_failed : Bool)
      → IsSent n r
      → IsPending (suc n) (
          keep_failure services config r s (record { number = n; outcome = outcome }) stream_failed)
  unfolding keep_failure
  keep_failure-IsPending n outcome r s stream_failed p =
      let a : Result = record { number = n; outcome = outcome } in
      if_all
        (λ (kept : Run W).
          IsPending (suc n) (record kept { previous = some s.upstream; last_failure = some a }))
        stream_failed _ _
        (held_stream n outcome s.upstream (exclude services config r s) (still-IsSent n r p))
        (if_all
          (λ (kept : Run W).
            IsPending (suc n) (record kept { previous = some s.upstream; last_failure = some a }))
          (is_none services config r.stay && not_fault services config outcome) _ _
          (held_failure n outcome s.upstream _ (still-IsSent n r p))
          (held_failure n outcome s.upstream r p))

  -- What an iteration of the outer loop comes to: the request is over, or another attempt may follow.
  abbrev pub IsStep : Bool → ℕ → Run W × Option Ending → Type 0
  IsStep final n p = elim p.1 [
    | none ↦ (final ≡ false) × IsPending (suc n) p.0
    | some e ↦ IsOver (suc n) (p.0, e)
  ]

  pub sent :
      (n : ℕ) (r : Run W) (world : W) (holds : Bool) (primed_as : Primed)
      → IsPending n r
      → r.last_failure ≡ none
      → IsSent n (record r {
        world = world;
        rows = r.rows ++ (if holds then primed_rows services config primed_as else []);
        forwards = suc r.forwards;
      })
  sent n r world holds primed_as p none_last = record {
    armed = p.armed;
    no_final = primed_rows-finals r.rows holds primed_as ∙ p.no_final;
    forwards = omega (arith, p.forwards);
    settled_below = p.settled_below;
    no_last = none_last;
    stream_open = p.stream_open;
  }

  pub settle_attempt-IsStep :
      (final : Bool) (n : ℕ) (r : Run W) (s : Selection) (key : ℕ) (outcome : Outcome)
      (stream_failed : Bool)
      → IsSent n r
      → IsStep final n (
          settle_attempt services config final r s key
            (record { number = n; outcome = outcome })
            stream_failed)
  unfolding settle_attempt
  settle_attempt-IsStep final n r s key outcome stream_failed p =
      let benched = bench_key services config r s key outcome in
      let benched_p : IsSent n benched = bench_key-IsSent n r s key outcome p in
      if_all_eq (IsStep final n) (not (status_failed services config outcome || stream_failed)) _ _
        (λ fine. succeed-IsOver n n key outcome r (ground (arith, fine)) p)
        (λ _.
          if_all_eq (IsStep final n) (final || services.client_gone benched.world) _ _
            (λ _. end_failed-IsOver n outcome benched stream_failed benched_p)
            (λ more. (
              ground (arith, more),
              keep_failure-IsPending n outcome benched s stream_failed benched_p,
            )))

  pub attempt_channel-IsStep :
      (final : Bool) (n : ℕ) (r : Run W) (s : Selection) (key : ℕ)
      → IsPending n r
      → IsStep final n (attempt_channel services config final n r s key)
  unfolding attempt_channel
  attempt_channel-IsStep final n r s key p =
      let (replaced_p, no_last) = replace_last-IsPending n r p in
      let replaced = replace_last services config r in
      let (world, answer) = services.forward replaced.world s key in
      let outcome = received services config answer in
      let holds =
        not (status_failed services config outcome)
        && is_streaming services config outcome
        && config.holds_stream
        && not final in
      let (held_world, content) = primed services config world outcome in
      let settled = if holds then primed_outcome services config content outcome else outcome in
      settle_attempt-IsStep final n _ s key settled
        (holds && not (is_content services config content))
        (sent n replaced (if holds then held_world else world) holds content replaced_p no_last)
