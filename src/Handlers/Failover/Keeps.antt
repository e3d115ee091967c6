-- ===== src/Handlers/Failover/Keeps.antt =====
-- The choice of a channel leaves the failures that are held and the final rows as they are.
use wildtoken.Prelude.{
  ℕ, zero, suc, ◌+◌, ◌≡◌, refl, ◌∙◌, Bool, true, false, not, ◌&&◌, Option, none, some, List, [],
  ◌∷◌, ◌++◌, arith, if_all, option_all,
}
use wildtoken.Handlers.Failover.{
  Row, retried_row, final_row, early_row, Selection, Selected, broken, found, Services, Config, Run,
  Choice, selection_failed, is_empty, routing_exclusions, log_attempt, asked, admit_channel,
  prepare_channel, pick_key, try_channel, try_selected, direct_candidate, select_anew, select_round,
  select_loop,
}

-- The rows that say how a request ended, and those of streams whose account was lost.
abbrev pub final_rows : List Row → ℕ
final_rows [] = 0
final_rows (retried_row ∷ rows) = final_rows rows
final_rows (final_row ∷ rows) = suc (final_rows rows)
final_rows (early_row ∷ rows) = final_rows rows

abbrev pub early_rows : List Row → ℕ
early_rows [] = 0
early_rows (retried_row ∷ rows) = early_rows rows
early_rows (final_row ∷ rows) = early_rows rows
early_rows (early_row ∷ rows) = suc (early_rows rows)

pub final_rows-append :
    (rows more : List Row) → final_rows (rows ++ more) ≡ final_rows rows + final_rows more
final_rows-append [] more = omega arith
final_rows-append (retried_row ∷ rows) more = final_rows-append rows more
final_rows-append (final_row ∷ rows) more = omega (arith, final_rows-append rows more)
final_rows-append (early_row ∷ rows) more = final_rows-append rows more

pub early_rows-append :
    (rows more : List Row) → early_rows (rows ++ more) ≡ early_rows rows + early_rows more
early_rows-append [] more = omega arith
early_rows-append (retried_row ∷ rows) more = early_rows-append rows more
early_rows-append (final_row ∷ rows) more = early_rows-append rows more
early_rows-append (early_row ∷ rows) more = omega (arith, early_rows-append rows more)

pub record Keeps {W : Type 0} (r q : Run W) : Type 0 where
  pub forwards : q.forwards ≡ r.forwards
  pub armed : q.armed ≡ r.armed
  pub settled : q.settled ≡ r.settled
  pub last_failure : q.last_failure ≡ r.last_failure
  pub stream_failure : q.stream_failure ≡ r.stream_failure
  pub finals : final_rows q.rows ≡ final_rows r.rows

pub Keeps-refl : {W : Type 0} (r : Run W) → Keeps r r
Keeps-refl r = record {
  forwards = refl;
  armed = refl;
  settled = refl;
  last_failure = refl;
  stream_failure = refl;
  finals = refl;
}

Keeps-trans : {W : Type 0} (r q p : Run W) → Keeps r q → Keeps q p → Keeps r p
Keeps-trans r q p k l = record {
  forwards = l.forwards ∙ k.forwards;
  armed = l.armed ∙ k.armed;
  settled = l.settled ∙ k.settled;
  last_failure = l.last_failure ∙ k.last_failure;
  stream_failure = l.stream_failure ∙ k.stream_failure;
  finals = l.finals ∙ k.finals;
}

-- What the choice changes: all but the six.
choosing :
    {W : Type 0} (r : Run W) {world : W} {excluded cooling rejected refused : List ℕ}
    {limited misconfigured last : Bool} {stay : Option Selection} {previous : Option ℕ}
    → Keeps r (record r {
      world = world;
      excluded = excluded;
      cooling = cooling;
      rejected = rejected;
      refused = refused;
      any_rate_limited = limited;
      any_misconfigured = misconfigured;
      last_resort = last;
      stay = stay;
      previous = previous;
    })
choosing r = record {
  forwards = refl;
  armed = refl;
  settled = refl;
  last_failure = refl;
  stream_failure = refl;
  finals = refl;
}

module _ {W : Type 0} (services : Services W) (config : Config) where
  -- The run beside an outcome is kept.
  abbrev RunKept : Run W → Run W × Option Choice → Type 0
  RunKept r p = Keeps r p.0

  log_attempt-Keeps : (r : Run W) → Keeps r (log_attempt services config r)
  unfolding log_attempt
  log_attempt-Keeps r =
      if_all (Keeps r) r.armed _ _
        record {
          forwards = refl;
          armed = refl;
          settled = refl;
          last_failure = refl;
          stream_failure = refl;
          finals = final_rows-append r.rows (retried_row ∷ []) ∙ omega arith;
        }
        (Keeps-refl r)

  admit_channel-Keeps :
      (r : Run W) (s : Selection) (key : ℕ) → RunKept r (admit_channel services config r s key)
  unfolding admit_channel
  admit_channel-Keeps r s key =
      if_all (RunKept r) (services.admits r.world s).1 _ _ (choosing r) (choosing r)

  prepare_channel-Keeps :
      (r : Run W) (s : Selection) (key : ℕ) (stayed : Bool)
      → RunKept r (prepare_channel services config r s key stayed)
  unfolding prepare_channel
  prepare_channel-Keeps r s key stayed =
      let charged =
        log_attempt services config (record r { world = services.charge r.world s.upstream }) in
      let k : Keeps r charged =
        Keeps-trans r (record r { world = services.charge r.world s.upstream }) charged (choosing r)
          (log_attempt-Keeps (record r { world = services.charge r.world s.upstream })) in
      if_all (RunKept r) (not (services.prepare r.world s key)) _ _
        (Keeps-trans r charged _ k (choosing charged))
        (if_all (RunKept r) (config.response_route && not (services.credentials_match s key)) _ _
          (Keeps-refl r)
          (if_all (RunKept r) stayed _ _ (Keeps-refl r) (admit_channel-Keeps r s key)))

  pick_key-Keeps :
      (r : Run W) (s : Selection) (stayed : Bool) → RunKept r (pick_key services config r s stayed)
  unfolding pick_key
  pick_key-Keeps r s stayed =
      let asked : Run W = record r { world = (services.pick r.world s r.refused).0 } in
      option_all (RunKept r) (services.pick r.world s r.refused).1 _ _ (choosing r)
        (λ (p : ℕ × Bool).
          if_all (RunKept r) (p.1 && not stayed && not r.last_resort && not config.selector) _ _
            (choosing r)
            (Keeps-trans r asked _ (choosing r) (prepare_channel-Keeps asked s p.0 stayed)))

  try_channel-Keeps :
      (r : Run W) (s : Selection) (stayed : Bool)
      → RunKept r (try_channel services config r s stayed)
  unfolding try_channel
  try_channel-Keeps r s stayed =
      if_all (RunKept r) config.response_route _ _
        (option_all (RunKept r) (services.route_key s) _ _ (Keeps-refl r)
          (λ key. prepare_channel-Keeps r s key stayed))
        (if_all (RunKept r) (is_empty s.keys) _ _ (prepare_channel-Keeps r s 0 stayed)
          (pick_key-Keeps r s stayed))

  try_selected-Keeps :
      (r : Run W) (selected : Option Selection)
      → RunKept r (try_selected services config r selected)
  unfolding try_selected
  try_selected-Keeps r none =
      if_all (RunKept r) (not r.last_resort && not (is_empty r.cooling)) _ _ (choosing r)
        (Keeps-refl r)
  try_selected-Keeps r (some s) = try_channel-Keeps r s false

  select_answer-Keeps :
      (r : Run W) (answer : Selected)
      → RunKept r (elim answer [
        | broken ↦ (asked services config r, some selection_failed)
        | found selected ↦ try_selected services config (asked services config r) selected
      ])
  select_answer-Keeps r broken = choosing r
  select_answer-Keeps r (found selected) =
      Keeps-trans r (asked services config r) _ (choosing r)
        (try_selected-Keeps (asked services config r) selected)

  select_anew-Keeps : (r : Run W) → RunKept r (select_anew services config r)
  unfolding select_anew
  select_anew-Keeps r =
      if_all (RunKept r) config.selector _ _
        (try_selected-Keeps r (direct_candidate services config config.direct_selection r.excluded))
        (select_answer-Keeps r
          (services.select r.world (routing_exclusions r.excluded r.cooling r.last_resort)).1)

  select_round-Keeps : (r : Run W) → RunKept r (select_round services config r)
  unfolding select_round
  select_round-Keeps r = option_all (RunKept r) r.stay _ _ (select_anew-Keeps r) (λ s.
      Keeps-trans r (record r { stay = none }) _ (choosing r)
        (try_channel-Keeps (record r { stay = none }) s true))

  -- The inner loop writes rows of attempts alone, and forwards nothing.
  pub select_loop-Keeps : (fuel : ℕ) (r : Run W) → RunKept r (select_loop services config fuel r)
  unfolding select_loop
  select_loop-Keeps zero r = Keeps-refl r
  select_loop-Keeps (suc fuel) r =
      let k = select_round-Keeps r in
      option_all (RunKept r) (select_round services config r).1 _ _
        (Keeps-trans r (select_round services config r).0 _ k
          (select_loop-Keeps fuel (select_round services config r).0))
        (λ c. k)
