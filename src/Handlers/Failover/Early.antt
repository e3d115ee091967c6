-- ===== src/Handlers/Failover/Early.antt =====
-- The rows of streams whose account was lost are as many as the accounts that Prime lost.
use wildtoken.Prelude.{
  ℕ, zero, suc, ◌+◌, ◌≡◌, refl, sym, ◌∙◌, Bool, true, false, not, ◌&&◌, ◌||◌, Option, none, some,
  List, [], ◌∷◌, ◌++◌, ◌==◌, if◌then◌else◌, arith, if_all, option_all,
}
use wildtoken.Handlers.Failover.{
  retried_row, charge_all, asked, routing_exclusions, direct_candidate, is_empty, log_attempt,
  admit_channel, prepare_channel, pick_key, try_channel, try_selected, select_anew, select_round,
  broken, found, Selected, final_row, Row, Selection, Services, Config, Run, Result, Response,
  Outcome, answered, unpreserved, no_answer, Primed, has_content, no_content, account_lost, Choice,
  chosen, nothing_left, selection_failed, ended, start, member, replaced_row, held_row, primed_rows,
  primed_outcome, is_content, received, log_and_disarm, retried, concluded, replay, run_out,
  give_up, same_number, replace_last, retried_if, primed, status_failed, is_streaming, succeed,
  bench_key, refusal_of, keep_failure, exclude, is_none, not_fault, end_failed, settle_attempt,
  attempt_channel, same_upstream, attempt_choice, select_loop, attempt_once, attempts,
  run_proxy_attempts,
}
use wildtoken.Handlers.Failover.Keeps.{early_rows, early_rows-append}

abbrev lost : Primed → ℕ
lost has_content = 0
lost no_content = 0
lost account_lost = 1

-- A number that the surroundings keep, which counts the accounts that Prime loses and nothing else.
pub record Tallies {W : Type 0} (services : Services W) (tally : W → ℕ) : Type 0 where
  pub select : (w : W) (excluded : List ℕ) → tally (services.select w excluded).0 ≡ tally w
  pub pick :
      (w : W) (s : Selection) (refused : List ℕ) → tally (services.pick w s refused).0 ≡ tally w
  pub admits : (w : W) (s : Selection) → tally (services.admits w s).0 ≡ tally w
  pub charge : (w : W) (id : ℕ) → tally (services.charge w id) ≡ tally w
  pub forward : (w : W) (s : Selection) (key : ℕ) → tally (services.forward w s key).0 ≡ tally w
  pub prime :
      (w : W) (response : Response)
      → tally (services.prime w response).0 ≡ tally w + lost (services.prime w response).1
  pub clear : (w : W) (key : ℕ) → tally (services.clear w key) ≡ tally w
  pub bench : (w : W) (key : ℕ) → tally (services.bench w key) ≡ tally w
  pub wait : (w : W) → tally (services.wait w).0 ≡ tally w

abbrev pub IsTallied : {W : Type 0} → (W → ℕ) → Run W → Type 0
IsTallied tally r = early_rows r.rows ≡ tally r.world

module _ {W : Type 0} (services : Services W) (config : Config) (tally : W → ℕ) where
  abbrev TalliedBy : {A : Type 0} → Run W × A → Type 0
  TalliedBy p = IsTallied tally p.0

  tallied-append :
      (rows more : List Row) (n : ℕ)
      → early_rows more ≡ 0
      → early_rows rows ≡ n
      → early_rows (rows ++ more) ≡ n
  tallied-append rows more n e h = omega (arith, early_rows-append rows more, e, h)

  replaced_row-early : (outcome : Outcome) → early_rows (replaced_row services config outcome) ≡ 0
  replaced_row-early (answered response) = refl
  replaced_row-early (unpreserved response) = refl
  replaced_row-early no_answer = refl

  held_row-early : (outcome : Outcome) → early_rows (held_row services config outcome) ≡ 0
  held_row-early (answered response) = refl
  held_row-early (unpreserved response) = refl
  held_row-early no_answer = refl

  log_and_disarm-IsTallied :
      (r : Run W) → IsTallied tally r → IsTallied tally (log_and_disarm services config r)
  unfolding log_and_disarm
  log_and_disarm-IsTallied r f =
      if_all (IsTallied tally) r.armed _ _
        (tallied-append r.rows (final_row ∷ []) (tally r.world) refl f) f

  retried-IsTallied :
      (a : Result) (r : Run W) → IsTallied tally r → IsTallied tally (retried services config a r)
  unfolding retried
  retried-IsTallied a r f = if_all (IsTallied tally) (member a.number r.settled) _ _ f (
      tallied-append r.rows (replaced_row services config a.outcome) (tally r.world)
        (replaced_row-early a.outcome) f)

  concluded-IsTallied :
      (a : Result) (r : Run W) → IsTallied tally r → IsTallied tally (concluded services config a r)
  unfolding concluded
  concluded-IsTallied a r f = if_all (IsTallied tally) (member a.number r.settled) _ _ f (
      tallied-append r.rows (held_row services config a.outcome) (tally r.world)
        (held_row-early a.outcome) f)

  retried_if-IsTallied :
      (held : Option Result) (r : Run W)
      → IsTallied tally r
      → IsTallied tally (retried_if services config held r)
  retried_if-IsTallied held r f =
      option_all (IsTallied tally) held _ _ f (λ a. retried-IsTallied a r f)

  replay-IsTallied :
      (a : Result) (r : Run W) → IsTallied tally r → TalliedBy (replay services config a r)
  unfolding replay
  replay-IsTallied a r f = concluded-IsTallied a (record r { stream_failure = none }) f

  give_up-IsTallied : (r : Run W) → IsTallied tally r → TalliedBy (give_up services config r)
  unfolding give_up
  give_up-IsTallied r f =
      option_all TalliedBy r.stream_failure _ _ (log_and_disarm-IsTallied r f)
        (λ a. replay-IsTallied a r f)

  run_out-IsTallied : (r : Run W) → IsTallied tally r → TalliedBy (run_out services config r)
  unfolding run_out
  run_out-IsTallied r f =
      let logged = log_and_disarm-IsTallied r f in
      option_all TalliedBy r.stream_failure _ _
        (option_all TalliedBy r.last_failure _ _
          (if_all TalliedBy r.any_rate_limited _ _ logged
            (if_all TalliedBy r.any_misconfigured _ _ logged logged))
          (λ a. concluded-IsTallied a (record r { last_failure = none }) f))
        (λ a. replay-IsTallied a r f)

  replace_last-IsTallied :
      (r : Run W) → IsTallied tally r → IsTallied tally (replace_last services config r)
  unfolding replace_last
  replace_last-IsTallied r f = option_all (IsTallied tally) r.last_failure _ _ f (λ a.
      if_all (IsTallied tally) (same_number services config (some a) r.stream_failure) _ _ f
        (retried-IsTallied a r f))

  keep_failure-IsTallied :
      (r : Run W) (s : Selection) (a : Result) (stream_failed : Bool)
      → IsTallied tally r
      → IsTallied tally (keep_failure services config r s a stream_failed)
  unfolding keep_failure
  keep_failure-IsTallied r s a stream_failed f =
      if_all (IsTallied tally) stream_failed _ _
        (retried_if-IsTallied r.stream_failure (exclude services config r s) f)
        (if_all (IsTallied tally)
          (is_none services config r.stay && not_fault services config a.outcome) _ _ f f)

  end_failed-IsTallied :
      (r : Run W) (a : Result) (stream_failed : Bool)
      → IsTallied tally r
      → TalliedBy (end_failed services config r a stream_failed)
  unfolding end_failed
  end_failed-IsTallied r a stream_failed f =
      option_all TalliedBy r.stream_failure _ _ (concluded-IsTallied a r f) (λ held.
        if_all TalliedBy stream_failed _ _ (concluded-IsTallied a r f)
          (replay-IsTallied held (retried services config a r) (retried-IsTallied a r f)))

  module _ (tallies : Tallies services tally) where
    -- A run that is tallied stays so where its surroundings keep the number.
    world-IsTallied :
        (r : Run W) (w : W)
        → tally w ≡ tally r.world
        → IsTallied tally r
        → early_rows r.rows ≡ tally w
    world-IsTallied r w e h = h ∙ sym e

    log_attempt-IsTallied :
        (r : Run W) → IsTallied tally r → IsTallied tally (log_attempt services config r)
    unfolding log_attempt
    log_attempt-IsTallied r h =
        if_all (IsTallied tally) r.armed _ _
          (tallied-append r.rows (retried_row ∷ []) (tally r.world) refl h) h

    admit_channel-IsTallied :
        (r : Run W) (s : Selection) (key : ℕ)
        → IsTallied tally r
        → TalliedBy (admit_channel services config r s key)
    unfolding admit_channel
    admit_channel-IsTallied r s key h =
        let k = world-IsTallied r (services.admits r.world s).0 (tallies.admits r.world s) h in
        if_all TalliedBy (services.admits r.world s).1 _ _ k k

    prepare_channel-IsTallied :
        (r : Run W) (s : Selection) (key : ℕ) (stayed : Bool)
        → IsTallied tally r
        → TalliedBy (prepare_channel services config r s key stayed)
    unfolding prepare_channel
    prepare_channel-IsTallied r s key stayed h =
        let k : IsTallied tally (record r { world = services.charge r.world s.upstream }) =
          world-IsTallied r (services.charge r.world s.upstream) (tallies.charge r.world s.upstream)
            h in
        if_all TalliedBy (not (services.prepare r.world s key)) _ _
          (log_attempt-IsTallied (record r { world = services.charge r.world s.upstream }) k)
          (if_all TalliedBy (config.response_route && not (services.credentials_match s key)) _ _ h
            (if_all TalliedBy stayed _ _ h (admit_channel-IsTallied r s key h)))

    pick_key-IsTallied :
        (r : Run W) (s : Selection) (stayed : Bool)
        → IsTallied tally r
        → TalliedBy (pick_key services config r s stayed)
    unfolding pick_key
    pick_key-IsTallied r s stayed h =
        let asked : Run W = record r { world = (services.pick r.world s r.refused).0 } in
        let k : IsTallied tally asked =
          world-IsTallied r asked.world (tallies.pick r.world s r.refused) h in
        option_all TalliedBy (services.pick r.world s r.refused).1 _ _ k (λ (p : ℕ × Bool).
          if_all TalliedBy (p.1 && not stayed && not r.last_resort && not config.selector) _ _ k
            (prepare_channel-IsTallied asked s p.0 stayed k))

    try_channel-IsTallied :
        (r : Run W) (s : Selection) (stayed : Bool)
        → IsTallied tally r
        → TalliedBy (try_channel services config r s stayed)
    unfolding try_channel
    try_channel-IsTallied r s stayed h =
        if_all TalliedBy config.response_route _ _
          (option_all TalliedBy (services.route_key s) _ _ h
            (λ key. prepare_channel-IsTallied r s key stayed h))
          (if_all TalliedBy (is_empty s.keys) _ _ (prepare_channel-IsTallied r s 0 stayed h)
            (pick_key-IsTallied r s stayed h))

    try_selected-IsTallied :
        (r : Run W) (selected : Option Selection)
        → IsTallied tally r
        → TalliedBy (try_selected services config r selected)
    unfolding try_selected
    try_selected-IsTallied r none h =
        if_all TalliedBy (not r.last_resort && not (is_empty r.cooling)) _ _ h h
    try_selected-IsTallied r (some s) h = try_channel-IsTallied r s false h

    select_answer-IsTallied :
        (r : Run W) (answer : Selected)
        → IsTallied tally r
        → TalliedBy {A = Option Choice} (elim answer [
          | broken ↦ (r, some selection_failed)
          | found selected ↦ try_selected services config r selected
        ])
    select_answer-IsTallied r broken h = h
    select_answer-IsTallied r (found selected) h = try_selected-IsTallied r selected h

    select_anew-IsTallied :
        (r : Run W) → IsTallied tally r → TalliedBy (select_anew services config r)
    unfolding select_anew
    select_anew-IsTallied r h =
        let out = routing_exclusions r.excluded r.cooling r.last_resort in
        if_all TalliedBy config.selector _ _
          (try_selected-IsTallied r
            (direct_candidate services config config.direct_selection r.excluded) h)
          (select_answer-IsTallied (asked services config r) (services.select r.world out).1
            (world-IsTallied r (services.select r.world out).0 (tallies.select r.world out) h))

    select_round-IsTallied :
        (r : Run W) → IsTallied tally r → TalliedBy (select_round services config r)
    unfolding select_round
    select_round-IsTallied r h =
        option_all TalliedBy r.stay _ _ (select_anew-IsTallied r h)
          (λ s. try_channel-IsTallied (record r { stay = none }) s true h)

    select_loop-IsTallied :
        (fuel : ℕ) (r : Run W) → IsTallied tally r → TalliedBy (select_loop services config fuel r)
    unfolding select_loop
    select_loop-IsTallied zero r h = h
    select_loop-IsTallied (suc fuel) r h =
        let k = select_round-IsTallied r h in
        option_all TalliedBy (select_round services config r).1 _ _
          (select_loop-IsTallied fuel (select_round services config r).0 k) (λ c. k)

    bench_key-IsTallied :
        (r : Run W) (s : Selection) (key : ℕ) (outcome : Outcome)
        → IsTallied tally r
        → IsTallied tally (bench_key services config r s key outcome)
    unfolding bench_key
    bench_key-IsTallied r s key outcome h =
        if_all (IsTallied tally) (not (key == 0) && refusal_of services config outcome) _ _
          (world-IsTallied r (services.bench r.world key) (tallies.bench r.world key) h) h

    charge_all-tally : (w : W) (ids : List ℕ) → tally (charge_all services config w ids) ≡ tally w
    charge_all-tally w [] = refl
    charge_all-tally w (id ∷ ids) =
        charge_all-tally (services.charge w id) ids ∙ tallies.charge w id

    succeed-IsTallied :
        (r : Run W) (key : ℕ) (a : Result)
        → IsTallied tally r
        → TalliedBy (succeed services config r key a)
    unfolding succeed
    succeed-IsTallied r key a h =
        h
        ∙ sym (charge_all-tally (services.clear r.world key) r.rejected ∙ tallies.clear r.world key)

    settle_attempt-IsTallied :
        (final : Bool) (r : Run W) (s : Selection) (key : ℕ) (a : Result) (stream_failed : Bool)
        → IsTallied tally r
        → TalliedBy (settle_attempt services config final r s key a stream_failed)
    unfolding settle_attempt
    settle_attempt-IsTallied final r s key a stream_failed f =
        let benched = bench_key services config r s key a.outcome in
        let g = bench_key-IsTallied r s key a.outcome f in
        if_all TalliedBy (not (status_failed services config a.outcome || stream_failed)) _ _
          (succeed-IsTallied r key a f)
          (if_all TalliedBy (final || services.client_gone benched.world) _ _
            (end_failed-IsTallied benched a stream_failed g)
            (keep_failure-IsTallied benched s a stream_failed g))

    primed_rows-lost : (made : Primed) → early_rows (primed_rows services config made) ≡ lost made
    primed_rows-lost has_content = refl
    primed_rows-lost no_content = refl
    primed_rows-lost account_lost = refl

    primed-tally :
        (w : W) (outcome : Outcome)
        → tally (primed services config w outcome).0
          ≡ tally w + lost (primed services config w outcome).1
    primed-tally w (answered response) = tallies.prime w response
    primed-tally w (unpreserved response) = omega arith
    primed-tally w no_answer = omega arith

    sent-tally :
        (rows : List Row) (w : W) (outcome : Outcome) (holds : Bool)
        → early_rows rows ≡ tally w
        → early_rows (
            rows
            ++ (if holds
                then primed_rows services config (primed services config w outcome).1
                else []))
          ≡ tally (if holds then (primed services config w outcome).0 else w)
    sent-tally rows w outcome true h =
        let (next, made) = primed services config w outcome in
        omega (
          arith,
          early_rows-append rows (primed_rows services config made),
          primed_rows-lost made,
          primed-tally w outcome,
          h,
        )
    sent-tally rows w outcome false h = tallied-append rows [] (tally w) refl h

    attempt_channel-IsTallied :
        (final : Bool) (n : ℕ) (r : Run W) (s : Selection) (key : ℕ)
        → IsTallied tally r
        → TalliedBy (attempt_channel services config final n r s key)
    unfolding attempt_channel
    attempt_channel-IsTallied final n r s key f =
        let replaced = replace_last services config r in
        let (world, answer) = services.forward replaced.world s key in
        let outcome = received services config answer in
        let holds =
          not (status_failed services config outcome)
          && is_streaming services config outcome
          && config.holds_stream
          && not final in
        let (held_world, made) = primed services config world outcome in
        let sent : Run W = record replaced {
          world = if holds then held_world else world;
          rows = replaced.rows ++ (if holds then primed_rows services config made else []);
          forwards = suc replaced.forwards;
        } in
        let settled = if holds then primed_outcome services config made outcome else outcome in
        settle_attempt-IsTallied final sent s key (record { number = n; outcome = settled })
          (holds && not (is_content services config made))
          (sent-tally replaced.rows world outcome holds (
            world-IsTallied replaced world (tallies.forward replaced.world s key)
              (replace_last-IsTallied r f)))

    choice-IsTallied :
        (final : Bool) (n : ℕ) (r : Run W) (c : Choice)
        → IsTallied tally r
        → TalliedBy (attempt_choice services config final n r c)
    unfolding attempt_choice
    choice-IsTallied final n r nothing_left f = run_out-IsTallied r f
    choice-IsTallied final n r selection_failed f = give_up-IsTallied r f
    choice-IsTallied final n r (ended status) f = log_and_disarm-IsTallied r f
    choice-IsTallied final n r (chosen s key stayed) f =
        let waits =
          not (n == 0)
          && not stayed
          && same_upstream services config r.previous s.upstream
          && config.waits in
        let (world, gone) = services.wait r.world in
        let over : Run W = record r { world = if waits then world else r.world } in
        let g : IsTallied tally over =
          if_all (λ (w : W). early_rows r.rows ≡ tally w) waits _ _
            (world-IsTallied r world (tallies.wait r.world) f) f in
        if_all TalliedBy (waits && gone) _ _ (give_up-IsTallied over g)
          (attempt_channel-IsTallied final n over s key g)

    attempt_once-IsTallied :
        (fuel : ℕ) (final : Bool) (n : ℕ) (r : Run W)
        → IsTallied tally r
        → TalliedBy (attempt_once services config fuel final n r)
    unfolding attempt_once
    attempt_once-IsTallied fuel final n r f =
        let (next, choice) = select_loop services config fuel r in
        let g : IsTallied tally next = select_loop-IsTallied fuel r f in
        option_all TalliedBy choice _ _ g (λ c. choice-IsTallied final n next c g)

    attempts-IsTallied :
        (fuel : Run W → ℕ) (left n : ℕ) (r : Run W)
        → IsTallied tally r
        → TalliedBy (attempts services config fuel left n r)
    unfolding attempts
    attempts-IsTallied fuel zero n r f = attempt_once-IsTallied (fuel r) true n r f
    attempts-IsTallied fuel (suc left) n r f =
        let (next, e) = attempt_once services config (fuel r) false n r in
        let g : IsTallied tally next = attempt_once-IsTallied (fuel r) false n r f in
        option_all TalliedBy e _ _ (attempts-IsTallied fuel left (suc n) next g) (λ ending. g)

    pub run_proxy_attempts-IsTallied :
        (fuel : Run W → ℕ) (world : W)
        → tally world ≡ 0
        → IsTallied tally (run_proxy_attempts services config fuel world).0
    unfolding run_proxy_attempts
    run_proxy_attempts-IsTallied fuel world none_yet =
        let (over, ending) = attempts services config fuel config.max_retries 0 (start world) in
        let f : IsTallied tally over =
          attempts-IsTallied fuel config.max_retries 0 (start world) (sym none_yet) in
        retried_if-IsTallied over.stream_failure (retried_if services config over.last_failure over)
          (retried_if-IsTallied over.last_failure over f)
