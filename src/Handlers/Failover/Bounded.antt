-- ===== src/Handlers/Failover/Bounded.antt =====
-- A request ends after a bounded number of attempts, and the rows that it leaves.
use wildtoken.Prelude.{
  ℕ, zero, suc, ◌+◌, ◌≤◌, ◌≡◌, refl, sym, subst, Bool, true, false, not, ◌&&◌, Option, none, some,
  List, ◌==◌, if◌then◌else◌, arith, if_all, option_all, option_all_eq,
}
use wildtoken.Handlers.Failover.{
  Services, Config, Run, Result, Ending, refused_with, stuck, Choice, chosen, nothing_left,
  selection_failed, ended, start, log_and_disarm, select_loop, run_out, give_up, retried_if,
  same_upstream, attempt_choice, attempt_once, attempts, run_proxy_attempts,
}
use wildtoken.Handlers.Failover.Keeps.{final_rows, early_rows, select_loop-Keeps}
use wildtoken.Handlers.Failover.Early.{Tallies, run_proxy_attempts-IsTallied}
use wildtoken.Handlers.Failover.Rounds.{IsRouting, fuel, rounds_left, select_loop-ends}
use wildtoken.Handlers.Failover.Pending.{
  HasFinals, IsPending, IsOver, logged-IsOver, give_up-IsOver, run_out-IsOver, kept-IsPending,
}
use wildtoken.Handlers.Failover.Sent.{
  retried-finals, retried-forwards, IsStep, attempt_channel-IsStep,
}

module _ {W : Type 0} (services : Services W) (config : Config) where
  waited :
      (n : ℕ) (r : Run W) (world : W) → IsPending n r → IsPending n (record r { world = world })
  waited n r world p = record {
    armed = p.armed;
    no_final = p.no_final;
    forwards = p.forwards;
    settled_below = p.settled_below;
    last_open = p.last_open;
    stream_open = p.stream_open;
  }

  -- An ending that no attempt was forwarded for.
  early : (n : ℕ) (p : Run W × Ending) → IsOver n p → IsOver (suc n) p
  early n p over = (omega (arith, over.0), over.1)

  choice-IsStep :
      (final : Bool) (n : ℕ) (r : Run W) (c : Choice)
      → IsPending n r
      → IsStep services config final n (attempt_choice services config final n r c)
  unfolding attempt_choice
  choice-IsStep final n r nothing_left p =
      early n (run_out services config r) (run_out-IsOver services config n r p)
  choice-IsStep final n r selection_failed p =
      early n (give_up services config r) (give_up-IsOver services config n r p)
  choice-IsStep final n r (ended status) p =
      early n (log_and_disarm services config r, refused_with status)
        (logged-IsOver services config n r (refused_with status) (λ m e. e) p)
  choice-IsStep final n r (chosen s key stayed) p =
      let waits =
        not (n == 0)
        && not stayed
        && same_upstream services config r.previous s.upstream
        && config.waits in
      let (world, gone) = services.wait r.world in
      let over : Run W = record r { world = if waits then world else r.world } in
      let over_p : IsPending n over = waited n r (if waits then world else r.world) p in
      if_all (IsStep services config final n) (waits && gone) _ _
        (early n (give_up services config over) (give_up-IsOver services config n over over_p))
        (attempt_channel-IsStep services config final n over s key over_p)

  within : (k m : ℕ) (p : Run W × Ending) → k ≤ m → IsOver k p → IsOver m p
  within k m p h over = (omega (arith, over.0), over.1)

  last-IsOver :
      (n : ℕ) (r : Run W) (e : Option Ending)
      → IsStep services config true n (r, e)
      → IsOver {W = W} (suc n) (r, elim e [ none ↦ stuck | some ending ↦ ending ])
  last-IsOver n r none h = absurd (let impossible : true ≡ false = h.0 in cc)
  last-IsOver n r (some ending) h = h

  next-IsOver :
      (m n : ℕ) (r : Run W) (e : Option Ending) (later : Run W × Ending)
      → suc n ≤ m
      → IsStep services config false n (r, e)
      → (IsPending (suc n) r → IsOver m later)
      → IsOver {W = W} m (elim e [ none ↦ later | some ending ↦ (r, ending) ])
  next-IsOver m n r none later h step go_on = go_on step.1
  next-IsOver m n r (some ending) later h step go_on = within (suc n) m (r, ending) h step

  retried_if-IsOver :
      (m : ℕ) (held : Option Result) (e : Ending) (r : Run W)
      → IsOver m (r, e)
      → IsOver m (retried_if services config held r, e)
  retried_if-IsOver m held e r over =
      option_all (λ (q : Run W). IsOver m (q, e)) held _ _ over
        (λ a. (
          omega (arith, retried-forwards services config a r, over.0),
          subst (HasFinals e) (sym (retried-finals services config a r)) over.1,
        ))

  module _ (ids : List ℕ) (routing : IsRouting ids services config) where
    attempt_once-IsStep :
        (final : Bool) (n : ℕ) (r : Run W)
        → IsPending n r
        → IsStep services config final n
            (attempt_once services config (suc (rounds_left ids r)) final n r)
    unfolding attempt_once
    attempt_once-IsStep final n r p =
        let (c, e) =
          select_loop-ends ids services config routing (suc (rounds_left ids r)) r (omega arith) in
        let (chosen_run, choice) = select_loop services config (suc (rounds_left ids r)) r in
        let chosen_p : IsPending n chosen_run =
          kept-IsPending services config n r chosen_run
            (select_loop-Keeps services config (suc (rounds_left ids r)) r) p in
        option_all_eq (IsStep services config final n) choice _ _ (λ none_left. absurd (cc))
          (λ d _. choice-IsStep final n chosen_run d chosen_p)

    attempts-IsOver :
        (left n : ℕ) (r : Run W)
        → IsPending n r
        → IsOver (suc (left + n)) (attempts services config (fuel ids) left n r)
    unfolding attempts
    attempts-IsOver zero n r p =
        within (suc n) (suc (0 + n)) (attempts services config (fuel ids) zero n r) (omega arith) (
          last-IsOver n (attempt_once services config (fuel ids r) true n r).0
            (attempt_once services config (fuel ids r) true n r).1 (attempt_once-IsStep true n r p))
    attempts-IsOver (suc left) n r p =
        let (next, e) = attempt_once services config (fuel ids r) false n r in
        next-IsOver (suc (suc left + n)) n next e
          (attempts services config (fuel ids) left (suc n) next) (omega arith)
          (attempt_once-IsStep false n r p)
          (λ next_p.
            within (suc (left + suc n)) (suc (suc left + n))
              (attempts services config (fuel ids) left (suc n) next) (omega arith)
              (attempts-IsOver left (suc n) next next_p))

    start-IsPending : (world : W) → IsPending 0 (start world)
    start-IsPending world = record {
      armed = refl;
      no_final = refl;
      forwards = omega arith;
      settled_below = λ m e. absurd (cc);
      last_open = λ a e. absurd (cc);
      stream_open = λ a e. absurd (cc);
    }

    run_proxy_attempts-IsOver :
        (world : W)
        → IsOver (suc config.max_retries) (run_proxy_attempts services config (fuel ids) world)
    unfolding run_proxy_attempts
    run_proxy_attempts-IsOver world =
        let (over, ending) =
          attempts services config (fuel ids) config.max_retries 0 (start world) in
        let h =
          within (suc (config.max_retries + 0)) (suc config.max_retries) (over, ending)
            (omega arith)
            (attempts-IsOver config.max_retries 0 (start world) (start-IsPending world)) in
        retried_if-IsOver (suc config.max_retries) over.stream_failure ending
          (retried_if services config over.last_failure over)
          (retried_if-IsOver (suc config.max_retries) over.last_failure ending over h)

    -- Whatever routing, keys, limiters and upstreams answer, where routing keeps to the channels that
    -- it may select from: a request ends, after at most one attempt more than the retries that are
    -- configured. A refusal and a failure have written exactly one row of how the request ended, and
    -- a response that is still to be delivered none: its body writes it, unless it is a stream whose
    -- row is written early. Such early rows, which are not marked retried either, are exactly as many
    -- as the accounts that were lost while a stream was primed, counted from zero by
    -- a number that the surroundings keep.
    pub run_proxy_attempts-ends :
        (tally : W → ℕ) (world : W)
        → Tallies services tally
        → tally world ≡ 0
        → ((run_proxy_attempts services config (fuel ids) world).0.forwards
            ≤ suc config.max_retries)
          × HasFinals
              (run_proxy_attempts services config (fuel ids) world).1
              (final_rows (run_proxy_attempts services config (fuel ids) world).0.rows)
          × (early_rows (run_proxy_attempts services config (fuel ids) world).0.rows
              ≡ tally (run_proxy_attempts services config (fuel ids) world).0.world)
    run_proxy_attempts-ends tally world tallies none_yet =
        let (bounded, finals) = run_proxy_attempts-IsOver world in
        (
          bounded,
          finals,
          run_proxy_attempts-IsTallied services config tally tallies (fuel ids) world none_yet,
        )
