-- ===== src/Handlers/Failover.antt =====
-- internal/handlers/proxy.go: runProxyAttempts, which forwards a request to one channel after another.
-- What it asks of routing, keys, limiters, health and the upstreams is the interface `Services`,
-- over a state of their own. Keys are ids, where 0 is no key; an error of an attempt has its row held.
pub mod Rounds
pub mod Keeps
pub mod Pending
pub mod Sent
pub mod Early
pub mod Bounded
mod Examples
use wildtoken.Prelude.{
  ℕ, zero, suc, ◌+◌, ◌-◌, ◌≤◌, ◌<◌, ◌≡◌, Bool, true, false, not, ◌&&◌, ◌||◌, Option, none, some,
  List, [], ◌∷◌, ◌++◌, leb, ltb, ◌==◌, if◌then◌else◌,
}

-- The channel that a selection names, and its keys.
pub record Selection : Type 0 where
  pub upstream : ℕ
  pub keys : List ℕ

pub data Selected : Type 0 where
  broken : Selected
  found : Option Selection → Selected

pub record Response : Type 0 where
  pub status : ℕ
  pub streaming : Bool

-- What an attempt comes to: an answer, whose row its body writes; a stream whose row is written since
-- its account could not be preserved while it was primed; or no answer, with a row held back.
pub data Outcome : Type 0 where
  answered : Response → Outcome
  unpreserved : Response → Outcome
  no_answer : Outcome

-- What Prime comes to: content, a failure before any, or one to preserve the response's account,
-- for which it has written a row.
pub data Primed : Type 0 where
  has_content : Primed
  no_content : Primed
  account_lost : Primed

pub record Services (W : Type 0) : Type 0 where
  pub select : W → List ℕ → W × Selected
  pub pick : W → Selection → List ℕ → W × Option (ℕ × Bool)
  pub prepare : W → Selection → ℕ → Bool
  pub admits : W → Selection → W × Bool
  pub charge : W → ℕ → W
  pub forward : W → Selection → ℕ → W × Option Response
  pub prime : W → Response → W × Primed
  pub clear : W → ℕ → W
  pub bench : W → ℕ → W
  pub has_fresh : W → Selection → List ℕ → Bool
  pub client_gone : W → Bool
  pub wait : W → W × Bool
  pub route_key : Selection → Option ℕ
  pub credentials_match : Selection → ℕ → Bool

-- The fields of proxyAttemptConfig that decide what happens.
pub record Config : Type 0 where
  pub max_retries : ℕ
  pub selector : Bool
  pub direct_selection : Option Selection
  pub response_route : Bool
  pub holds_stream : Bool
  pub waits : Bool

-- A row of the log: one that is marked retried, of an attempt that another one replaced; one that is
-- not, of how the request ended; and one that is not, of a stream whose account was lost.
pub data Row : Type 0 where
  retried_row : Row
  final_row : Row
  early_row : Row

-- attemptResult; the number tells two of them apart, as their addresses do.
pub record Result : Type 0 where
  pub number : ℕ
  pub outcome : Outcome

pub data Ending : Type 0 where
  refused_with : ℕ → Ending
  failed : Ending
  delivered : ℕ → Response → Ending
  delivered_logged : ℕ → Response → Ending
  stuck : Ending

-- What ends the choice of a channel.
pub data Choice : Type 0 where
  chosen : Selection → ℕ → Bool → Choice
  nothing_left : Choice
  selection_failed : Choice
  ended : ℕ → Choice

pub record Run (W : Type 0) : Type 0 where
  pub world : W
  pub rows : List Row
  pub armed : Bool
  pub settled : List ℕ
  pub last_failure : Option Result
  pub stream_failure : Option Result
  pub excluded : List ℕ
  pub any_rate_limited : Bool
  pub any_misconfigured : Bool
  pub rejected : List ℕ
  pub refused : List ℕ
  pub cooling : List ℕ
  pub last_resort : Bool
  pub stay : Option Selection
  pub previous : Option ℕ
  pub forwards : ℕ

abbrev pub start : {W : Type 0} → W → Run W
start world = record {
  world = world;
  rows = [];
  armed = true;
  settled = [];
  last_failure = none;
  stream_failure = none;
  excluded = [];
  any_rate_limited = false;
  any_misconfigured = false;
  rejected = [];
  refused = [];
  cooling = [];
  last_resort = false;
  stay = none;
  previous = none;
  forwards = 0;
}

abbrev pub member : ℕ → List ℕ → Bool
member id [] = false
member id (x ∷ xs) = if x == id then true else member id xs

abbrev pub is_empty : List ℕ → Bool
is_empty [] = true
is_empty (x ∷ xs) = false

-- routingExclusions
abbrev pub routing_exclusions : List ℕ → List ℕ → Bool → List ℕ
routing_exclusions excluded cooling last_resort =
    if last_resort || is_empty cooling then excluded else excluded ++ cooling

-- KeyRefused and IsChannelFault
abbrev pub key_refused : ℕ → Bool
key_refused status = status == 401 || status == 403 || status == 429

abbrev pub is_channel_fault : ℕ → Bool
is_channel_fault status = ltb status 400 || leb 500 status || status == 408 || status == 429

module _ {W : Type 0} (services : Services W) (config : Config) where
  -- logAndDisarm and logAttempt
  unfoldable pub log_and_disarm : Run W → Run W
  log_and_disarm r =
      if r.armed then record r { armed = false; rows = r.rows ++ final_row ∷ [] } else r

  unfoldable pub log_attempt : Run W → Run W
  log_attempt r = if r.armed then record r { rows = r.rows ++ retried_row ∷ [] } else r

  -- attemptResult.retried and attemptResult.concluded: an answer that is retried closes its body,
  -- which writes the row, but for a stream whose row is written.
  abbrev replaced_row : Outcome → List Row
  replaced_row (answered response) = retried_row ∷ []
  replaced_row (unpreserved response) = []
  replaced_row no_answer = retried_row ∷ []

  unfoldable pub retried : Result → Run W → Run W
  retried a r =
      if member a.number r.settled
      then r
      else record r { settled = a.number ∷ r.settled; rows = r.rows ++ replaced_row a.outcome }

  abbrev held_row : Outcome → List Row
  held_row (answered response) = []
  held_row (unpreserved response) = []
  held_row no_answer = final_row ∷ []

  unfoldable pub concluded : Result → Run W → Run W
  concluded a r =
      if member a.number r.settled
      then r
      else record r { settled = a.number ∷ r.settled; rows = r.rows ++ held_row a.outcome }

  abbrev ending_of : Result → Ending
  ending_of a = elim a.outcome [
    | answered response ↦ delivered a.number response
    | unpreserved response ↦ delivered_logged a.number response
    | no_answer ↦ failed
  ]

  unfoldable pub replay : Result → Run W → Run W × Ending
  unfolding concluded
  replay a r =
      (record (concluded a (record r { stream_failure = none })) { armed = false }, ending_of a)

  abbrev exclude : Run W → Selection → Run W
  exclude r s = record r { excluded = s.upstream ∷ r.excluded }

  -- The end of a round of the inner loop; `none` is `continue`.
  unfoldable pub admit_channel : Run W → Selection → ℕ → Run W × Option Choice
  admit_channel r s key =
      let (world, admitted) = services.admits r.world s in
      let asked : Run W = record r { world = world } in
      if admitted
      then (asked, some (chosen s key false))
      else (record (exclude asked s) { any_rate_limited = true }, none)

  unfoldable pub prepare_channel : Run W → Selection → ℕ → Bool → Run W × Option Choice
  unfolding log_attempt admit_channel
  prepare_channel r s key stayed =
      let charged = log_attempt (record r { world = services.charge r.world s.upstream }) in
      if not (services.prepare r.world s key)
      then (record (exclude charged s) { any_misconfigured = true }, none)
      else if config.response_route && not (services.credentials_match s key)
      then (r, some (ended 409))
      else if stayed
      then (r, some (chosen s key true))
      else admit_channel r s key

  unfoldable pub pick_key : Run W → Selection → Bool → Run W × Option Choice
  unfolding prepare_channel
  pick_key r s stayed =
      let (world, picked) = services.pick r.world s r.refused in
      let asked : Run W = record r { world = world } in
      elim picked [
        | none ↦ (exclude asked s, none)
        | some (key, benched) ↦
            (if benched && not stayed && not r.last_resort && not config.selector
              then (record asked { cooling = s.upstream ∷ r.cooling }, none)
              else prepare_channel asked s key stayed)
      ]

  unfoldable pub try_channel : Run W → Selection → Bool → Run W × Option Choice
  unfolding prepare_channel pick_key
  try_channel r s stayed =
      if config.response_route
      then elim (services.route_key s) [
        | none ↦ (r, some (ended 404))
        | some key ↦ prepare_channel r s key stayed
      ]
      else if is_empty s.keys
      then prepare_channel r s 0 stayed
      else pick_key r s stayed

  unfoldable pub try_selected : Run W → Option Selection → Run W × Option Choice
  unfolding try_channel
  try_selected r none =
      if not r.last_resort && not (is_empty r.cooling)
      then (record r { last_resort = true }, none)
      else (r, some nothing_left)
  try_selected r (some s) = try_channel r s false

  abbrev pub direct_candidate : Option Selection → List ℕ → Option Selection
  direct_candidate none excluded = none
  direct_candidate (some s) excluded = if member s.upstream excluded then none else some s

  -- The state after SelectUpstream, and what its answer leads to.
  abbrev pub asked : Run W → Run W
  asked r = record r {
    world = (services.select r.world (routing_exclusions r.excluded r.cooling r.last_resort)).0;
  }

  unfoldable pub select_anew : Run W → Run W × Option Choice
  unfolding try_selected
  select_anew r =
      if config.selector
      then try_selected r (direct_candidate config.direct_selection r.excluded)
      else elim (services.select r.world
          (routing_exclusions r.excluded r.cooling r.last_resort)).1 [
            | broken ↦ (asked r, some selection_failed)
            | found selected ↦ try_selected (asked r) selected
          ]

  -- One round of the inner loop.
  unfoldable pub select_round : Run W → Run W × Option Choice
  unfolding try_channel select_anew
  select_round r = elim r.stay [
    | some s ↦ try_channel (record r { stay = none }) s true
    | none ↦ select_anew r
  ]

  -- The inner loop, on fuel.
  unfoldable pub select_loop : ℕ → Run W → Run W × Option Choice
  unfolding select_round
  select_loop zero r = (r, none)
  select_loop (suc fuel) r =
      let (next, choice) = select_round r in
      let later = select_loop fuel next in elim choice [ none ↦ later | some c ↦ (next, some c) ]

  -- What the request ends with when no channel is left.
  unfoldable pub run_out : Run W → Run W × Ending
  unfolding replay concluded log_and_disarm
  run_out r = elim r.stream_failure [
    | some a ↦ replay a r
    | none ↦ elim r.last_failure [
      | some a ↦ (concluded a (record r { last_failure = none }), ending_of a)
      | none ↦
          (if r.any_rate_limited
            then (log_and_disarm r, refused_with 429)
            else if r.any_misconfigured
            then (log_and_disarm r, refused_with 502)
            else (log_and_disarm r, refused_with 503))
    ]
  ]

  -- An error where a stream's headers may be out.
  unfoldable pub give_up : Run W → Run W × Ending
  unfolding replay log_and_disarm
  give_up r = elim r.stream_failure [ some a ↦ replay a r | none ↦ (log_and_disarm r, failed) ]

  abbrev same_number : Option Result → Option Result → Bool
  same_number (some a) (some b) = a.number == b.number
  same_number _ _ = false

  -- The previous failure, once a new attempt has a route.
  unfoldable pub replace_last : Run W → Run W
  unfolding retried
  replace_last r = elim r.last_failure [
    | none ↦ r
    | some a ↦
        (if same_number (some a) r.stream_failure
          then record r { last_failure = none }
          else record (retried a r) { last_failure = none })
  ]

  abbrev status_failed : Outcome → Bool
  status_failed no_answer = true
  status_failed (unpreserved response) = ltb response.status 200 || leb 300 response.status
  status_failed (answered response) = ltb response.status 200 || leb 300 response.status

  abbrev is_streaming : Outcome → Bool
  is_streaming no_answer = false
  is_streaming (unpreserved response) = response.streaming
  is_streaming (answered response) = response.streaming

  abbrev received : Option Response → Outcome
  received none = no_answer
  received (some response) = answered response

  abbrev primed : W → Outcome → W × Primed
  primed w no_answer = (w, has_content)
  primed w (unpreserved response) = (w, no_content)
  primed w (answered response) = services.prime w response

  -- What Prime made of an attempt: whether the stream failed, and the row that it wrote.
  abbrev is_content : Primed → Bool
  is_content has_content = true
  is_content no_content = false
  is_content account_lost = false

  abbrev primed_outcome : Primed → Outcome → Outcome
  primed_outcome account_lost (answered response) = unpreserved response
  primed_outcome _ outcome = outcome

  abbrev primed_rows : Primed → List Row
  primed_rows account_lost = early_row ∷ []
  primed_rows _ = []

  abbrev charge_all : W → List ℕ → W
  charge_all w [] = w
  charge_all w (u ∷ us) = charge_all (services.charge w u) us

  -- The attempt succeeded: its key is cleared, and the channels that rejected the request pay.
  unfoldable pub succeed : Run W → ℕ → Result → Run W × Ending
  succeed r key a =
      (record r { world = charge_all (services.clear r.world key) r.rejected }, ending_of a)

  abbrev refusal_of : Outcome → Bool
  refusal_of no_answer = false
  refusal_of (unpreserved response) = key_refused response.status
  refusal_of (answered response) = key_refused response.status

  abbrev is_limit : Outcome → Bool
  is_limit no_answer = false
  is_limit (unpreserved response) = response.status == 429
  is_limit (answered response) = response.status == 429

  unfoldable pub bench_key : Run W → Selection → ℕ → Outcome → Run W
  bench_key r s key outcome =
      let world = services.bench r.world key in
      let refused : List ℕ = if is_limit outcome then r.refused else key ∷ r.refused in
      let fresh = not config.response_route && services.has_fresh world s refused in
      let benched : Run W = record r { world = world; refused = refused } in
      if not (key == 0) && refusal_of outcome
      then record benched { stay = if fresh then some s else r.stay }
      else r

  abbrev not_fault : Outcome → Bool
  not_fault no_answer = false
  not_fault (unpreserved response) = not (is_channel_fault response.status)
  not_fault (answered response) = not (is_channel_fault response.status)

  abbrev is_none : Option Selection → Bool
  is_none none = true
  is_none (some s) = false

  abbrev retried_if : Option Result → Run W → Run W
  retried_if held r = elim held [ none ↦ r | some a ↦ retried a r ]

  -- The `switch` at the end of an attempt that another may follow.
  unfoldable pub keep_failure : Run W → Selection → Result → Bool → Run W
  unfolding retried
  keep_failure r s a stream_failed =
      let kept : Run W =
        if stream_failed
        then record (retried_if r.stream_failure (exclude r s)) { stream_failure = some a }
        else if is_none r.stay && not_fault a.outcome
        then record (exclude r s) { rejected = s.upstream ∷ r.rejected }
        else r in
      record kept { previous = some s.upstream; last_failure = some a }

  -- The end of an attempt that no other may follow.
  unfoldable pub end_failed : Run W → Result → Bool → Run W × Ending
  unfolding retried replay concluded
  end_failed r a stream_failed = elim r.stream_failure [
    | some held ↦
        (if stream_failed then (concluded a r, ending_of a) else replay held (retried a r))
    | none ↦ (concluded a r, ending_of a)
  ]

  -- What follows an attempt, whose failure may be that of a stream before any content.
  unfoldable pub settle_attempt :
      Bool → Run W → Selection → ℕ → Result → Bool → Run W × Option Ending
  unfolding succeed bench_key keep_failure end_failed
  settle_attempt final r s key a stream_failed =
      let benched = bench_key r s key a.outcome in
      if not (status_failed a.outcome || stream_failed)
      then (let (over, e) = succeed r key a in (over, some e))
      else if final || services.client_gone benched.world
      then (let (over, e) = end_failed benched a stream_failed in (over, some e))
      else (keep_failure benched s a stream_failed, none)

  -- One attempt at a channel, from the forward on; `none` goes on to the next.
  unfoldable pub attempt_channel : Bool → ℕ → Run W → Selection → ℕ → Run W × Option Ending
  unfolding replace_last settle_attempt
  attempt_channel final number r s key =
      let replaced = replace_last r in
      let (world, answer) = services.forward replaced.world s key in
      let outcome = received answer in
      let holds =
        not (status_failed outcome) && is_streaming outcome && config.holds_stream && not final in
      let (held_world, content) = primed world outcome in
      let sent : Run W = record replaced {
        world = if holds then held_world else world;
        rows = replaced.rows ++ (if holds then primed_rows content else []);
        forwards = suc replaced.forwards;
      } in
      let settled = if holds then primed_outcome content outcome else outcome in
      settle_attempt final sent s key (record { number = number; outcome = settled })
        (holds && not (is_content content))

  abbrev same_upstream : Option ℕ → ℕ → Bool
  same_upstream none id = false
  same_upstream (some u) id = u == id

  -- What the choice of a channel leads to.
  unfoldable pub attempt_choice : Bool → ℕ → Run W → Choice → Run W × Option Ending
  unfolding run_out give_up log_and_disarm attempt_channel
  attempt_choice final number r nothing_left = let (over, e) = run_out r in (over, some e)
  attempt_choice final number r selection_failed = let (over, e) = give_up r in (over, some e)
  attempt_choice final number r (ended status) = (log_and_disarm r, some (refused_with status))
  attempt_choice final number r (chosen s key stayed) =
      let waits =
        not (number == 0) && not stayed && same_upstream r.previous s.upstream && config.waits in
      let (world, gone) = services.wait r.world in
      let waited : Run W = record r { world = if waits then world else r.world } in
      if waits && gone
      then (let (over, e) = give_up waited in (over, some e))
      else attempt_channel final number waited s key

  -- An iteration of the outer loop.
  unfoldable pub attempt_once : ℕ → Bool → ℕ → Run W → Run W × Option Ending
  unfolding select_loop attempt_choice
  attempt_once fuel final number r =
      let (next, choice) = select_loop fuel r in
      elim choice [ none ↦ (next, some stuck) | some c ↦ attempt_choice final number next c ]

  -- The outer loop, of which `left` retries are left.
  unfoldable pub attempts : (Run W → ℕ) → ℕ → ℕ → Run W → Run W × Ending
  unfolding attempt_once
  attempts fuel zero number r =
      let (done, e) = attempt_once (fuel r) true number r in
      (done, elim e [ none ↦ stuck | some ending ↦ ending ])
  attempts fuel (suc left) number r =
      let (next, e) = attempt_once (fuel r) false number r in
      let later = attempts fuel left (suc number) next in
      elim e [ none ↦ later | some ending ↦ (next, ending) ]

  -- The deferred function: what is still held was only an attempt.
  unfoldable pub run_proxy_attempts : (Run W → ℕ) → W → Run W × Ending
  unfolding attempts retried
  run_proxy_attempts fuel world =
      let (done, ending) = attempts fuel config.max_retries 0 (start world) in
      (retried_if done.stream_failure (retried_if done.last_failure done), ending)
