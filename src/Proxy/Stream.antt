-- ===== src/Proxy/Stream.antt =====
-- internal/proxy/ssestream.go: a stream forwarded downstream while it is observed, and logged once.
-- The reads that the upstream will answer are a script, after which it is at its end; the rows, the
-- calls of the health manager and the metrics are lists, the oldest first. What a call can ask of
-- its surroundings (the clock, the attempt's timeout, whether the client is gone) is a `Moment`.
-- The bodies that a row stores are the capture that they are cut from.
pub mod Account
pub mod Rulings
pub mod Calls
pub mod Once
mod Examples
use Prim.Native.String.{String}
use text.Mathlib.Text.{◌==◌ as str_eq}
use wildtoken.Prelude.{
  ℕ, zero, suc, ◌+◌, ◌-◌, ◌*◌, ◌^◌, Bool, true, false, not, ◌&&◌, ◌||◌, Option, none, some, List,
  [], ◌∷◌, ◌++◌, leb, ltb, ◌==◌, if◌then◌else◌, drop, length,
}
use wildtoken.Text.{Text}
use wildtoken.Json.{Fields}
use wildtoken.Proxy.Usage.{TokenUsage, is_present, sum_token_parts}
use wildtoken.Proxy.Sse.{codes}
use wildtoken.Proxy.Sse.Estimate.{clamp_tokens}
use wildtoken.Proxy.Sse.Observation
use wildtoken.Proxy.Sse.Observation.{
  Observation, Capture, nothing_observed, new_capture, push, take_first, token_usage, observe_chunk,
}

pub data ReadError : Type 0 where
  eof : ReadError
  broken : Text → ReadError

-- What one Read of the upstream gives: the bytes, and the error with them.
pub record Answer : Type 0 where
  pub bytes : Text
  pub failure : Option ReadError

pub record Moment : Type 0 where
  pub elapsed : ℕ
  pub expired : Bool
  pub client_gone : Bool

-- The fields of LogEntry that a stream fills, and the one that it sets beforehand.
pub record Entry : Type 0 where
  pub retried : Bool

pub record Row : Type 0 where
  pub retried : Bool
  pub status_code : ℕ
  pub usage : TokenUsage
  pub reasoning_effort : Option Text
  pub first_token_ms : Option ℕ
  pub failure : Option Text
  pub capture : Capture

pub data HealthCall : Type 0 where
  record_success : HealthCall
  record_failure : HealthCall

pub data Metric : Type 0 where
  sse_started : Metric
  sse_complete : Metric
  sse_upstream_error : Metric
  sse_client_disconnect : Metric
  sse_finished : Metric

pub record Stream : Type 0 where
  pub upstream : List Answer
  pub capture : Capture
  pub observation : Observation
  pub upstream_status : ℕ
  pub entry : Option Entry
  pub request_tokens : ℕ
  pub held : Text
  pub held_err : Option ReadError
  pub remembers : Bool
  pub remembered_id : String
  pub rows : List Row
  pub health : List HealthCall
  pub metrics : List Metric

-- newSSEStream
abbrev pub new_stream : List Answer → ℕ → ℕ → ℕ → Bool → Stream
new_stream upstream status capture_bytes request_tokens remembers = record {
  upstream = upstream;
  capture = new_capture capture_bytes;
  observation = nothing_observed;
  upstream_status = status;
  entry = some (record { retried = false });
  request_tokens = request_tokens;
  held = [];
  held_err = none;
  remembers = remembers;
  remembered_id = "";
  rows = [];
  health = [];
  metrics = sse_started ∷ [];
}

-- primeHoldBytes
abbrev pub prime_hold_bytes : ℕ
prime_hold_bytes = 2 ^ 20

abbrev larger_of : ℕ → Option ℕ → ℕ
larger_of estimated none = estimated
larger_of estimated (some reported) = if ltb estimated reported then reported else estimated

abbrev given_or : Option ℕ → ℕ → ℕ
given_or none n = n
given_or (some m) n = m

unfoldable pub estimate_usage : ℕ → ℕ → TokenUsage → TokenUsage
unfolding clamp_tokens sum_token_parts
estimate_usage request_tokens output_estimate reported =
    let prompt = given_or reported.prompt_tokens (clamp_tokens request_tokens) in
    let completion = larger_of (clamp_tokens output_estimate) reported.completion_tokens in
    record reported {
      prompt_tokens = some prompt;
      completion_tokens = some completion;
      total_tokens = sum_token_parts (some prompt ∷ some completion ∷ []);
    }

abbrev pub estimated_note : Option Text → Text
estimated_note none = codes "usage estimated"
estimated_note (some message) = message ++ codes "; usage estimated"

abbrev pub client_left : Text
client_left = codes "client disconnected before the SSE response completed"

abbrev pub read_error_text : ReadError → Text
read_error_text eof = codes "EOF"
read_error_text (broken message) = message

-- The next answer of the upstream, and the script after it.
abbrev pub next_answer : List Answer → Answer × List Answer
next_answer [] = (record { bytes = []; failure = some eof }, [])
next_answer (a ∷ rest) = (a, rest)

module _ (decode decode_first : Text → Option Fields) where
  -- The row that finishLog schedules for an entry.
  unfoldable pub log_row : Stream → Observation → Entry → ℕ → Option Text → Row
  unfolding estimate_usage
  log_row s o e status failure =
      let estimates = status == 499 && not o.final_usage_seen in
      record {
        retried = e.retried;
        status_code = status;
        usage =
            if estimates
            then estimate_usage s.request_tokens o.output_estimate (token_usage o)
            else token_usage o;
        reasoning_effort = o.response_reasoning_effort;
        first_token_ms = o.first_token_ms;
        failure = if estimates then some (estimated_note failure) else failure;
        capture = s.capture;
      }

  -- finishLog, whose Boolean decides what follows it: `health` and `metric` are recorded where it
  -- wrote the row.
  abbrev with_call : List HealthCall → Option HealthCall → List HealthCall
  with_call calls none = calls
  with_call calls (some call) = calls ++ call ∷ []

  abbrev with_metric : List Metric → Option Metric → List Metric
  with_metric metrics none = metrics
  with_metric metrics (some m) = metrics ++ m ∷ []

  unfoldable pub finish_log :
      Stream → ℕ → Option Text → Option HealthCall → Option Metric → ℕ → Stream
  unfolding Observation.finish log_row
  finish_log s status failure health metric elapsed = elim s.entry [
    | none ↦ s
    | some e ↦
        let o = Observation.finish decode decode_first s.observation elapsed in
        record s {
          entry = none;
          observation = o;
          rows = s.rows ++ log_row s o e status failure ∷ [];
          health = with_call s.health health;
          metrics = with_metric s.metrics metric;
        }
  ]

  abbrev charged_if : Bool → Option HealthCall
  charged_if true = some record_failure
  charged_if false = none

  unfoldable pub finish_complete : Stream → Moment → Stream
  unfolding finish_log Observation.finish
  finish_complete s m =
      let o = Observation.finish decode decode_first s.observation m.elapsed in
      let settled : Stream = record s { observation = o } in
      elim o.stream_error [
        | some message ↦
            finish_log settled 502 (some message) (charged_if o.stream_error_fault)
              (some sse_upstream_error) m.elapsed
        | none ↦
            finish_log settled s.upstream_status none (some record_success) (some sse_complete)
              m.elapsed
      ]

  unfoldable pub finish_interrupted : Stream → ReadError → Moment → Stream
  unfolding finish_log
  finish_interrupted s err m =
      let message = read_error_text err in
      if m.expired
      then finish_log s 504 (some message) (some record_failure) (some sse_upstream_error) m.elapsed
      else if m.client_gone
      then finish_log s 499 (some client_left) none (some sse_client_disconnect) m.elapsed
      else finish_log s 502 (some message) (some record_failure) (some sse_upstream_error) m.elapsed

  unfoldable pub finish_read : Stream → Option ReadError → Moment → Stream
  unfolding finish_complete finish_interrupted
  finish_read s none m = s
  finish_read s (some eof) m = finish_complete s m
  finish_read s (some (broken message)) m = finish_interrupted s (broken message) m

  unfoldable pub take_answer : Stream → Answer → Moment → Stream
  unfolding observe_chunk push
  take_answer s a m = record s {
    capture = push s.capture a.bytes;
    observation = observe_chunk decode decode_first s.observation a.bytes m.elapsed;
  }

  -- drain, over the script.
  unfoldable pub drain : List Answer → Stream → Moment → Stream
  unfolding take_answer
  drain [] s m = record s { upstream = [] }
  drain (a ∷ rest) s m =
      let taken = take_answer s a m in
      let later = drain rest taken m in
      if s.observation.terminal_event_seen
      then record s { upstream = a ∷ rest }
      else elim a.failure [ none ↦ later | some err ↦ record taken { upstream = rest } ]

  unfoldable pub close_pending : Stream → Moment → Stream
  unfolding drain finish_complete finish_log Observation.finish
  close_pending s m =
      let o = s.observation in
      let drained = not o.terminal_event_seen && not o.terminal_event_pending in
      let read = if drained then drain s.upstream s m else s in
      let settled : Stream = record read {
        observation = Observation.finish decode decode_first read.observation m.elapsed;
      } in
      if settled.observation.terminal_event_seen && not drained
      then finish_complete settled m
      else finish_log settled 499 (some client_left) none (some sse_client_disconnect) m.elapsed

  abbrev has_entry : Option Entry → Bool
  has_entry none = false
  has_entry (some e) = true

  -- Close
  unfoldable pub close : Stream → Moment → Stream
  unfolding close_pending
  close s m =
      let logged = if has_entry s.entry then close_pending s m else s in
      record logged { metrics = logged.metrics ++ sse_finished ∷ [] }

  module _ (preserve : String → Option Text) where
    -- remember; the error that rememberResponse gave, if any.
    unfoldable pub remember : Stream → Moment → Stream × Option ReadError
    unfolding finish_log
    remember s m =
        let id = s.observation.response_id in
        if not s.remembers || str_eq id "" || str_eq id s.remembered_id
        then (s, none)
        else elim (preserve id) [
          | none ↦ (record s { remembered_id = id }, none)
          | some message ↦
              let logged =
                finish_log s 500 (some (codes "could not preserve response account: " ++ message))
                  none none m.elapsed in
              (record logged { remembers = false }, some (broken message))
        ]

    -- The second half of Read, once the upstream has answered.
    unfoldable pub after_answer : Stream → Answer → Moment → Stream × (Text × Option ReadError)
    unfolding finish_complete finish_read remember
    after_answer s a m =
        let (routed, route_err) = remember s m in
        let completed =
          if routed.observation.terminal_event_seen then finish_complete routed m else routed in
        elim route_err [
          | some err ↦ (routed, ([], some err))
          | none ↦ (finish_read completed a.failure m, (a.bytes, a.failure))
        ]

    abbrev ended_observation : Option ReadError → Observation → ℕ → Observation
    ended_observation (some eof) o elapsed = Observation.finish decode decode_first o elapsed
    ended_observation (some (broken message)) o elapsed = o
    ended_observation none o elapsed = o

    -- The first half: the answer is captured and observed, and the observation finished at the end.
    unfoldable pub observe_answer : Stream → Moment → Stream
    unfolding take_answer Observation.finish
    observe_answer s m =
        let (a, rest) = next_answer s.upstream in
        let taken = take_answer (record s { upstream = rest }) a m in
        record taken { observation = ended_observation a.failure taken.observation m.elapsed }

    unfoldable pub read_upstream : Stream → Moment → Stream × (Text × Option ReadError)
    unfolding observe_answer after_answer
    read_upstream s m = after_answer (observe_answer s m) (next_answer s.upstream).0 m

    -- Read, into a buffer of `room` bytes.
    unfoldable pub read : Stream → ℕ → Moment → Stream × (Text × Option ReadError)
    unfolding finish_complete finish_read read_upstream
    read s room m =
        let left = drop room s.held in
        let handed : Stream = record s { held = left } in
        elim s.held [
          | c ∷ cs ↦ (
            (if length left == 0 && s.observation.terminal_event_seen
                then finish_complete handed m
                else handed),
            (take_first room (c ∷ cs), none),
          )
          | [] ↦ elim s.held_err [
            | some err ↦ (finish_read s (some err) m, ([], some err))
            | none ↦ read_upstream s m
          ]
        ]

    -- One round of the loop of prime; `none` where it goes on.
    unfoldable pub prime_verdict : Stream → Option ReadError → Option Bool
    prime_verdict s failure =
        let o = s.observation in
        if is_present o.first_token_ms then some true else elim o.stream_error [
          | some message ↦ some false
          | none ↦
              (if o.terminal_event_seen then some true else elim failure [
                | some err ↦ some false
                | none ↦ (if ltb prime_hold_bytes (length s.held) then some true else none)
              ])
        ]

    abbrev settled_observation : Option ReadError → Observation → ℕ → Observation
    settled_observation none o elapsed = o
    settled_observation (some err) o elapsed = Observation.finish decode decode_first o elapsed

    abbrev err_or : Option ReadError → Option ReadError → Option ReadError
    err_or (some err) other = some err
    err_or none other = other

    unfoldable pub hold_answer : Stream → Answer → Moment → Stream
    unfolding take_answer Observation.finish
    hold_answer s a m =
        let taken = take_answer s a m in
        record taken {
          held = s.held ++ a.bytes;
          held_err = err_or a.failure s.held_err;
          observation = settled_observation a.failure taken.observation m.elapsed;
        }

    unfoldable pub prime_answer : Stream → Answer → Moment → Stream × Option Bool
    unfolding hold_answer remember prime_verdict
    prime_answer s a m =
        let (routed, route_err) = remember (hold_answer s a m) m in
        elim route_err [
          | some err ↦ (record routed { held = []; held_err = some err }, some false)
          | none ↦ (routed, prime_verdict routed a.failure)
        ]

    -- prime, over the script: whether the stream is to be delivered.
    unfoldable pub prime : List Answer → Stream → Moment → Stream × Bool
    unfolding prime_answer
    prime [] s m =
        let (last, verdict) =
          prime_answer (record s { upstream = [] }) (record { bytes = []; failure = some eof }) m in
        (last, elim verdict [ none ↦ false | some delivered ↦ delivered ])
    prime (a ∷ rest) s m =
        let (next, verdict) = prime_answer (record s { upstream = rest }) a m in
        let later = prime rest next m in
        elim verdict [ none ↦ later | some delivered ↦ (next, delivered) ]

  abbrev mark_retried : Option Entry → Option Entry
  mark_retried none = none
  mark_retried (some e) = some (record e { retried = true })

  abbrev broken_err : Option ReadError → Option ReadError
  broken_err none = none
  broken_err (some eof) = none
  broken_err (some (broken message)) = some (broken message)

  -- The switch of abandon.
  unfoldable pub log_abandoned : Stream → Moment → Stream
  unfolding finish_complete finish_interrupted finish_log
  log_abandoned s m =
      let marked : Stream = record s { entry = mark_retried s.entry } in
      elim s.observation.stream_error [
        | some message ↦ finish_complete marked m
        | none ↦ elim (broken_err s.held_err) [
          | some err ↦ finish_interrupted marked err m
          | none ↦
              finish_log marked 502 (some (codes "upstream ended the stream before any content"))
                (some record_failure) (some sse_upstream_error) m.elapsed
        ]
      ]

  unfoldable pub abandon : Stream → Moment → Stream
  unfolding log_abandoned close
  abandon s m = close (log_abandoned s m) m
