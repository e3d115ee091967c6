-- ===== src/Proxy/Sse/Observation.antt =====
-- internal/proxy/sse.go: what a stream reveals as its bytes pass through (sseObservation), and the
-- bounded prefix that is kept of a body (responseCapture). `elapsed` is the milliseconds that the
-- clock shows while a chunk is observed; `decode_first` is the first value of a json.Decoder, where
-- it is an object.
pub mod Chunks
pub mod Bounds
pub mod Errors
use Prim.Native.String.{String}
use text.Mathlib.Text.{◌==◌ as str_eq}
use wildtoken.Prelude.{
  ℕ, zero, suc, ◌+◌, ◌-◌, ◌*◌, ◌^◌, Bool, true, false, not, ◌&&◌, ◌||◌, Option, none, some, List,
  [], ◌∷◌, ◌++◌, leb, ltb, ◌==◌, if◌then◌else◌, drop, length, min, replicate,
}
use wildtoken.Prelude.Int64
use wildtoken.Text.{Text, text_eq, has_prefix}
use wildtoken.Json.{Json, Fields, object, end, field, at, value_at, text_or_empty}
use wildtoken.Proxy.Usage.{
  TokenUsage, UsageReport, usage_object, add_report, reported_usage, is_present,
}
use wildtoken.Proxy.Sse.{
  codes, trim_cr, payload_of, line_has_visible_token, line_is_terminal, stream_error_from_value,
  reasoning_effort,
}
use wildtoken.Proxy.Sse.Estimate.{estimate_delta_tokens}

-- maxSSEEventBytes and overflowTailBytes
abbrev pub max_sse_event_bytes : ℕ
max_sse_event_bytes = 4 * 1024 * 1024

abbrev pub overflow_tail_bytes : ℕ
overflow_tail_bytes = 64 * 2 ^ 10

-- A nil streamError is `none`; the flag beside it is streamErrorFault.
pub record Observation : Type 0 where
  pub line_buf : Text
  pub line_overflow : Bool
  pub first_token_ms : Option ℕ
  pub terminal_event_pending : Bool
  pub terminal_event_seen : Bool
  pub usage : UsageReport
  pub response_reasoning_effort : Option Text
  pub response_id : String
  pub stream_error : Option Text
  pub stream_error_fault : Bool
  pub overflow_tail : Text
  pub final_usage_seen : Bool
  pub output_estimate : ℕ

abbrev pub nothing_observed : Observation
nothing_observed = record {
  line_buf = [];
  line_overflow = false;
  first_token_ms = none;
  terminal_event_pending = false;
  terminal_event_seen = false;
  usage = none;
  response_reasoning_effort = none;
  response_id = "";
  stream_error = none;
  stream_error_fault = false;
  overflow_tail = [];
  final_usage_seen = false;
  output_estimate = 0;
}

abbrev pub token_usage : Observation → TokenUsage
token_usage o = reported_usage o.usage

-- The fields that observeLine fills from a payload, one helper for each of its conditionals.
abbrev pub found_id : String → Fields → String
found_id known payload =
    let nested = text_or_empty (value_at (object payload) ("response" ∷ "id" ∷ [])) in
    if not (str_eq known "")
    then known
    else if str_eq nested ""
    then text_or_empty (at payload "id")
    else nested

abbrev pub is_final_usage : Fields → Bool
is_final_usage payload = elim (usage_object payload) [
  | none ↦ false
  | some usage ↦ not (str_eq (text_or_empty (at payload "type")) "message_start")
]

abbrev pub kept_or {ℓ} : {A : Type ℓ} → Option A → Option A → Option A
kept_or (some a) other = some a
kept_or none other = other

abbrev pub error_text : Option (Text × Bool) → Option Text
error_text none = none
error_text (some e) = some e.0

abbrev pub error_fault : Option (Text × Bool) → Bool
error_fault none = false
error_fault (some e) = e.1

abbrev pub kept_fault : Option Text → Bool → Bool → Bool
kept_fault (some message) known other = known
kept_fault none known other = other

unfoldable pub observe_payload : Observation → Fields → Observation
unfolding usage_object add_report estimate_delta_tokens stream_error_from_value reasoning_effort
    value_at
observe_payload o payload = record o {
  response_id = found_id o.response_id payload;
  usage = add_report o.usage payload;
  final_usage_seen = o.final_usage_seen || is_final_usage payload;
  output_estimate = Int64.add o.output_estimate (estimate_delta_tokens payload);
  stream_error = kept_or o.stream_error (error_text (stream_error_from_value payload));
  stream_error_fault =
      kept_fault o.stream_error o.stream_error_fault
        (error_fault (stream_error_from_value payload));
  response_reasoning_effort = kept_or o.response_reasoning_effort (reasoning_effort payload);
}

-- What follows the last occurrence of a pattern (bytes.LastIndex).
unfoldable pub after_last : Text → Text → Option Text
unfolding has_prefix
after_last pattern_text [] = none
after_last pattern_text (c ∷ cs) =
    let later = after_last pattern_text cs in
    elim later [
      | some rest ↦ some rest
      | none ↦
          (if has_prefix (c ∷ cs) pattern_text
            then some (drop (length pattern_text) (c ∷ cs))
            else none)
    ]

-- keepOverflowTail: the tail after a segment.
unfoldable pub keep_last : ℕ → Text → Text
keep_last n s = drop (length s - n) s

unfoldable pub kept_tail : Text → Text → Text
unfolding keep_last
kept_tail tail segment = keep_last overflow_tail_bytes (tail ++ segment)

-- A chunk's segments, each with whether a newline ended it.
abbrev pub onto_segment : ℕ → List (Text × Bool) → List (Text × Bool)
onto_segment c [] = (c ∷ [], false) ∷ []
onto_segment c ((s, complete) ∷ rest) = (c ∷ s, complete) ∷ rest

unfoldable pub segments : Text → List (Text × Bool)
segments [] = []
segments (c ∷ cs) =
    let rest = segments cs in if c == b'\n' then ([], true) ∷ rest else onto_segment c rest

-- `switch` of observeChunk: a segment is buffered, or its end is kept.
unfoldable pub buffer_segment : Observation → Text → Observation
unfolding kept_tail
buffer_segment o segment =
    if o.line_overflow
    then record o { overflow_tail = kept_tail o.overflow_tail segment }
    else if leb (length o.line_buf + length segment) max_sse_event_bytes
    then record o { line_buf = o.line_buf ++ segment }
    else record o {
      overflow_tail = kept_tail (kept_tail [] o.line_buf) segment;
      line_buf = [];
      line_overflow = true;
    }

abbrev pub line_done : Observation → Observation
line_done o = record o { line_buf = []; line_overflow = false }

abbrev blank_line : Observation → Observation
blank_line o = record o {
  terminal_event_seen = o.terminal_event_seen || o.terminal_event_pending;
  terminal_event_pending = false;
}

abbrev pub with_payload : Observation → Option Fields → Observation
with_payload o none = o
with_payload o (some payload) = observe_payload o payload

abbrev pub settle_terminal : Observation → Observation
settle_terminal o = record o {
  terminal_event_seen = o.terminal_event_seen || o.terminal_event_pending;
  terminal_event_pending = false;
}

module _ (decode decode_first : Text → Option Fields) where
  -- The conditionals of observeLine before it reads a payload.
  unfoldable pub mark_first_token : Observation → Text → ℕ → Observation
  unfolding line_has_visible_token
  mark_first_token o line elapsed =
      if not (is_present o.first_token_ms) && line_has_visible_token decode line
      then record o { first_token_ms = some elapsed }
      else o

  unfoldable pub mark_terminal : Observation → Text → Observation
  unfolding line_is_terminal
  mark_terminal o line =
      if not o.terminal_event_seen && line_is_terminal decode line
      then record o { terminal_event_pending = true }
      else o

  unfoldable pub observe_line : Observation → Text → ℕ → Observation
  unfolding mark_first_token mark_terminal observe_payload payload_of text_eq
  observe_line o line elapsed =
      let timed = mark_first_token o line elapsed in
      if text_eq (trim_cr line) []
      then blank_line timed
      else with_payload (mark_terminal timed line) (payload_of decode (trim_cr line))

  -- observeOversizedTail
  unfoldable pub observe_oversized_tail : Observation → Observation
  unfolding after_last add_report
  observe_oversized_tail o =
      let emptied = record o { overflow_tail = [] } in
      elim (after_last (codes "\"usage\":") o.overflow_tail) [
        | none ↦ emptied
        | some rest ↦ elim (decode_first rest) [
          | none ↦ emptied
          | some usage ↦ record emptied {
            usage = add_report o.usage (field "usage" (object usage) end);
            final_usage_seen = true;
          }
        ]
      ]

  unfoldable pub complete_line : Observation → ℕ → Observation
  unfolding observe_line observe_oversized_tail
  complete_line o elapsed =
      if o.line_overflow
      then line_done (observe_oversized_tail o)
      else line_done (observe_line o o.line_buf elapsed)

  unfoldable pub take_segment : Observation → Text × Bool → ℕ → Observation
  unfolding buffer_segment complete_line
  take_segment o (segment, complete) elapsed =
      let buffered = buffer_segment o segment in
      if complete then complete_line buffered elapsed else buffered

  unfoldable pub take_segments : Observation → List (Text × Bool) → ℕ → Observation
  unfolding take_segment
  take_segments o [] elapsed = o
  take_segments o (s ∷ rest) elapsed = take_segments (take_segment o s elapsed) rest elapsed

  unfoldable pub observe_chunk : Observation → Text → ℕ → Observation
  unfolding take_segments segments
  observe_chunk o chunk elapsed = take_segments o (segments chunk) elapsed

  unfoldable pub finish : Observation → ℕ → Observation
  unfolding observe_line observe_oversized_tail
  finish o elapsed =
      let read : Observation =
        if o.line_overflow
        then observe_oversized_tail o
        else if text_eq o.line_buf []
        then o
        else observe_line o o.line_buf elapsed in
      settle_terminal (line_done read)

-- type responseCapture
pub record Capture : Type 0 where
  pub bytes : Text
  pub byte_length : ℕ
  pub limit : ℕ

abbrev pub new_capture : ℕ → Capture
new_capture limit = record { bytes = []; byte_length = 0; limit = limit }

abbrev pub take_first : ℕ → Text → Text
take_first zero s = []
take_first (suc n) [] = []
take_first (suc n) (c ∷ cs) = c ∷ take_first n cs

unfoldable pub push : Capture → Text → Capture
push c chunk =
    let counted = record c { byte_length = c.byte_length + length chunk } in
    if leb c.limit (length c.bytes) then counted else record counted {
      bytes = c.bytes ++ take_first (min (length chunk) (c.limit - length c.bytes)) chunk;
    }
