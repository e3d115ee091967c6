-- ===== src/Proxy/Sse.antt =====
-- internal/proxy/sse.go: one line of a server-sent stream and the payload it carries. A line is its
-- bytes; json.Unmarshal into a map is the parameter `decode`, which a nil map leaves empty.
pub mod Estimate
pub mod Observation
pub mod Buffered
pub mod Examples
use Prim.Native.String.{String}
use Prim.Native.Char.{code}
use text.Mathlib.Text.{◌==◌ as str_eq}
use wildtoken.Prelude.{
  ℕ, zero, suc, ◌+◌, ◌-◌, Bool, true, false, not, ◌&&◌, ◌||◌, Option, none, some, List, [], ◌∷◌,
  ◌++◌, leb, ltb, ◌==◌, if◌then◌else◌, drop, length,
}
use wildtoken.Text.{Text, text_eq, has_prefix}
use wildtoken.Json.{
  Json, Fields, object, end, at, value_at, object_at, fields_of, text_of, text_or_empty,
  non_empty_string, non_empty_array, items_of, is_null, any_item,
}

-- The bytes of an ASCII literal, and the code points of a decoded string.
abbrev pub codes : String → Text
codes String.[] = []
codes (String.◌∷◌ c s) = code c ∷ codes s

abbrev pub one_of : String → List String → Bool
one_of t [] = false
one_of t (u ∷ us) = if str_eq t u then true else one_of t us

abbrev back_onto : Text → Text → Text
back_onto [] acc = acc
back_onto (c ∷ cs) acc = back_onto cs (c ∷ acc)

abbrev pub backwards : Text → Text
backwards s = back_onto s []

-- How many bytes the white space takes that a text begins with, 0 where it begins with none.
abbrev is_ascii_space : ℕ → Bool
is_ascii_space c = c == 32 || leb 9 c && leb c 13

abbrev is_wide_space : ℕ → ℕ → Bool
is_wide_space a b = a == 194 && (b == 133 || b == 160)

abbrev is_long_space : ℕ → ℕ → ℕ → Bool
is_long_space a b c =
    a == 225 && b == 154 && c == 128
    || a == 226 && b == 128 && (leb 128 c && leb c 138 || c == 168 || c == 169 || c == 175)
    || a == 226 && b == 129 && c == 159
    || a == 227 && b == 128 && c == 128

abbrev space_at_start : Text → ℕ
space_at_start [] = 0
space_at_start (a ∷ []) = if is_ascii_space a then 1 else 0
space_at_start (a ∷ b ∷ []) = if is_ascii_space a then 1 else if is_wide_space a b then 2 else 0
space_at_start (a ∷ b ∷ c ∷ rest) =
    if is_ascii_space a
    then 1
    else if is_wide_space a b
    then 2
    else if is_long_space a b c
    then 3
    else 0

-- The same for a text whose bytes stand backwards.
abbrev pub space_at_end : Text → ℕ
space_at_end [] = 0
space_at_end (a ∷ []) = if is_ascii_space a then 1 else 0
space_at_end (a ∷ b ∷ []) = if is_ascii_space a then 1 else if is_wide_space b a then 2 else 0
space_at_end (a ∷ b ∷ c ∷ rest) =
    if is_ascii_space a
    then 1
    else if is_wide_space b a
    then 2
    else if is_long_space c b a
    then 3
    else 0

-- What is left after the white space at the beginning, the first `skip` bytes being part of it.
unfoldable pub trim_from : (Text → ℕ) → ℕ → Text → Text
trim_from width skip [] = []
trim_from width (suc skip) (c ∷ cs) = trim_from width skip cs
trim_from width zero (c ∷ cs) =
    let trimmed = trim_from width (width (c ∷ cs) - 1) cs in
    if width (c ∷ cs) == 0 then c ∷ cs else trimmed

unfoldable pub trim_right : Text → Text
unfolding trim_from
trim_right s = backwards (trim_from space_at_end 0 (backwards s))

-- bytes.TrimSpace and strings.TrimSpace, on UTF-8.
unfoldable pub trim_space : Text → Text
unfolding trim_from trim_right
trim_space s = trim_from space_at_start 0 (trim_right s)

-- strings.TrimSpace on code points.
abbrev is_space_point : ℕ → Bool
is_space_point c =
    is_ascii_space c
    || c == 133
    || c == 160
    || c == 5760
    || leb 8192 c && leb c 8202
    || c == 8232
    || c == 8233
    || c == 8239
    || c == 8287
    || c == 12288

abbrev space_point_first : Text → ℕ
space_point_first [] = 0
space_point_first (c ∷ cs) = if is_space_point c then 1 else 0

unfoldable pub trim_points : Text → Text
unfolding trim_from
trim_points s =
    trim_from space_point_first 0 (backwards (trim_from space_point_first 0 (backwards s)))

-- strings.TrimLeft(s, " \t")
abbrev pub trim_blanks : Text → Text
trim_blanks [] = []
trim_blanks (c ∷ cs) = let trimmed = trim_blanks cs in if c == 32 || c == 9 then trimmed else c ∷ cs

-- bytes.TrimSuffix(line, "\r")
abbrev pub trim_cr : Text → Text
trim_cr [] = []
trim_cr (c ∷ []) = if c == 13 then [] else c ∷ []
trim_cr (c ∷ d ∷ rest) = c ∷ trim_cr (d ∷ rest)

-- strings.CutPrefix; `none` where it is not found.
abbrev pub cut_prefix : Text → Text → Option Text
cut_prefix s prefix = if has_prefix s prefix then some (drop (length prefix) s) else none

-- sseData and sseDataBytes
unfoldable pub sse_data : Text → Option Text
unfolding trim_space has_prefix
sse_data line = elim (cut_prefix (trim_space line) (codes "data:")) [
  | none ↦ none
  | some rest ↦ some (trim_blanks rest)
]

-- The lines that forEachSSELine visits: no last line where the body ends in a newline.
abbrev onto_line : ℕ → List Text → List Text
onto_line c [] = (c ∷ []) ∷ []
onto_line c (l ∷ ls) = (c ∷ l) ∷ ls

unfoldable pub sse_lines : Text → List Text
sse_lines [] = []
sse_lines (c ∷ cs) = let rest = sse_lines cs in if c == b'\n' then [] ∷ rest else onto_line c rest

-- jsonHasVisibleToken: Anthropic's events, one choice, and the Responses events.
unfoldable pub block_is_visible : Fields → Bool
unfolding value_at non_empty_string
block_is_visible payload =
    let delta =
      if is_null (at payload "delta") then at payload "content_block" else at payload "delta" in
    one_of (text_or_empty (at payload "type")) ("content_block_delta" ∷ "content_block_start" ∷ [])
    && (non_empty_string (value_at delta ("text" ∷ []))
        || non_empty_string (value_at delta ("thinking" ∷ []))
        || non_empty_string (value_at delta ("partial_json" ∷ [])))

unfoldable pub choice_is_visible : Json → Bool
unfolding value_at non_empty_string non_empty_array
choice_is_visible choice =
    let delta = value_at choice ("delta" ∷ []) in
    non_empty_string (value_at delta ("content" ∷ []))
    || non_empty_string (value_at delta ("reasoning_content" ∷ []))
    || non_empty_string (value_at delta ("reasoning" ∷ []))
    || non_empty_string (value_at delta ("text" ∷ []))
    || non_empty_array (value_at delta ("tool_calls" ∷ []))
    || non_empty_string (value_at choice ("text" ∷ []))
    || non_empty_string (value_at choice ("message" ∷ "content" ∷ []))
    || non_empty_array (value_at choice ("message" ∷ "tool_calls" ∷ []))

abbrev pub response_deltas : List String
response_deltas =
    "response.output_text.delta" ∷ "response.reasoning_text.delta"
    ∷ "response.reasoning_summary_text.delta" ∷ "response.function_call_arguments.delta"
    ∷ "response.custom_tool_call_input.delta" ∷ []

abbrev is_empty_map : Fields → Bool
is_empty_map end = true
is_empty_map _ = false

unfoldable pub response_is_visible : Fields → Bool
unfolding non_empty_string
response_is_visible payload =
    let delta = at payload "delta" in
    one_of (text_or_empty (at payload "type")) response_deltas
    && (non_empty_string delta
        || elim (fields_of delta) [ none ↦ false | some fs ↦ not (is_empty_map fs) ])

unfoldable pub json_has_visible_token : Fields → Bool
unfolding block_is_visible choice_is_visible response_is_visible
json_has_visible_token payload =
    block_is_visible payload
    || any_item choice_is_visible (items_of (at payload "choices"))
    || response_is_visible payload

-- channelFaultStreamErrors
abbrev pub channel_faults : List String
channel_faults =
    "overloaded_error" ∷ "api_error" ∷ "rate_limit_error" ∷ "server_error" ∷ "rate_limit_exceeded"
    ∷ "gateway_concurrency_limit" ∷ []

-- The details that streamErrorFromValue reads: outside of an `Option`, whether the payload is an
-- error event at all; inside, a nil map.
unfoldable pub error_details : Fields → Option (Option Fields)
unfolding object_at
error_details payload =
    let kind = at payload "type" in
    let nested = object_at (object payload) ("error" ∷ []) in
    if is_null kind
    then elim nested [ none ↦ none | some fs ↦ some (some fs) ]
    else if str_eq (text_or_empty kind) "error"
    then elim nested [ none ↦ some (some payload) | some fs ↦ some (some fs) ]
    else if str_eq (text_or_empty kind) "response.failed"
    then some (object_at (object payload) ("response" ∷ "error" ∷ []))
    else none

abbrev details_or_end : Option Fields → Fields
details_or_end none = end
details_or_end (some fs) = fs

unfoldable pub error_kind : Fields → String
error_kind details =
    let given = text_or_empty (at details "code") in
    let nested = text_or_empty (at details "type") in
    if not (str_eq given "") then given else if str_eq nested "error" then "" else nested

abbrev with_part : Text → String → Text
with_part message part = if str_eq part "" then message else message ++ codes ": " ++ codes part

unfoldable pub error_message : Fields → Text
unfolding error_kind
error_message details =
    with_part (with_part (codes "upstream reported an error in the stream") (error_kind details))
      (text_or_empty (at details "message"))

-- streamErrorFromValue: the message, and whether it is the channel's fault.
unfoldable pub stream_error_from_value : Fields → Option (Text × Bool)
unfolding error_details error_message
stream_error_from_value payload = elim (error_details payload) [
  | none ↦ none
  | some details ↦ some (
    error_message (details_or_end details),
    one_of (error_kind (details_or_end details)) channel_faults,
  )
]

-- responseReasoningEffortFromValue
abbrev effort_scope : Fields → Option Fields → Json
effort_scope payload none = object payload
effort_scope payload (some nested) = object nested

unfoldable pub reasoning_effort : Fields → Option Text
unfolding object_at value_at trim_points text_eq
reasoning_effort payload =
    let scope = effort_scope payload (object_at (object payload) ("response" ∷ [])) in
    elim (text_of (value_at scope ("reasoning" ∷ "effort" ∷ []))) [
      | none ↦ none
      | some effort ↦
          (if text_eq (trim_points (codes effort)) []
            then none
            else some (trim_points (codes effort)))
    ]

abbrev pub terminal_events : List String
terminal_events =
    "response.completed" ∷ "response.failed" ∷ "response.incomplete" ∷ "response.cancelled"
    ∷ "message_stop" ∷ "error" ∷ []

abbrev is_terminal_name : Text → List String → Bool
is_terminal_name name [] = false
is_terminal_name name (e ∷ es) = if text_eq name (codes e) then true else is_terminal_name name es

abbrev is_done : Text → Bool
is_done sent = text_eq sent (codes "[DONE]")

module _ (decode : Text → Option Fields) where
  -- The payload of a line that has one: an object, after the closing line and empty ones are ruled out.
  unfoldable pub payload_of : Text → Option Fields
  unfolding sse_data text_eq
  payload_of line = elim (sse_data line) [
    | none ↦ none
    | some sent ↦ (if text_eq sent [] || is_done sent then none else decode sent)
  ]

  -- sseBytesLineHasVisibleToken
  unfoldable pub line_has_visible_token : Text → Bool
  unfolding payload_of json_has_visible_token
  line_has_visible_token line = elim (payload_of (trim_cr line)) [
    | none ↦ false
    | some payload ↦ json_has_visible_token payload
  ]

  -- sseBytesLineIsTerminal
  names_end : Text → Bool
  unfolding trim_space text_eq has_prefix
  names_end line = elim (cut_prefix (trim_space (trim_cr line)) (codes "event:")) [
    | none ↦ false
    | some name ↦ is_terminal_name (trim_space name) terminal_events
  ]

  unfoldable pub data_ends : Text → Bool
  unfolding sse_data text_eq
  data_ends line = elim (sse_data (trim_space (trim_cr line))) [
    | none ↦ false
    | some sent ↦
        (if is_done sent then true else elim (decode sent) [
          | none ↦ false
          | some payload ↦ one_of (text_or_empty (at payload "type")) terminal_events
        ])
  ]

  unfoldable pub line_is_terminal : Text → Bool
  unfolding names_end data_ends
  line_is_terminal line = names_end line || data_ends line
