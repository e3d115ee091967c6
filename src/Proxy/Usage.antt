-- ===== src/Proxy/Usage.antt =====
-- internal/proxy/sse.go: the token usage that a response reports. A count is an int32 that is not
-- negative, or absent.
pub mod Totals
pub mod Examples
use Prim.Native.String.{String}
use wildtoken.Prelude.{
  ℕ, suc, ◌+◌, ◌-◌, ◌*◌, ◌/◌, ◌%◌, ◌^◌, Bool, true, false, not, ◌&&◌, ◌||◌, Option, none, some,
  List, [], ◌∷◌, ltb, leb, ◌==◌, if◌then◌else◌,
}
use wildtoken.Prelude.Int64
use wildtoken.Json.{
  Json, number, Fields, object, at, has, copy, end, field, value_at, object_at, is_null,
}

-- math.MaxInt32
abbrev pub max_int32 : ℕ
max_int32 = 2 ^ 31 - 1

pub record TokenUsage : Type 0 where
  pub prompt_tokens : Option ℕ
  pub completion_tokens : Option ℕ
  pub total_tokens : Option ℕ
  pub prompt_cached_tokens : Option ℕ
  pub cache_creation_tokens : Option ℕ
  pub completion_reasoning_tokens : Option ℕ

-- A magnitude over a scale, rounded down, where it is at most MaxInt32.
unfoldable pub scaled_int32 : ℕ → ℕ → Option ℕ
scaled_int32 significand scale =
    if leb significand (max_int32 * scale) then some (significand / scale) else none

-- `int32(f)` of a float64 with 0 <= f <= MaxInt32, and `none` for any other, NaN included. The
-- bits are a sign, eleven of the exponent and 52 of the mantissa; -0 counts as 0.
unfoldable pub float_int32 : ℕ → Option ℕ
unfolding scaled_int32
float_int32 bits =
    let sign = bits / 2 ^ 63 % 2 in
    let exponent = bits / 2 ^ 52 % 2 ^ 11 in
    let significand = 2 ^ 52 + bits % 2 ^ 52 in
    let scale = 2 ^ (1075 - exponent) in
    if bits % 2 ^ 63 == 0
    then some 0
    else if sign == 1
    then none
    else if ltb exponent 1023
    then some 0
    else if ltb 1075 exponent
    then none
    else scaled_int32 significand scale

unfoldable pub usage_int32 : Json → Option ℕ
unfolding float_int32
usage_int32 (number bits) = float_int32 bits
usage_int32 _ = none

unfoldable pub first_usage_int32 : List Json → Option ℕ
unfolding usage_int32
first_usage_int32 [] = none
first_usage_int32 (v ∷ vs) = elim (usage_int32 v) [ none ↦ first_usage_int32 vs | some n ↦ some n ]

-- The loop of sumTokenParts: the int64 sum, and whether a part was present.
unfoldable pub sum_parts : ℕ → Bool → List (Option ℕ) → ℕ × Bool
sum_parts sum any [] = (sum, any)
sum_parts sum any (none ∷ parts) = sum_parts sum any parts
sum_parts sum any (some n ∷ parts) = sum_parts (Int64.add sum n) true parts

unfoldable pub sum_token_parts : List (Option ℕ) → Option ℕ
unfolding sum_parts
sum_token_parts parts =
    let (sum, any) = sum_parts 0 false parts in
    if not any || Int64.lt max_int32 sum then none else some sum

unfoldable pub is_anthropic_style_usage : Fields → Bool
unfolding value_at
is_anthropic_style_usage usage =
    if has usage "prompt_tokens"
    then false
    else if has usage "cache_read_input_tokens"
    then true
    else if has usage "cache_read_tokens"
    then true
    else if not
        (is_null (value_at (object usage) ("output_tokens_details" ∷ "thinking_tokens" ∷ [])))
    then true
    else has usage "cache_creation_input_tokens" && not (has usage "total_tokens")

-- The counts that extractUsageValues reads first.
unfoldable pub raw_prompt : Fields → Option ℕ
raw_prompt usage = first_usage_int32 (at usage "prompt_tokens" ∷ at usage "input_tokens" ∷ [])

unfoldable pub raw_completion : Fields → Option ℕ
raw_completion usage =
    first_usage_int32 (at usage "completion_tokens" ∷ at usage "output_tokens" ∷ [])

unfoldable pub upstream_total : Fields → Option ℕ
upstream_total usage = usage_int32 (at usage "total_tokens")

unfoldable pub top_level_cache_read : Fields → Option ℕ
top_level_cache_read usage =
    first_usage_int32 (at usage "cache_read_input_tokens" ∷ at usage "cache_read_tokens" ∷ [])

unfoldable pub top_level_cache_creation : Fields → Option ℕ
top_level_cache_creation usage =
    first_usage_int32
      (at usage "cache_creation_input_tokens" ∷ at usage "cache_creation_tokens" ∷ [])

unfoldable pub prompt_cached : Fields → Option ℕ
prompt_cached usage = first_usage_int32 (
    value_at (object usage) ("prompt_tokens_details" ∷ "cached_tokens" ∷ [])
    ∷ value_at (object usage) ("input_tokens_details" ∷ "cached_tokens" ∷ [])
    ∷ at usage "cache_read_input_tokens"
    ∷ at usage "cache_read_tokens"
    ∷ value_at (object usage) ("input_token_details" ∷ "cache_read" ∷ [])
    ∷ [])

unfoldable pub cache_creation : Fields → Option ℕ
cache_creation usage = first_usage_int32 (
    at usage "cache_creation_input_tokens"
    ∷ at usage "cache_creation_tokens"
    ∷ value_at (object usage) ("prompt_tokens_details" ∷ "cache_write_tokens" ∷ [])
    ∷ value_at (object usage) ("input_tokens_details" ∷ "cache_write_tokens" ∷ [])
    ∷ value_at (object usage) ("input_tokens_details" ∷ "cache_creation_tokens" ∷ [])
    ∷ value_at (object usage) ("input_tokens_details" ∷ "cache_creation" ∷ [])
    ∷ value_at (object usage) ("input_token_details" ∷ "cache_creation" ∷ [])
    ∷ [])

unfoldable pub completion_reasoning : Fields → Option ℕ
completion_reasoning usage = first_usage_int32 (
    value_at (object usage) ("completion_tokens_details" ∷ "reasoning_tokens" ∷ [])
    ∷ value_at (object usage) ("output_tokens_details" ∷ "reasoning_tokens" ∷ [])
    ∷ value_at (object usage) ("output_tokens_details" ∷ "thinking_tokens" ∷ [])
    ∷ at usage "thinking_tokens"
    ∷ [])

-- `if aggregated != nil { prompt = aggregated }`
abbrev pub or_else : Option ℕ → Option ℕ → Option ℕ
or_else (some n) other = some n
or_else none other = other

unfoldable pub extracted_prompt : Fields → Option ℕ
extracted_prompt usage =
    if is_anthropic_style_usage usage
    then or_else
        (sum_token_parts
          (raw_prompt usage ∷ top_level_cache_creation usage ∷ top_level_cache_read usage ∷ []))
        (raw_prompt usage)
    else raw_prompt usage

abbrev pub is_present : Option ℕ → Bool
is_present none = false
is_present (some n) = true

-- The `switch` for the total.
unfoldable pub extracted_total : Bool → Option ℕ → Option ℕ → Option ℕ → Option ℕ
extracted_total anthropic upstream prompt completion =
    let summed = sum_token_parts (prompt ∷ completion ∷ []) in
    if anthropic
    then (if is_present prompt && is_present completion
        then summed
        else if is_present upstream
        then upstream
        else summed)
    else if is_present upstream
    then upstream
    else summed

unfoldable pub extract_usage_values : Fields → TokenUsage
extract_usage_values usage = record {
  prompt_tokens = extracted_prompt usage;
  completion_tokens = raw_completion usage;
  total_tokens =
      extracted_total (is_anthropic_style_usage usage) (upstream_total usage)
        (extracted_prompt usage) (raw_completion usage);
  prompt_cached_tokens = prompt_cached usage;
  cache_creation_tokens = cache_creation usage;
  completion_reasoning_tokens = completion_reasoning usage;
}

-- The first of several maps that is there.
abbrev pub first_fields : List (Option Fields) → Option Fields
first_fields [] = none
first_fields (none ∷ rest) = first_fields rest
first_fields (some fs ∷ rest) = some fs

unfoldable pub usage_object : Fields → Option Fields
usage_object payload = first_fields (
    object_at (object payload) ("usage" ∷ [])
    ∷ object_at (object payload) ("response" ∷ "usage" ∷ [])
    ∷ object_at (object payload) ("message" ∷ "usage" ∷ [])
    ∷ [])

abbrev pub no_usage : TokenUsage
no_usage = record {
  prompt_tokens = none;
  completion_tokens = none;
  total_tokens = none;
  prompt_cached_tokens = none;
  cache_creation_tokens = none;
  completion_reasoning_tokens = none;
}

-- usageFromValue; `none` where ok is false.
unfoldable pub usage_from_value : Fields → Option TokenUsage
usage_from_value payload = elim (usage_object payload) [
  | none ↦ none
  | some usage ↦ some (extract_usage_values usage)
]

-- type usageReport: the merged fields, nil at first.
abbrev pub UsageReport : Type 0
UsageReport = Option Fields

abbrev pub fields_or_end : UsageReport → Fields
fields_or_end none = end
fields_or_end (some fs) = fs

unfoldable pub add_report : UsageReport → Fields → UsageReport
add_report r payload = elim (usage_object payload) [
  | none ↦ r
  | some usage ↦ some (copy (fields_or_end r) usage)
]

unfoldable pub reported_usage : UsageReport → TokenUsage
reported_usage none = no_usage
reported_usage (some fs) = extract_usage_values fs
