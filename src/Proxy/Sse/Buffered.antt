-- ===== src/Proxy/Sse/Buffered.antt =====
-- internal/proxy/sse.go: what is read from a body that has arrived whole.
pub mod Agreement
pub mod Lines
pub mod View
use text.Mathlib.Text.{◌==◌ as str_eq}
use wildtoken.Prelude.{
  ℕ, ◌+◌, Bool, true, false, not, ◌&&◌, ◌||◌, Option, none, some, List, [], ◌∷◌, any, leb, ◌==◌,
  if◌then◌else◌,
}
use wildtoken.Text.{Text, text_eq, has_prefix}
use wildtoken.Json.{Fields}
use wildtoken.Proxy.Usage.{
  TokenUsage, no_usage, UsageReport, add_report, reported_usage, usage_from_value,
}
use wildtoken.Proxy.Sse.{
  codes, trim_space, trim_cr, sse_data, sse_lines, is_done, line_has_visible_token,
  reasoning_effort,
}

-- strings.ToLower, of the letters that the tests below look for.
abbrev to_lower : Text → Text
to_lower [] = []
to_lower (c ∷ cs) = (if leb 65 c && leb c 90 then c + 32 else c) ∷ to_lower cs

-- strings.Contains
unfoldable pub contains : Text → Text → Bool
unfolding has_prefix
contains [] t = has_prefix [] t
contains (c ∷ cs) t = has_prefix (c ∷ cs) t || contains cs t

unfoldable pub is_sse_content_type : Text → Bool
unfolding contains
is_sse_content_type content_type = contains (to_lower content_type) (codes "event-stream")

module _ (decode : Text → Option Fields) where
  abbrev pub added : UsageReport → Option Fields → UsageReport
  added r none = r
  added r (some payload) = add_report r payload

  unfoldable pub sent_payload : Text → Option Fields
  unfolding sse_data text_eq
  sent_payload line = elim (sse_data line) [
    | none ↦ none
    | some sent ↦ (if is_done sent then none else decode sent)
  ]

  unfoldable pub add_line : UsageReport → Text → UsageReport
  unfolding sent_payload add_report
  add_line r line = added r (sent_payload line)

  abbrev pub add_lines : UsageReport → List Text → UsageReport
  add_lines r [] = r
  add_lines r (line ∷ rest) = add_lines (add_line r line) rest

  abbrev usage_or_none : Option TokenUsage → TokenUsage
  usage_or_none none = no_usage
  usage_or_none (some u) = u

  -- ExtractUsage
  unfoldable pub extract_usage : Text → Text → TokenUsage
  unfolding add_line sse_lines is_sse_content_type reported_usage usage_from_value
  extract_usage raw_body content_type =
      if is_sse_content_type content_type || contains (to_lower content_type) (codes "sse")
      then reported_usage (add_lines none (sse_lines raw_body))
      else elim (decode raw_body) [
        | none ↦ no_usage
        | some payload ↦ usage_or_none (usage_from_value payload)
      ]

  -- HasVisibleToken
  unfoldable pub has_visible_token : Text → Bool
  unfolding sse_lines line_has_visible_token
  has_visible_token chunk = any (line_has_visible_token decode) (sse_lines chunk)

  -- ExtractResponseReasoningEffort
  abbrev effort_of : Option Fields → Option Text
  effort_of none = none
  effort_of (some payload) = reasoning_effort payload

  unfoldable pub line_effort : Text → Option Text
  unfolding sse_data trim_space
  line_effort line = elim (sse_data line) [
    | none ↦ none
    | some sent ↦ effort_of (decode (trim_space sent))
  ]

  unfoldable pub first_effort : List Text → Option Text
  unfolding line_effort
  first_effort [] = none
  first_effort (line ∷ rest) =
      let later = first_effort rest in
      elim (line_effort line) [ none ↦ later | some effort ↦ some effort ]

  unfoldable pub extract_response_reasoning_effort : Text → Text → Option Text
  unfolding first_effort sse_lines reasoning_effort contains has_prefix
  extract_response_reasoning_effort raw_body content_type =
      if contains content_type (codes "event-stream") || has_prefix raw_body (codes "data:")
      then first_effort (sse_lines raw_body)
      else effort_of (decode raw_body)
