-- ===== src/Proxy/Usage/Examples.antt =====
-- Two reports of usage, in each style, and the theorems at them. The numbers are powers of two.
use wildtoken.Prelude.Int64
use wildtoken.Prelude.{◌+◌, ◌*◌, ◌^◌, ◌≡◌, refl, some, ℕ, arith}
use wildtoken.Json.{Json, number, Fields, end, field}
use wildtoken.Proxy.Usage.{
  sum_token_parts, extracted_prompt, extracted_total, usage_int32, first_usage_int32,
  is_anthropic_style_usage, raw_prompt, raw_completion, upstream_total, top_level_cache_read,
  top_level_cache_creation, extract_usage_values, or_else,
}
use wildtoken.Proxy.Usage.Totals.{
  AllFit, all_input, extract_usage_values-AllFit, anthropic_totals, openai_totals,
}

-- 2 to the power n, as a float64.
abbrev power : ℕ → Json
power n = number ((1023 + n) * 2 ^ 52)

abbrev pub claude : Fields
claude =
    field "input_tokens" (power 3)
      (field "cache_read_input_tokens" (power 10) (field "output_tokens" (power 2) end))

abbrev gpt : Fields
gpt =
    field "prompt_tokens" (power 3)
      (field "completion_tokens" (power 2) (field "total_tokens" (power 4) end))

extract_usage_values-AllFit_example : AllFit (extract_usage_values claude)
extract_usage_values-AllFit_example = extract_usage_values-AllFit claude

anthropic_totals_example :
    ((extract_usage_values claude).prompt_tokens ≡ some (all_input claude))
    × ((extract_usage_values claude).total_tokens ≡ some (all_input claude + 4))
unfolding is_anthropic_style_usage raw_prompt raw_completion top_level_cache_read
    top_level_cache_creation first_usage_int32
anthropic_totals_example = anthropic_totals claude 4 refl refl refl (omega arith)

openai_totals_example :
    ((extract_usage_values gpt).prompt_tokens ≡ some 8)
    × ((extract_usage_values gpt).total_tokens ≡ or_else (upstream_total gpt) (some (8 + 4)))
unfolding is_anthropic_style_usage raw_prompt raw_completion first_usage_int32
openai_totals_example = openai_totals gpt 8 4 refl refl refl (omega arith)

-- What they come to: the cache counts for Anthropic, and OpenAI's total is its own.
claude_total : (extract_usage_values claude).total_tokens ≡ some 1036
unfolding extract_usage_values extracted_total is_anthropic_style_usage extracted_prompt
    sum_token_parts raw_prompt first_usage_int32 top_level_cache_creation top_level_cache_read
    Int64.lt Int64.add raw_completion
claude_total = refl

gpt_total : (extract_usage_values gpt).total_tokens ≡ some 16
unfolding extract_usage_values extracted_total is_anthropic_style_usage upstream_total usage_int32
gpt_total = refl
