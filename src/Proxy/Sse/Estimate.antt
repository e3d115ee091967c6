-- ===== src/Proxy/Sse/Estimate.antt =====
-- internal/proxy/estimate.go: the approximate tokens of what a stream carried and of a request.
-- Text is its code points, where a Go string holds their UTF-8; counts are int64.
use wildtoken.Prelude.{
  ℕ, suc, ◌+◌, ◌/◌, Bool, true, false, not, ◌&&◌, ◌||◌, Option, none, some, [], ◌∷◌, ltb, ◌==◌,
  if◌then◌else◌,
}
use wildtoken.Prelude.Int64
use wildtoken.Text.{Text, has_prefix}
use wildtoken.Json.{
  Json, null, boolean, number, string, array, object, Items, nil, cons, Fields, end, field, at,
  value_at, text_of, text_or_empty, items_of,
}
use wildtoken.Proxy.Sse.{codes, one_of, response_deltas}
use wildtoken.Proxy.Usage.{max_int32}

abbrev pub ascii_count : Text → ℕ
ascii_count [] = 0
ascii_count (c ∷ cs) = let rest = ascii_count cs in if ltb c 128 then suc rest else rest

abbrev pub other_count : Text → ℕ
other_count [] = 0
other_count (c ∷ cs) = let rest = other_count cs in if ltb c 128 then rest else suc rest

unfoldable pub estimate_text_tokens : Text → ℕ
estimate_text_tokens s = (ascii_count s + 3) / 4 + other_count s

-- The closure `add` of estimateDeltaTokens: what it adds for a value.
unfoldable pub tokens_of : Json → ℕ
unfolding estimate_text_tokens
tokens_of v = elim (text_of v) [ none ↦ 0 | some t ↦ estimate_text_tokens (codes t) ]

abbrev pub sum_of : (Json → ℕ) → Items → ℕ
sum_of f nil = 0
sum_of f (cons x xs) = Int64.add (f x) (sum_of f xs)

unfoldable pub call_tokens : Json → ℕ
unfolding tokens_of value_at
call_tokens call =
    Int64.add (tokens_of (value_at call ("function" ∷ "name" ∷ [])))
      (tokens_of (value_at call ("function" ∷ "arguments" ∷ [])))

unfoldable pub choice_tokens : Json → ℕ
unfolding tokens_of value_at call_tokens
choice_tokens choice =
    let delta = value_at choice ("delta" ∷ []) in
    Int64.add (tokens_of (value_at delta ("content" ∷ []))) (
      Int64.add (tokens_of (value_at delta ("reasoning_content" ∷ []))) (
        Int64.add (tokens_of (value_at delta ("reasoning" ∷ [])))
          (sum_of call_tokens (items_of (value_at delta ("tool_calls" ∷ []))))))

unfoldable pub event_tokens : Fields → ℕ
unfolding tokens_of value_at
event_tokens payload =
    let kind = text_or_empty (at payload "type") in
    let delta = at payload "delta" in
    if one_of kind ("content_block_delta" ∷ [])
    then Int64.add (tokens_of (value_at delta ("text" ∷ []))) (
        Int64.add (tokens_of (value_at delta ("thinking" ∷ [])))
          (tokens_of (value_at delta ("partial_json" ∷ []))))
    else if one_of kind response_deltas
    then tokens_of delta
    else 0

unfoldable pub estimate_delta_tokens : Fields → ℕ
unfolding event_tokens choice_tokens
estimate_delta_tokens payload =
    Int64.add (event_tokens payload) (sum_of choice_tokens (items_of (at payload "choices")))

-- `len` of the UTF-8 of a text.
abbrev pub utf8_length : Text → ℕ
utf8_length [] = 0
utf8_length (c ∷ cs) =
    let rest = utf8_length cs in
    if ltb c 128
    then 1 + rest
    else if ltb c 2048
    then 2 + rest
    else if ltb c 65536
    then 3 + rest
    else 4 + rest

-- strings.ContainsAny(typed, " \n\t")
abbrev pub has_blank : Text → Bool
has_blank [] = false
has_blank (c ∷ cs) = if c == 32 || c == 10 || c == 9 then true else has_blank cs

unfoldable pub is_inline : Text → Bool
unfolding has_prefix
is_inline s = has_prefix s (codes "data:") || ltb 1024 (utf8_length s) && not (has_blank s)

-- The closure `walk` of estimateRequestTokens: what it adds for a value.
unfoldable mutual
  unfolding is_inline estimate_text_tokens

  pub walk : Json → ℕ
  walk null = 0
  walk (boolean b) = 0
  walk (number n) = 0
  walk (string t) = if is_inline (codes t) then 0 else estimate_text_tokens (codes t)
  walk (array xs) = walk_items xs
  walk (object fs) = walk_fields fs

  pub walk_items : Items → ℕ
  walk_items nil = 0
  walk_items (cons x xs) = Int64.add (walk x) (walk_items xs)

  pub walk_fields : Fields → ℕ
  walk_fields end = 0
  walk_fields (field k x fs) = Int64.add (walk x) (walk_fields fs)

-- estimateRequestTokens, over the request as json.Unmarshal reads it, and the runes of its bytes
-- for one that it cannot read.
unfoldable pub estimate_request_tokens : Option Json → Text → ℕ
unfolding walk estimate_text_tokens
estimate_request_tokens none runes = estimate_text_tokens runes
estimate_request_tokens (some request) runes = walk request

unfoldable pub clamp_tokens : ℕ → ℕ
clamp_tokens tokens = Int64.min (Int64.max tokens 0) max_int32
