-- ===== src/Proxy/Usage/Totals.antt =====
-- What the reported counts are worth: each is an int32, and nothing is counted twice.
use native.Mathlib.Nat.{div-le_of_le-mul}
use wildtoken.Prelude.{
  ℕ, ◌+◌, ◌*◌, ◌/◌, ◌%◌, ◌^◌, ◌≤◌, ◌<◌, ◌≡◌, refl, ap, ◌∙◌, Bool, true, false, ◌&&◌, ◌||◌, Option,
  none, some, List, [], ◌∷◌, arith, ltb, leb, ◌==◌, if◌then◌else◌, Bool-cases, Option-cases, inl,
  inr, leb→le,
}
use wildtoken.Prelude.Int64
use wildtoken.Json.{Json, null, boolean, number, string, array, object, Fields}
use wildtoken.Proxy.Usage.{
  TokenUsage, max_int32, scaled_int32, float_int32, usage_int32, first_usage_int32, sum_parts,
  sum_token_parts, is_anthropic_style_usage, raw_prompt, raw_completion, upstream_total,
  top_level_cache_read, top_level_cache_creation, prompt_cached, cache_creation,
  completion_reasoning, or_else, extracted_prompt, extracted_total, is_present,
  extract_usage_values,
}

-- A count that is there fits an int32.
abbrev pub Fits : Option ℕ → Type 0
Fits none = Unit
Fits (some n) = n ≤ max_int32

pub record AllFit (u : TokenUsage) : Type 0 where
  pub prompt_tokens : Fits u.prompt_tokens
  pub completion_tokens : Fits u.completion_tokens
  pub total_tokens : Fits u.total_tokens
  pub prompt_cached_tokens : Fits u.prompt_cached_tokens
  pub cache_creation_tokens : Fits u.cache_creation_tokens
  pub completion_reasoning_tokens : Fits u.completion_reasoning_tokens

scaled_int32-Fits : (significand scale : ℕ) → Fits (scaled_int32 significand scale)
unfolding scaled_int32
scaled_int32-Fits significand scale = elim (Bool-cases (leb significand (max_int32 * scale))) [
  | inl low ↦
      rw (low, Fits)
        (div-le_of_le-mul scale {m = significand} {n = max_int32} (grind (arith, leb→le _ _ low)))
  | inr high ↦ rw (high, Fits) tt
]

float_int32-Fits : (bits : ℕ) → Fits (float_int32 bits)
unfolding float_int32
float_int32-Fits bits =
    let exponent = bits / 2 ^ 52 % 2 ^ 11 in
    elim (Bool-cases (bits % 2 ^ 63 == 0)) [
      | inl tiny ↦ rw (tiny, Fits) (omega arith)
      | inr more ↦ elim (Bool-cases (bits / 2 ^ 63 % 2 == 1)) [
        | inl negative ↦ rw (more, negative, Fits) tt
        | inr sign ↦ elim (Bool-cases (ltb exponent 1023)) [
          | inl small ↦ rw (more, sign, small, Fits) (omega arith)
          | inr whole ↦ elim (Bool-cases (ltb 1075 exponent)) [
            | inl huge ↦ rw (more, sign, whole, huge, Fits) tt
            | inr fine ↦ rw (more, sign, whole, fine) (scaled_int32-Fits _ _)
          ]
        ]
      ]
    ]

usage_int32-Fits : (v : Json) → Fits (usage_int32 v)
unfolding usage_int32
usage_int32-Fits null = tt
usage_int32-Fits (boolean b) = tt
usage_int32-Fits (number bits) = float_int32-Fits bits
usage_int32-Fits (string t) = tt
usage_int32-Fits (array xs) = tt
usage_int32-Fits (object fs) = tt

first_usage_int32-Fits : (vs : List Json) → Fits (first_usage_int32 vs)
unfolding first_usage_int32
first_usage_int32-Fits [] = tt
first_usage_int32-Fits (v ∷ vs) = elim (Option-cases (usage_int32 v)) [
  | inl e ↦ rw (e, Fits) (first_usage_int32-Fits vs)
  | inr (n, e) ↦
      rw (e, Fits) (let fits : Fits (usage_int32 v) = usage_int32-Fits v in rw (e, Fits) at fits)
]

-- The sum of the counts that are there, without bound; and whether one is there.
abbrev pub plain_sum : List (Option ℕ) → ℕ
plain_sum [] = 0
plain_sum (none ∷ parts) = plain_sum parts
plain_sum (some n ∷ parts) = n + plain_sum parts

abbrev pub some_present : List (Option ℕ) → Bool
some_present [] = false
some_present (none ∷ parts) = some_present parts
some_present (some n ∷ parts) = true

sum_parts-plain :
    (sum : ℕ) (any : Bool) (parts : List (Option ℕ))
    → sum + plain_sum parts < 2 ^ 64
    → sum_parts sum any parts ≡ (sum + plain_sum parts, any || some_present parts)
unfolding sum_parts
sum_parts-plain sum any [] h = ground arith
sum_parts-plain sum any (none ∷ parts) h = sum_parts-plain sum any parts h
sum_parts-plain sum any (some n ∷ parts) h =
    let here = Int64.add_lem sum n (omega arith) in
    ap (λ s. sum_parts s true parts) here
    ∙ sum_parts-plain (sum + n) true parts (omega arith)
    ∙ ground arith

sum_token_parts-plain :
    (parts : List (Option ℕ))
    → plain_sum parts < 2 ^ 63
    → sum_token_parts parts ≡ (
        if some_present parts && leb (plain_sum parts) max_int32
        then some (plain_sum parts)
        else none)
unfolding sum_token_parts
sum_token_parts-plain parts h =
    let whole = sum_parts-plain 0 false parts (omega arith) in
    let test = Int64.lt_lem max_int32 (plain_sum parts) (omega arith) (omega arith) in
    rw whole (ground (arith, test))

sum_token_parts-Fits :
    (parts : List (Option ℕ)) → plain_sum parts < 2 ^ 63 → Fits (sum_token_parts parts)
sum_token_parts-Fits parts h =
    rw (sum_token_parts-plain parts h)
      (elim (Bool-cases (some_present parts && leb (plain_sum parts) max_int32)) [
        | inl fits ↦ rw fits (ground (arith, fits))
        | inr no_fit ↦ rw no_fit tt
      ])

-- Counts that fit, and sums of two or three of them.
Fits-le : (o : Option ℕ) → Fits o → plain_sum (o ∷ []) ≤ max_int32
Fits-le none h = omega arith
Fits-le (some n) h = omega arith

plain_sum-cons :
    (o : Option ℕ) (parts : List (Option ℕ))
    → plain_sum (o ∷ parts) ≡ plain_sum (o ∷ []) + plain_sum parts
plain_sum-cons none parts = omega arith
plain_sum-cons (some n) parts = omega arith

or_else-Fits : (o p : Option ℕ) → Fits o → Fits p → Fits (or_else o p)
or_else-Fits none p h k = k
or_else-Fits (some n) p h k = h

module _ (usage : Fields) where
  prompt_parts : List (Option ℕ)
  prompt_parts = raw_prompt usage ∷ top_level_cache_creation usage ∷ top_level_cache_read usage ∷ []

  prompt_parts-small : plain_sum prompt_parts < 2 ^ 33
  unfolding prompt_parts raw_prompt top_level_cache_creation top_level_cache_read
  prompt_parts-small = omega (
    arith,
    plain_sum-cons (raw_prompt usage)
        (top_level_cache_creation usage ∷ top_level_cache_read usage ∷ []),
    plain_sum-cons (top_level_cache_creation usage) (top_level_cache_read usage ∷ []),
    Fits-le (raw_prompt usage) (first_usage_int32-Fits _),
    Fits-le (top_level_cache_creation usage) (first_usage_int32-Fits _),
    Fits-le (top_level_cache_read usage) (first_usage_int32-Fits _),
  )

  extracted_prompt-Fits : Fits (extracted_prompt usage)
  unfolding extracted_prompt prompt_parts
  extracted_prompt-Fits = elim (Bool-cases (is_anthropic_style_usage usage)) [
    | inl yes_style ↦ rw yes_style (
        or_else-Fits _ (raw_prompt usage)
          (sum_token_parts-Fits prompt_parts (omega (arith, prompt_parts-small)))
          (unfold raw_prompt in first_usage_int32-Fits _))
    | inr other ↦ rw other (unfold raw_prompt in first_usage_int32-Fits _)
  ]

  completion-Fits : Fits (raw_completion usage)
  unfolding raw_completion
  completion-Fits = first_usage_int32-Fits _

  two_small : plain_sum (extracted_prompt usage ∷ raw_completion usage ∷ []) < 2 ^ 63
  two_small = omega (
    arith,
    plain_sum-cons (extracted_prompt usage) (raw_completion usage ∷ []),
    Fits-le (extracted_prompt usage) extracted_prompt-Fits,
    Fits-le (raw_completion usage) completion-Fits,
  )

  total-Fits :
      (anthropic : Bool)
      → Fits (
          extracted_total anthropic
            (upstream_total usage)
            (extracted_prompt usage)
            (raw_completion usage))
  unfolding extracted_total
  total-Fits true =
      let summed =
        sum_token_parts-Fits (extracted_prompt usage ∷ raw_completion usage ∷ []) two_small in
      elim (Bool-cases (is_present (extracted_prompt usage) && is_present (raw_completion usage))) [
        | inl both ↦ rw both summed
        | inr some_missing ↦ elim (Bool-cases (is_present (upstream_total usage))) [
          | inl told ↦ rw (some_missing, told) (unfold upstream_total in usage_int32-Fits _)
          | inr untold ↦ rw (some_missing, untold) summed
        ]
      ]
  total-Fits false = elim (Bool-cases (is_present (upstream_total usage))) [
    | inl told ↦ rw told (unfold upstream_total in usage_int32-Fits _)
    | inr untold ↦
        rw untold
          (sum_token_parts-Fits (extracted_prompt usage ∷ raw_completion usage ∷ []) two_small)
  ]

  -- Whatever an upstream reports, in whatever shape, every count that is taken from it is absent or
  -- fits an int32 and is not negative.
  pub extract_usage_values-AllFit : AllFit (extract_usage_values usage)
  unfolding extract_usage_values prompt_cached cache_creation completion_reasoning
  extract_usage_values-AllFit = record {
    prompt_tokens = extracted_prompt-Fits;
    completion_tokens = completion-Fits;
    total_tokens = total-Fits (is_anthropic_style_usage usage);
    prompt_cached_tokens = first_usage_int32-Fits _;
    cache_creation_tokens = first_usage_int32-Fits _;
    completion_reasoning_tokens = first_usage_int32-Fits _;
  }

  two_parts : (a b : ℕ) → a + b ≤ max_int32 → sum_token_parts (some a ∷ some b ∷ []) ≡ some (a + b)
  two_parts a b h = sum_token_parts-plain (some a ∷ some b ∷ []) (omega arith) ∙ ground arith

  -- What the cache adds to Anthropic's input.
  abbrev pub all_input : ℕ
  all_input =
      plain_sum
        (raw_prompt usage ∷ top_level_cache_creation usage ∷ top_level_cache_read usage ∷ [])

  anthropic_prompt :
      is_anthropic_style_usage usage ≡ true
      → some_present
          (raw_prompt usage ∷ top_level_cache_creation usage ∷ top_level_cache_read usage ∷ [])
        ≡ true
      → all_input ≤ max_int32
      → extracted_prompt usage ≡ some all_input
  unfolding extracted_prompt
  anthropic_prompt style present h =
      let aggregated =
        sum_token_parts-plain
          (raw_prompt usage ∷ top_level_cache_creation usage ∷ top_level_cache_read usage ∷ [])
          (omega arith) in
      let low : leb all_input max_int32 ≡ true = ground arith in
      rw (style, aggregated, present, low) refl

  -- Usage in Anthropic's style is billed its input, what it wrote to the cache and what it read from
  -- it, each once, and its output, whatever total it reports, where these fit an int32.
  pub anthropic_totals :
      (d : ℕ)
      → is_anthropic_style_usage usage ≡ true
      → some_present
          (raw_prompt usage ∷ top_level_cache_creation usage ∷ top_level_cache_read usage ∷ [])
        ≡ true
      → raw_completion usage ≡ some d
      → all_input + d ≤ max_int32
      → ((extract_usage_values usage).prompt_tokens ≡ some all_input)
        × ((extract_usage_values usage).total_tokens ≡ some (all_input + d))
  unfolding extract_usage_values extracted_total
  anthropic_totals d style present e h =
      let prompt = anthropic_prompt style present (omega arith) in
      (prompt, rw (prompt, style, e) (two_parts all_input d h))

  -- Usage in OpenAI's style is billed the upstream's total where there is one, and otherwise its
  -- prompt and its completion, where these fit an int32; the cache adds nothing to either.
  pub openai_totals :
      (a d : ℕ)
      → is_anthropic_style_usage usage ≡ false
      → raw_prompt usage ≡ some a
      → raw_completion usage ≡ some d
      → a + d ≤ max_int32
      → ((extract_usage_values usage).prompt_tokens ≡ some a)
        × ((extract_usage_values usage).total_tokens
            ≡ or_else (upstream_total usage) (some (a + d)))
  unfolding extract_usage_values extracted_total extracted_prompt
  openai_totals a d style given e h = elim (Option-cases (upstream_total usage)) [
    | inl untold ↦ rw (style, untold, given, e) (refl, two_parts a d h)
    | inr (t, told) ↦ rw (style, told, given) (refl, refl)
  ]
