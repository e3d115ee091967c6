-- ===== src/Proxy/Matcher.antt =====
-- internal/proxy/matcher.go: which upstream serves a request. Names of models are texts; the
-- decoding of a row's JSON columns happens outside, so a row comes with its decoded lists (`none`
-- where the JSON is malformed). `normalize` is strings.ToLower after strings.TrimSpace. Sets of
-- ids (`map[int64]bool`) are lists of the ids that are true.
pub mod Select
pub mod Weighted
pub mod Scores
pub mod Selecting
mod Examples
use mathlib.Core.Option
use wildtoken.Prelude.{
  ℕ, zero, suc, ◌+◌, ◌-◌, ◌%◌, ◌^◌, max, Bool, true, false, not, ◌&&◌, ◌||◌, Option, none, some,
  List, [], ◌∷◌, ◌++◌, map, ltb, ◌==◌, if◌then◌else◌, ℕ_discrete, length, keep, any, get_elem?,
}
use wildtoken.Prelude.Int64
use wildtoken.Prelude.Assoc
use wildtoken.Prelude.Assoc.{Assoc}
use wildtoken.Text.{Text, Text-discrete, text_eq, has_prefix, parse_signed}
use wildtoken.Proxy.Health
use wildtoken.Proxy.Health.{Policy, Manager}
use wildtoken.Proxy.Keys.{UpstreamKey}

-- The fields of models.UpstreamRow that routing reads. The priority is an int32, extended to the
-- pattern of an int64.
pub record UpstreamRow : Type 0 where
  pub id : ℕ
  pub name : Text
  pub model_names : Option (List Text)
  pub model_prefixes : Option (List Text)
  pub model_mappings : Option (List (Text × Option Text))
  pub priority : ℕ
  pub weight : ℕ
  pub auto_weight_enabled : ℕ
  pub enabled : ℕ

pub record ParsedModelName : Type 0 where
  pub original : Text
  pub normalized : Text

pub record ParsedModelMapping : Type 0 where
  pub key_normalized : Text
  pub value : Option Text

pub record ParsedUpstream : Type 0 where
  pub row : UpstreamRow
  pub model_names : List ParsedModelName
  pub model_prefixes : List Text
  pub model_mappings : List ParsedModelMapping
  pub group_ids : List ℕ
  pub keys : List UpstreamKey

pub record RoutingSnapshot : Type 0 where
  pub upstreams : List ParsedUpstream
  pub by_id : Assoc ℕ ParsedUpstream
  pub by_name : Assoc Text ParsedUpstream

abbrev pub or_empty {ℓ} : {A : Type ℓ} → Option (List A) → List A
or_empty none = []
or_empty (some xs) = xs

-- An id in a set.
abbrev pub contains : List ℕ → ℕ → Bool
contains ids id = any (λ x. x == id) ids

-- type Selection
pub record Selection : Type 0 where
  pub upstream : UpstreamRow
  pub forward_model : Option Text
  pub keys : List UpstreamKey

abbrev pub serves_group : ParsedUpstream → ℕ → Bool
serves_group u group = contains u.group_ids group

unfoldable pub filter_by_group : List ParsedUpstream → ℕ → List ParsedUpstream
filter_by_group us group = keep (λ u. serves_group u group) us

unfoldable pub filter_excluded : List ParsedUpstream → List ℕ → List ParsedUpstream
filter_excluded us [] = us
filter_excluded us (x ∷ xs) = keep (λ (u : ParsedUpstream). not (contains (x ∷ xs) u.row.id)) us

module _ (normalize : Text → Text) where
  -- The mappings come in the order of their sorted keys.
  unfoldable pub new_parsed_upstream : UpstreamRow → List ℕ → List UpstreamKey → ParsedUpstream
  new_parsed_upstream row group_ids keys = record {
    row = row;
    model_names =
        map (λ (n : Text). record { original = n; normalized = normalize n })
          (or_empty row.model_names);
    model_prefixes = map normalize (or_empty row.model_prefixes);
    model_mappings =
        map (λ (m : Text × Option Text). record { key_normalized = normalize m.0; value = m.1 })
          (or_empty row.model_mappings);
    group_ids = group_ids;
    keys = keys;
  }

  abbrev pub empty_snapshot : RoutingSnapshot
  empty_snapshot = record { upstreams = []; by_id = []; by_name = [] }

  -- One round of the loop of newRoutingSnapshot, for an enabled row.
  unfoldable pub add_upstream : RoutingSnapshot → ParsedUpstream → RoutingSnapshot
  add_upstream s u = record {
    upstreams = s.upstreams ++ (u ∷ []);
    by_id = Assoc.put ℕ_discrete u.row.id u s.by_id;
    by_name = Assoc.put Text-discrete u.row.name u s.by_name;
  }

  -- The loop over the rows, from the snapshot built so far.
  unfoldable pub build_snapshot :
      RoutingSnapshot → List UpstreamRow → (ℕ → List ℕ) → (ℕ → List UpstreamKey) → RoutingSnapshot
  unfolding new_parsed_upstream add_upstream
  build_snapshot s [] membership keys = s
  build_snapshot s (row ∷ rows) membership keys =
      build_snapshot
        (if row.enabled == 1
          then add_upstream s (new_parsed_upstream row (membership row.id) (keys row.id))
          else s)
        rows membership keys

  unfoldable pub new_routing_snapshot :
      List UpstreamRow → (ℕ → List ℕ) → (ℕ → List UpstreamKey) → RoutingSnapshot
  unfolding build_snapshot
  new_routing_snapshot rows membership keys = build_snapshot empty_snapshot rows membership keys

  -- modelMatchScore
  unfoldable pub model_match_score : ParsedUpstream → Option Text → ℕ
  model_match_score u none = 0
  model_match_score u (some model) =
      let request = normalize model in
      if any (λ (m : ParsedModelMapping). text_eq m.key_normalized request) u.model_mappings
      then 2
      else if any (λ (n : ParsedModelName). text_eq n.normalized request) u.model_names
      then 2
      else if any (λ p. has_prefix request p) u.model_prefixes
      then 1
      else 0

  unfoldable pub matches_model : ParsedUpstream → Option Text → Bool
  matches_model u none = true
  matches_model u (some model) = ltb 0 (model_match_score u (some model))

  -- The first mapping with the request's key that has a target.
  find_mapping : Text → List ParsedModelMapping → Option Text
  find_mapping request [] = none
  find_mapping request (m ∷ ms) =
      let rest = find_mapping request ms in
      if text_eq m.key_normalized request
      then elim m.value [ none ↦ rest | some v ↦ some v ]
      else rest

  find_name : Text → List ParsedModelName → Option Text
  find_name request [] = none
  find_name request (n ∷ ns) =
      if text_eq n.normalized request then some n.original else find_name request ns

  unfoldable pub select_forward_model : ParsedUpstream → Option Text → Option Text
  unfolding find_mapping find_name
  select_forward_model u none = none
  select_forward_model u (some model) = elim (find_mapping (normalize model) u.model_mappings) [
    | some target ↦ some target
    | none ↦ elim (find_name (normalize model) u.model_names) [
      | some original ↦ some original
      | none ↦ some model
    ]
  ]

  unfoldable pub new_selection : ParsedUpstream → Option Text → Selection
  unfolding select_forward_model
  new_selection u model = record {
    upstream = u.row;
    forward_model = select_forward_model u model;
    keys = u.keys;
  }

  -- The highest score, `best` so far.
  unfoldable pub best_score : ℕ → List ParsedUpstream → Option Text → ℕ
  best_score best [] model = best
  best_score best (u ∷ us) model = best_score (max best (model_match_score u model)) us model

  unfoldable pub filter_by_best_score : List ParsedUpstream → Option Text → List ParsedUpstream
  unfolding best_score
  filter_by_best_score us none = us
  filter_by_best_score us (some model) =
      let best = best_score 0 us (some model) in
      if best == 0 then [] else keep (λ u. model_match_score u (some model) == best) us

  -- selectDirect: an id first, then a name.
  abbrev pub admissible : ParsedUpstream → Option Text → ℕ → List ℕ → ℕ → Bool
  admissible u model group exclude id =
      not (contains exclude id) && serves_group u group && matches_model u model

  abbrev pub direct_hit : Option ParsedUpstream → Option Text → ℕ → List ℕ → Option ParsedUpstream
  direct_hit none model group exclude = none
  direct_hit (some u) model group exclude =
      if admissible u model group exclude u.row.id then some u else none

  abbrev pub by_id_hit :
      RoutingSnapshot → Option ℕ → Option Text → ℕ → List ℕ → Option ParsedUpstream
  by_id_hit s none model group exclude = none
  by_id_hit s (some id) model group exclude = elim (Assoc.get ℕ_discrete id s.by_id) [
    | none ↦ none
    | some u ↦ (if admissible u model group exclude id then some u else none)
  ]

  unfoldable pub select_direct :
      RoutingSnapshot → Text → Option Text → ℕ → List ℕ → Option ParsedUpstream
  select_direct s selector model group exclude =
      elim (by_id_hit s (parse_signed selector) model group exclude) [
        | some u ↦ some u
        | none ↦ direct_hit (Assoc.get Text-discrete selector s.by_name) model group exclude
      ]
