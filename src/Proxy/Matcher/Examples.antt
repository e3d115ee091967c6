-- ===== src/Proxy/Matcher/Examples.antt =====
-- Selections from a small snapshot, and the theorems about selections at that snapshot.
use wildtoken.Prelude.{
  ℕ, ◌*◌, ◌≤◌, ◌<◌, ◌≡◌, ◌↔◌, refl, Option, none, some, List, [], ◌∷◌, arith, ℕ_discrete, Occurs,
}
use wildtoken.Prelude.Int64
use wildtoken.Clock.{second, minute}
use wildtoken.Text.{Text, text_eq}
use wildtoken.Proxy.Health
use wildtoken.Proxy.Health.{Policy}
use wildtoken.Proxy.Keys.{UpstreamKey}
use wildtoken.Proxy.Matcher.{
  UpstreamRow, ParsedUpstream, RoutingSnapshot, Selection, new_parsed_upstream,
  new_routing_snapshot, filter_by_group, filter_excluded, model_match_score, filter_by_best_score,
  new_selection,
}
use wildtoken.Proxy.Matcher.Select.{
  candidates, insert_priority, priorities, weigh, weighted_index, total_weight, choose,
  select_by_priority, select_upstream, select_from_snapshot,
}
use wildtoken.Proxy.Matcher.Weighted.{sum, Lands, weighted_index-Lands}
use wildtoken.Proxy.Matcher.Scores.{IsReachable, candidates_iff}
use wildtoken.Proxy.Matcher.Selecting.{IsAllowed, select_from_snapshot-IsAllowed}

abbrev same_text : Text → Text
same_text t = t

abbrev model_a : Text
model_a = b'a' ∷ []

abbrev row : ℕ → ℕ → ℕ → UpstreamRow
row id priority enabled = record {
  id = id;
  name = [];
  model_names = some (model_a ∷ []);
  model_prefixes = none;
  model_mappings = some [];
  priority = priority;
  weight = 10;
  auto_weight_enabled = 0;
  enabled = enabled;
}

-- Upstream 3 is off, and upstream 4 comes before upstream 1.
abbrev rows : List UpstreamRow
rows = row 1 0 1 ∷ row 3 9 0 ∷ row 4 5 1 ∷ []

abbrev groups : ℕ → List ℕ
groups id = 2 ∷ []

abbrev no_keys : ℕ → List UpstreamKey
no_keys id = []

abbrev routes : RoutingSnapshot
routes = new_routing_snapshot same_text rows groups no_keys

abbrev policy : Policy
policy = record {
  failure_penalty = 20;
  success_increment = 10;
  recovery_increment = 5;
  recovery_interval = minute;
}

abbrev half : ℕ → ℕ
half total = 500

abbrev answer : List ℕ → Option Selection
answer exclude =
    (select_from_snapshot same_text half routes [] policy (10 * second) none (some model_a) 2
      exclude).1

abbrev served_by : ℕ → ℕ → Selection
served_by id priority = record {
  upstream = row id priority 1;
  forward_model = some model_a;
  keys = [];
}

answer_first : answer [] ≡ some (served_by 4 5)
unfolding select_from_snapshot new_routing_snapshot filter_by_group filter_excluded
    model_match_score filter_by_best_score candidates insert_priority priorities weigh choose
    select_by_priority select_upstream Health.snapshot Int64.lt Int64.max ℕ_discrete text_eq
answer_first = refl

-- With upstream 4 excluded, as after a failed attempt, the next priority serves.
answer_next : answer (4 ∷ []) ≡ some (served_by 1 0)
unfolding select_from_snapshot new_routing_snapshot filter_by_group filter_excluded
    model_match_score filter_by_best_score candidates insert_priority priorities weigh choose
    select_by_priority select_upstream Health.snapshot Int64.lt Int64.max ℕ_discrete text_eq
answer_next = refl

select_from_snapshot-IsAllowed_example :
    (u : ParsedUpstream) × (served_by 1 0 ≡ new_selection same_text u (some model_a))
    × IsAllowed same_text routes (some model_a) 2 (4 ∷ []) u
select_from_snapshot-IsAllowed_example =
    select_from_snapshot-IsAllowed same_text rows groups no_keys half [] policy (10 * second) none
      (some model_a) 2 (4 ∷ []) (served_by 1 0) answer_next

abbrev parsed_four : ParsedUpstream
parsed_four = new_parsed_upstream same_text (row 4 5 1) (2 ∷ []) []

candidates_iff_example :
    Occurs parsed_four (candidates same_text routes (some model_a) 2 (1 ∷ [])) ↔ (
      IsReachable routes 2 (1 ∷ []) parsed_four
      × (0 < model_match_score same_text parsed_four (some model_a))
      × ((v : ParsedUpstream)
          → IsReachable routes 2 (1 ∷ []) v
          → model_match_score same_text v (some model_a)
            ≤ model_match_score same_text parsed_four (some model_a)))
candidates_iff_example = candidates_iff same_text routes model_a 2 (1 ∷ []) parsed_four

abbrev weights : List ℕ
weights = 300 ∷ 400 ∷ 300 ∷ []

weighted_index-Lands_example :
    Lands weights (half (sum weights)) (weighted_index half weights (total_weight 0 weights))
weighted_index-Lands_example =
    weighted_index-Lands half weights (omega arith) (omega arith) (omega arith)
