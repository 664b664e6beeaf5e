-- ===== src/Tests/Adapters.antt =====
-- A registry of three adapters, with a path of two hops and a longer one of one.
use dag_ml_data.Adapter.Register.{from_spec_iff}
use dag_ml_data.Adapter.Answers.{find_path_answers}
use dag_ml_data.Adapter.Resolve.{IsAnswer}
use dag_ml_data.Adapter.Fuel.{registered_ids}
use dag_ml_data.Adapter.Paths.{find_path, PathResolution}
use dag_ml_data.Adapter.Registry.{from_spec_sound, IsRegistry}
use dag_ml_data.Adapter.{
  default_policy, AdapterSpec, from_spec, RepresentationNode, AdapterRegistry,
}
use dag_ml_data.Common.{◌↔◌, ℕ, ◌≡◌, refl, true, false, Option, none, some, List, [], ◌∷◌, All}
use dag_ml_data.Order.{nat_ord, list_ord}
use dag_ml_data.Text.{Text, is_blank}
use dag_ml_data.Collections.{Distinct, put, get, insert}
use dag_ml_data.Error.{done, ok}
use dag_ml_data.Order.{pair_ord, cmp_pair, cmp_list}
use dag_ml_data.Plan.{FitScope}
use dag_ml_data.Text.{is_whitespace}
use dag_ml_data.Adapter.{register_all, register_adapter, validate_adapter, validate_name}
use dag_ml_data.Adapter.Search.{
  search_loop, pop_round, visit, is_past, is_spent, edges_at, try_edges, try_edge, next_state,
  adapter_score, score_of, arrive, push, cmp_state, is_dominated, start_search, collect_edges,
  is_allowed, add_edge, weight,
}
use dag_ml_data.Adapter.Paths.{
  resolve_paths, select_path, adapters_of, sum_costs, sum_scores, with_totals, resolved, unresolved,
  sort_paths, insert_path, join_path, no_path_message,
}

abbrev node_a : RepresentationNode
node_a = (97 ∷ [], 97 ∷ [])

abbrev node_b : RepresentationNode
node_b = (98 ∷ [], 98 ∷ [])

abbrev node_c : RepresentationNode
node_c = (99 ∷ [], 99 ∷ [])

abbrev spec : Text → RepresentationNode → RepresentationNode → ℕ → AdapterSpec ℕ
spec id from to cost = record {
  id = id;
  version = 49 ∷ [];
  input_type = from.0;
  input_representation = from.1;
  output_type = to.0;
  output_representation = to.1;
  cost = cost;
  lossy = false;
  supervised = false;
  stateful = false;
  deterministic = true;
  fit_scope = FitScope.stateless;
  params = [];
}

abbrev specs : List (AdapterSpec ℕ)
specs =
    spec (120 ∷ []) node_a node_b 2
    ∷ spec (121 ∷ []) node_b node_c 3
    ∷ spec (122 ∷ []) node_a node_c 9
    ∷ []

abbrev registered : AdapterRegistry ℕ
registered =
    (120 ∷ [], spec (120 ∷ []) node_a node_b 2)
    ∷ (121 ∷ [], spec (121 ∷ []) node_b node_c 3)
    ∷ (122 ∷ [], spec (122 ∷ []) node_a node_c 9)
    ∷ []

from_spec-specs : from_spec specs ≡ ok registered
unfolding from_spec register_all register_adapter validate_adapter validate_name is_blank
    is_whitespace put get cmp_list
from_spec-specs = refl

from_spec_sound_example :
    IsRegistry registered × All (λ adapter. get adapter.id registered ≡ some adapter) specs
from_spec_sound_example = from_spec_sound specs registered from_spec-specs

found_ids : Option (PathResolution ℕ) → Option (Option (List Text))
found_ids none = none
found_ids (some resolution) = elim resolution.path [
  | none ↦ some none
  | some path ↦ some (some (registered_ids path.adapters))
]

find_path-two_hops :
    found_ids (find_path registered node_a node_c default_policy)
    ≡ some (some ((120 ∷ []) ∷ (121 ∷ []) ∷ []))
unfolding found_ids find_path registered_ids search_loop pop_round visit is_past is_spent edges_at
    try_edges try_edge next_state adapter_score score_of arrive push cmp_state is_dominated
    start_search collect_edges is_allowed add_edge weight resolve_paths select_path adapters_of
    sum_costs sum_scores with_totals resolved unresolved sort_paths insert_path join_path
    no_path_message put get cmp_list cmp_pair insert
find_path-two_hops = refl

find_path-one_hop :
    found_ids (find_path registered node_a node_c (record default_policy { max_hops = some 1 }))
    ≡ some (some ((122 ∷ []) ∷ []))
unfolding found_ids find_path registered_ids search_loop pop_round visit is_past is_spent edges_at
    try_edges try_edge next_state adapter_score score_of arrive push cmp_state is_dominated
    start_search collect_edges is_allowed add_edge weight resolve_paths select_path adapters_of
    sum_costs sum_scores with_totals resolved unresolved sort_paths insert_path join_path
    no_path_message put get cmp_list cmp_pair insert
find_path-one_hop = refl

find_path-none : found_ids (find_path registered node_c node_a default_policy) ≡ some none
unfolding found_ids find_path search_loop pop_round visit is_past is_spent edges_at try_edges
    try_edge next_state adapter_score score_of arrive push cmp_state is_dominated start_search
    collect_edges is_allowed add_edge weight resolve_paths select_path adapters_of sum_costs
    sum_scores with_totals resolved unresolved sort_paths insert_path join_path no_path_message put
    get cmp_list cmp_pair insert
find_path-none = refl

find_path_answers_example :
    (resolution : PathResolution ℕ) × (find_path registered node_a node_c default_policy
      ≡ some resolution)
    × IsAnswer registered default_policy node_a node_c resolution
find_path_answers_example =
    find_path_answers registered default_policy node_a node_c from_spec_sound_example.0

from_spec_iff_example :
    ((registry : AdapterRegistry ℕ) × (from_spec specs ≡ ok registry))
    ↔ (All (λ adapter. validate_adapter adapter ≡ done) specs × Distinct (registered_ids specs))
from_spec_iff_example = from_spec_iff specs
