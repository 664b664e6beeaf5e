-- ===== src/Adapter/Paths.antt =====
-- crates/dag-ml-data-core/src/adapter.rs: `AdapterRegistry::find_path`, with what it makes of the paths
-- that the search found.
use dag_ml_data.Adapter.{PlanningPolicy, AdapterRegistry, RepresentationNode, AdapterSpec}
use dag_ml_data.Adapter.Search.{
  collect_edges, start_search, checked_add, search_loop, adapter_score, weight,
}
use dag_ml_data.Common.{
  ℕ, suc, Bool, false, not, ◌&&◌, Option, none, some, List, [], ◌∷◌, ◌++◌, if◌then◌else◌, length,
  is_empty, map,
}
use dag_ml_data.Order.{cmp_list, ◌==◌, nat_ord, list_ord}
use dag_ml_data.Text.{Text, text}
use dag_ml_data.Collections.{values, get}
use dag_ml_data.Plan.{PlanIssue}
use dag_ml_data.Relation.Folds.{quote}
use dag_ml_data.Common.{Ordering}
use dag_ml_data.Common.Options.{◌>>=◌}
use dag_ml_data.Order.{pair_ord}

pub record AdapterPath (J : Type 0) : Type 0 where
  pub adapters : List (AdapterSpec J)
  pub total_cost : ℕ
  pub effective_score : ℕ

pub record PathResolution (J : Type 0) : Type 0 where
  pub path : Option (AdapterPath J)
  pub requires_user_choice : Bool
  pub issues : List PlanIssue

-- `goal_paths.sort(); goal_paths.dedup()`: the paths in order, each once, as in an ordered set.
unfoldable pub insert_path : List Text → List (List Text) → List (List Text)
insert_path p [] = p ∷ []
insert_path p (q ∷ paths) =
    let rest = insert_path p paths in
    elim (cmp_list p q) [
      | Ordering.lt ↦ p ∷ q ∷ paths
      | Ordering.eq ↦ q ∷ paths
      | Ordering.gt ↦ q ∷ rest
    ]

unfoldable pub sort_paths : List (List Text) → List (List Text)
unfolding insert_path
sort_paths [] = []
sort_paths (p ∷ paths) = insert_path p (sort_paths paths)

unfoldable pub no_path_message : RepresentationNode → RepresentationNode → Text
no_path_message start goal =
    quote "no adapter path from `" start.0 "/"
    ++ (quote "" start.1 "` to `")
    ++ (goal.0 ++ quote "/" goal.1 "`")

-- `path.join(" -> ")`.
unfoldable pub join_path : List Text → Text
join_path [] = []
join_path (id ∷ []) = id
join_path (id ∷ next ∷ ids) = id ++ (text " -> " ++ join_path (next ∷ ids))

module _ {J : Type 0} where
  unfoldable pub resolved : AdapterPath J → PathResolution J
  resolved path = record { path = some path; requires_user_choice = false; issues = [] }

  unfoldable pub unresolved : Text → Text → List Text → PathResolution J
  unresolved code message choices = record {
    path = none;
    requires_user_choice = not (is_empty choices);
    issues = record { code = code; message = message; choices = choices } ∷ [];
  }

  -- `self.adapters.get(id).expect(…)` for every id: `none` where the source panics.
  unfoldable pub adapters_of : AdapterRegistry J → List Text → Option (List (AdapterSpec J))
  adapters_of registry [] = some []
  adapters_of registry (id ∷ ids) = do
    adapter ← get id registry
    rest ← adapters_of registry ids
    some (adapter ∷ rest)

  -- `try_fold` of the costs.
  unfoldable pub sum_costs : ℕ → List (AdapterSpec J) → Option ℕ
  sum_costs sum [] = some sum
  sum_costs sum (adapter ∷ adapters) = do
    next ← checked_add sum adapter.cost
    sum_costs next adapters

  -- `try_fold` of the scores.
  unfoldable pub sum_scores : PlanningPolicy → ℕ → List (AdapterSpec J) → Option ℕ
  unfolding adapter_score
  sum_scores policy sum [] = some sum
  sum_scores policy sum (adapter ∷ adapters) = do
    step ← adapter_score adapter policy
    next ← checked_add sum step
    sum_scores policy next adapters

  unfoldable pub with_totals : List (AdapterSpec J) → Option ℕ → Option ℕ → PathResolution J
  unfolding resolved unresolved
  with_totals adapters (some total_cost) (some effective_score) =
      resolved
        (record { adapters = adapters; total_cost = total_cost; effective_score = effective_score })
  with_totals adapters _ _ =
      unresolved (text "cost_overflow") (text "adapter path cost exceeds u64") []

  unfoldable pub select_path :
      AdapterRegistry J → PlanningPolicy → List Text → Option (PathResolution J)
  unfolding adapters_of sum_costs sum_scores with_totals
  select_path registry policy ids = do
    adapters ← adapters_of registry ids
    some (with_totals adapters (sum_costs 0 adapters) (sum_scores policy 0 adapters))

  -- What follows the loop, on the sorted paths.
  unfoldable pub resolve_paths :
      AdapterRegistry J
      → PlanningPolicy
      → RepresentationNode
      → RepresentationNode
      → Bool
      → List (List Text)
      → Option (PathResolution J)
  unfolding unresolved select_path no_path_message join_path
  resolve_paths registry policy start goal cost_overflow [] = some (
      unresolved (if cost_overflow then text "cost_overflow" else text "no_path")
        (no_path_message start goal) [])
  resolve_paths registry policy start goal cost_overflow (ids ∷ paths) =
      if not (is_empty paths) && policy.require_user_choice_on_ambiguity
      then some (
          unresolved (text "ambiguous_path")
            (text "multiple equivalent adapter paths require user choice")
            (map join_path (ids ∷ paths)))
      else select_path registry policy ids

  -- `AdapterRegistry::find_path`: `none` where the fuel runs out or the source panics.
  unfoldable pub find_path :
      AdapterRegistry J
      → RepresentationNode
      → RepresentationNode
      → PlanningPolicy
      → Option (PathResolution J)
  unfolding resolved weight search_loop start_search collect_edges resolve_paths sort_paths
  find_path registry start goal policy =
      if start == goal
      then some (resolved (record { adapters = []; total_cost = 0; effective_score = 0 }))
      else do
        let adapters = values registry
        search ←
            search_loop (suc (weight (length adapters) (length adapters))) policy goal
              (collect_edges policy [] adapters) (start_search start)
        resolve_paths registry policy start goal search.cost_overflow (sort_paths search.goal_paths)
