-- ===== src/Adapter/Search.antt =====
-- crates/dag-ml-data-core/src/adapter.rs: the best-first search of `AdapterRegistry::find_path`. The
-- heap is the list of its states, the greatest first; u64 sums are checked against `2 ^ 64`.
use dag_ml_data.Adapter.{target, source, PlanningPolicy, AdapterSpec, RepresentationNode}
use dag_ml_data.Common.{
  ℕ, zero, suc, ◌+◌, ◌-◌, ◌*◌, ◌^◌, Bool, true, false, not, ◌&&◌, ◌||◌, Option, none, some, List,
  [], ◌∷◌, ◌++◌, ltb, leb, nat_eq, if◌then◌else◌,
}
use dag_ml_data.Order.{cmp_list, cmp_pair, ◌==◌, nat_ord, list_ord, then}
use dag_ml_data.Text.{Text}
use dag_ml_data.Collections.{Map, put, get, contains}
use dag_ml_data.Common.{compare, Ordering}
use dag_ml_data.Common.Options.{◌>>=◌}
use dag_ml_data.Order.{pair_ord}

-- `u64::checked_add`.
abbrev pub checked_add : ℕ → ℕ → Option ℕ
checked_add a b = if ltb (a + b) (2 ^ 64) then some (a + b) else none

-- `score.saturating_sub(1)`, on numbers.
abbrev pub bonus : Bool → ℕ
bonus preferred = if preferred then 1 else 0

abbrev pub penalty : Bool → ℕ → ℕ
penalty applies amount = if applies then amount else 0

-- `cost.max(1)`.
abbrev pub at_least_one : ℕ → ℕ
at_least_one cost = if ltb cost 1 then 1 else cost

module _ {J : Type 0} where
  -- The sums stay below `2 ^ 128`.
  unfoldable pub score_of : AdapterSpec J → PlanningPolicy → ℕ
  score_of adapter policy =
      at_least_one adapter.cost
      + penalty adapter.lossy 1000000
      + penalty adapter.stateful 100000
      + penalty adapter.supervised 100000
      - bonus (contains adapter.id policy.preferred_adapters)

  unfoldable pub adapter_score : AdapterSpec J → PlanningPolicy → Option ℕ
  unfolding score_of
  adapter_score adapter policy =
      if ltb (score_of adapter policy) (2 ^ 64) then some (score_of adapter policy) else none

  -- The guards of the loop that collects the edges.
  unfoldable pub is_allowed : PlanningPolicy → AdapterSpec J → Bool
  is_allowed policy adapter =
      not (contains adapter.id policy.forbidden_adapters)
      && not (adapter.lossy && not policy.allow_lossy)
      && not (adapter.stateful && not policy.allow_stateful)
      && not (adapter.supervised && not policy.allow_supervised)

  -- `edges.get(&node)`, with no edge where there is no entry.
  unfoldable pub edges_at :
      RepresentationNode → Map RepresentationNode (List (AdapterSpec J)) → List (AdapterSpec J)
  edges_at node edges = elim (get node edges) [ none ↦ [] | some adapters ↦ adapters ]

  unfoldable pub add_edge :
      AdapterSpec J
      → Map RepresentationNode (List (AdapterSpec J))
      → Map RepresentationNode (List (AdapterSpec J))
  unfolding edges_at
  add_edge adapter edges =
      put (source adapter) (edges_at (source adapter) edges ++ (adapter ∷ [])) edges

  unfoldable pub collect_edges :
      PlanningPolicy
      → Map RepresentationNode (List (AdapterSpec J))
      → List (AdapterSpec J)
      → Map RepresentationNode (List (AdapterSpec J))
  unfolding is_allowed add_edge
  collect_edges policy edges [] = edges
  collect_edges policy edges (adapter ∷ adapters) =
      collect_edges policy (if is_allowed policy adapter then add_edge adapter edges else edges)
        adapters

pub record SearchState : Type 0 where
  pub score : ℕ
  pub raw_cost : ℕ
  pub hops : ℕ
  pub node : RepresentationNode
  pub adapter_ids : List Text

-- `SearchState::cmp`: the cheaper state is the greater one.
unfoldable pub cmp_state : SearchState → SearchState → Ordering
cmp_state a b = (then) (compare b.score a.score) (
    (then) (compare b.hops a.hops) (
      (then) (compare b.raw_cost a.raw_cost)
        ((then) (cmp_pair b.node a.node) (cmp_list b.adapter_ids a.adapter_ids))))

abbrev pub is_lt : Ordering → Bool
is_lt Ordering.lt = true
is_lt _ = false

-- `BinaryHeap::push`.
unfoldable pub push : SearchState → List SearchState → List SearchState
unfolding cmp_state
push s [] = s ∷ []
push s (t ∷ heap) =
    let rest = push s heap in if is_lt (cmp_state s t) then t ∷ rest else s ∷ t ∷ heap

-- The variables of the search loop.
pub record Search : Type 0 where
  pub heap : List SearchState
  pub best_seen : Map (RepresentationNode × ℕ) ℕ
  pub cost_overflow : Bool
  pub best_goal : Option (ℕ × ℕ × ℕ)
  pub goal_paths : List (List Text)

-- The key has a cheaper arrival.
unfoldable pub is_dominated : ℕ → Option ℕ → Bool
is_dominated score none = false
is_dominated score (some best_score) = ltb best_score score

unfoldable pub arrive : SearchState → Search → Search
unfolding push is_dominated
arrive next search =
    if is_dominated next.score (get (next.node, next.hops) search.best_seen)
    then search
    else record search {
      heap = push next search.heap;
      best_seen = put (next.node, next.hops) next.score search.best_seen;
    }

module _ {J : Type 0} where
  -- The sums of the next state: `None` where one of them leaves u64.
  unfoldable pub next_state : PlanningPolicy → SearchState → AdapterSpec J → Option SearchState
  unfolding adapter_score
  next_state policy state adapter = do
    step ← adapter_score adapter policy
    score ← checked_add state.score step
    raw_cost ← checked_add state.raw_cost adapter.cost
    some (record {
      score = score;
      raw_cost = raw_cost;
      hops = state.hops + 1;
      node = target adapter;
      adapter_ids = state.adapter_ids ++ (adapter.id ∷ []);
    })

  unfoldable pub try_edge : PlanningPolicy → SearchState → AdapterSpec J → Search → Search
  unfolding next_state arrive
  try_edge policy state adapter search =
      if contains adapter.id state.adapter_ids
      then search
      else elim (next_state policy state adapter) [
        | none ↦ record search { cost_overflow = true }
        | some next ↦ arrive next search
      ]

  unfoldable pub try_edges : PlanningPolicy → SearchState → List (AdapterSpec J) → Search → Search
  unfolding try_edge
  try_edges policy state [] search = search
  try_edges policy state (adapter ∷ adapters) search =
      try_edges policy state adapters (try_edge policy state adapter search)

-- `(state.score, state.hops) > (best_score, best_hops)`.
unfoldable pub is_past : SearchState → Option (ℕ × ℕ × ℕ) → Bool
is_past state none = false
is_past state (some (best_score, best_hops, best_cost)) =
    ltb best_score state.score || (nat_eq best_score state.score && ltb best_hops state.hops)

abbrev pub get_or_insert {ℓ} : {A : Type ℓ} → Option A → A → Option A
get_or_insert none a = some a
get_or_insert (some b) a = some b

unfoldable pub is_spent : Option ℕ → ℕ → Bool
is_spent none hops = false
is_spent (some max_hops) hops = leb max_hops hops

pub data Round : Type 0 where
  stopped again : (search : Search) → Round

module _ {J : Type 0} where
  -- The body of the loop after `pop` and the test that leaves it.
  unfoldable pub visit :
      PlanningPolicy
      → RepresentationNode
      → Map RepresentationNode (List (AdapterSpec J))
      → SearchState
      → Search
      → Search
  unfolding is_spent edges_at try_edges
  visit policy goal edges state search =
      if state.node == goal
      then record search {
        best_goal = get_or_insert search.best_goal (state.score, state.hops, state.raw_cost);
        goal_paths = search.goal_paths ++ (state.adapter_ids ∷ []);
      }
      else if is_spent policy.max_hops state.hops
      then search
      else try_edges policy state (edges_at state.node edges) search

  -- `while let Some(state) = heap.pop()`: one round, which leaves the loop or goes on.
  unfoldable pub pop_round :
      PlanningPolicy
      → RepresentationNode
      → Map RepresentationNode (List (AdapterSpec J))
      → List SearchState
      → Search
      → Round
  unfolding is_past visit
  pop_round policy goal edges [] search = stopped search
  pop_round policy goal edges (state ∷ heap) search =
      if is_past state search.best_goal
      then stopped (record search { heap = heap })
      else again (visit policy goal edges state (record search { heap = heap }))

  -- `none` when the fuel runs out.
  unfoldable pub search_loop :
      ℕ
      → PlanningPolicy
      → RepresentationNode
      → Map RepresentationNode (List (AdapterSpec J))
      → Search
      → Option Search
  unfolding pop_round
  search_loop zero policy goal edges search = none
  search_loop (suc fuel) policy goal edges search =
      elim (pop_round policy goal edges search.heap search) [
        | stopped final ↦ some final
        | again next ↦ search_loop fuel policy goal edges next
      ]

unfoldable pub start_search : RepresentationNode → Search
start_search start = record {
  heap = record { score = 0; raw_cost = 0; hops = 0; node = start; adapter_ids = [] } ∷ [];
  best_seen = put (start, 0) 0 [];
  cost_overflow = false;
  best_goal = none;
  goal_paths = [];
}

-- The states that a search over `n` adapters can still pop from one with `k` adapters unused.
unfoldable pub weight : ℕ → ℕ → ℕ
weight n zero = 1
weight n (suc k) = 1 + n * weight n k
