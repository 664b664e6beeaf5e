-- ===== src/Adapter/Sound.antt =====
-- The paths that the search of `AdapterRegistry::find_path` collects lead from the start to the goal.
use dag_ml_data.Adapter.Search.{
  is_past, again, stopped, search_loop, Round, pop_round, get_or_insert, try_edges, is_spent,
  Search, SearchState, visit, edges_at,
}
use dag_ml_data.Adapter.Reach.{
  try_edges-IsSearch, try_edges-IsSearch, Within, Reaches, IsGoalPath, IsSearch, OnPath, IsEdge,
}
use dag_ml_data.Adapter.{AdapterSpec, RepresentationNode, PlanningPolicy, AdapterRegistry}
use dag_ml_data.Common.{
  All-append, ℕ, zero, suc, ◌≡◌, refl, sym, ◌∙◌, subst, ◌⊎◌, inl, inr, Bool, true, false, some,
  List, [], ◌∷◌, ◌++◌, if◌then◌else◌, Bool-cases, All,
}
use dag_ml_data.Order.{◌==◌, ==_iff, nat_ord, list_ord}
use dag_ml_data.Collections.{Map}
use dag_ml_data.Order.{pair_ord}

module _ {J : Type 0} (registry : AdapterRegistry J) (policy : PlanningPolicy)
    (start goal : RepresentationNode) (edges : Map RepresentationNode (List (AdapterSpec J)))
    (known : (node : RepresentationNode)
      → All (IsEdge registry policy start node) (edges_at node edges)) where
  arrived :
      (state : SearchState)
      → OnPath registry policy start state
      → (state.node == goal) ≡ true
      → IsGoalPath registry policy start goal state.adapter_ids
  arrived state on same = record {
    reached =
        subst (Reaches registry policy start state.adapter_ids) ((==_iff state.node goal).0 same)
          on.reached;
    within = subst (Within policy.max_hops) (sym on.counted) on.within;
  }

  module _ (state : SearchState) (search : Search) where
    visit-arrives :
        (state.node == goal) ≡ true
        → visit policy goal edges state search ≡ record search {
          best_goal = get_or_insert search.best_goal (state.score, state.hops, state.raw_cost);
          goal_paths = search.goal_paths ++ (state.adapter_ids ∷ []);
        }
    unfolding visit
    visit-arrives same = rw same

    visit-stops :
        (state.node == goal) ≡ false
        → is_spent policy.max_hops state.hops ≡ true
        → visit policy goal edges state search ≡ search
    unfolding visit
    visit-stops other spent = rw (other, spent)

    visit-moves :
        (state.node == goal) ≡ false
        → is_spent policy.max_hops state.hops ≡ false
        → visit policy goal edges state search
          ≡ try_edges policy state (edges_at state.node edges) search
    unfolding visit
    visit-moves other unspent = rw (other, unspent)

  visit-IsSearch :
      (state : SearchState) (search : Search)
      → OnPath registry policy start state
      → IsSearch registry policy start goal search
      → IsSearch registry policy start goal (visit policy goal edges state search)
  visit-IsSearch state search on s = elim (Bool-cases (state.node == goal)) [
    | inl same ↦
        subst (IsSearch registry policy start goal) (sym (visit-arrives state search same))
          (record {
            queued = s.queued;
            found =
                All-append (IsGoalPath registry policy start goal) search.goal_paths
                  (state.adapter_ids ∷ []) s.found (arrived state on same, tt);
          })
    | inr other ↦ elim (Bool-cases (is_spent policy.max_hops state.hops)) [
      | inl spent ↦
          subst (IsSearch registry policy start goal) (sym (visit-stops state search other spent)) s
      | inr unspent ↦
          subst (IsSearch registry policy start goal) (sym (visit-moves state search other unspent))
            (try_edges-IsSearch registry policy start state (edges_at state.node edges) search on
              unspent (known state.node) s)
    ]
  ]

  Holds : Round → Type 0
  Holds (stopped final) = IsSearch registry policy start goal final
  Holds (again next) = IsSearch registry policy start goal next

  round_choice :
      (b : Bool) (final next : Search)
      → IsSearch registry policy start goal final
      → IsSearch registry policy start goal next
      → Holds (if b then stopped final else again next)
  unfolding Holds
  round_choice true final next f n = f
  round_choice false final next f n = n

  pop_round-Holds :
      (heap : List SearchState) (search : Search)
      → All (OnPath registry policy start) heap
      → IsSearch registry policy start goal search
      → Holds (pop_round policy goal edges heap search)
  unfolding pop_round Holds
  pop_round-Holds [] search queued s = s
  pop_round-Holds (state ∷ heap) search queued s =
      let popped : IsSearch registry policy start goal (record search { heap = heap }) = record {
        queued = queued.1;
        found = s.found;
      } in
      round_choice (is_past state search.best_goal) (record search { heap = heap })
        (visit policy goal edges state (record search { heap = heap })) popped
        (visit-IsSearch state (record search { heap = heap }) queued.0 popped)

  module _ (fuel : ℕ) (search round : Search) where
    search_loop-stops :
        pop_round policy goal edges search.heap search ≡ stopped round
        → search_loop (suc fuel) policy goal edges search ≡ some round
    unfolding search_loop
    search_loop-stops stop = rw (stop, search_loop)

    search_loop-goes_on :
        pop_round policy goal edges search.heap search ≡ again round
        → search_loop (suc fuel) policy goal edges search ≡ search_loop fuel policy goal edges round
    unfolding search_loop
    search_loop-goes_on went = rw (went, search_loop)

  round_cases :
      (round : Round)
      → ((final : Search) × (round ≡ stopped final)) ⊎ ((next : Search) × (round ≡ again next))
  round_cases (stopped final) = inl (final, refl)
  round_cases (again next) = inr (next, refl)

  pub loop-IsSearch :
      (fuel : ℕ) (search final : Search)
      → IsSearch registry policy start goal search
      → search_loop fuel policy goal edges search ≡ some final
      → IsSearch registry policy start goal final
  unfolding search_loop Holds
  loop-IsSearch zero search final s ends = cc
  loop-IsSearch (suc fuel) search final s ends =
      let held = pop_round-Holds search.heap search s.queued s in
      elim (round_cases (pop_round policy goal edges search.heap search)) [
        | inl (found, stop) ↦
            let same : found ≡ final = cc (search_loop-stops fuel search found stop, ends) in
            subst (IsSearch registry policy start goal) same (subst Holds stop held)
        | inr (next, went) ↦
            loop-IsSearch fuel next final (subst Holds went held)
              (sym (search_loop-goes_on fuel search next went) ∙ ends)
      ]
