-- ===== src/Adapter/Terminates.antt =====
-- The loop of `AdapterRegistry::find_path` ends, and the fuel of the model is enough for it.
use dag_ml_data.Adapter.Edges.{collect_edges-length, collect_edges-All}
use dag_ml_data.Adapter.Fuel.{
  unused-bound, registered_ids, weight_step, weight-allowance, try_edges-load, unused, room, load,
  mul_mono,
}
use dag_ml_data.Adapter.Search.{
  start_search, again, weight, stopped, SearchState, Search, edges_at, collect_edges, search_loop,
  visit, pop_round, Round,
}
use dag_ml_data.Adapter.{PlanningPolicy, RepresentationNode, AdapterSpec}
use dag_ml_data.Common.{
  All-map, ℕ, zero, suc, ◌+◌, ◌*◌, ◌≤◌, ◌<◌, ◌≡◌, refl, ◌⊎◌, inl, inr, true, some, List, [], ◌∷◌,
  arith, length, All,
}
use dag_ml_data.Order.{nat_ord, list_ord}
use dag_ml_data.Collections.{contains_tail, contains_head, Map, get, contains}
use dag_ml_data.Order.{pair_ord}

self_known :
    {J : Type 0} (adapters : List (AdapterSpec J))
    → All (λ adapter. contains adapter.id (registered_ids adapters) ≡ true) adapters
unfolding registered_ids
self_known [] = tt
self_known (adapter ∷ adapters) = (
  contains_head adapter.id (registered_ids adapters),
  All-map (λ other known. contains_tail other.id adapter.id (registered_ids adapters) known)
      adapters (self_known adapters),
)

weight_mono : (n j k : ℕ) → j ≤ k → weight n j ≤ weight n k
weight_mono n j zero h = ground arith
weight_mono n j (suc k) h = ground (arith, weight_step n k, weight_mono n j k)

module _ {J : Type 0} (adapters : List (AdapterSpec J)) where
  record IsEdges (edges : Map RepresentationNode (List (AdapterSpec J))) : Type 0 where
    known :
        (node : RepresentationNode)
        → All
            (λ adapter. contains adapter.id (registered_ids adapters) ≡ true)
            (edges_at node edges)
    few : (node : RepresentationNode) → length (edges_at node edges) ≤ length adapters

  room-few : (n m r : ℕ) → n ≤ m → n * r ≤ m * r
  room-few n m r h = omega (arith, mul_mono r n m h)

  visit-load :
      (policy : PlanningPolicy) (goal : RepresentationNode)
      (edges : Map RepresentationNode (List (AdapterSpec J))) (state : SearchState)
      (search : Search)
      → IsEdges edges
      → load adapters (visit policy goal edges state search).heap
        < weight (length adapters) (unused state.adapter_ids adapters) + load adapters search.heap
  unfolding visit room
  visit-load policy goal edges state search e = ground (
    arith,
    try_edges-load adapters policy state (edges_at state.node edges) search (e.known state.node),
    room-few (length (edges_at state.node edges)) (length adapters) (room adapters state)
        (e.few state.node),
    weight-allowance (length adapters) (unused state.adapter_ids adapters),
  )

  pop_round-load :
      (policy : PlanningPolicy) (goal : RepresentationNode)
      (edges : Map RepresentationNode (List (AdapterSpec J))) (heap : List SearchState)
      (search next : Search)
      → IsEdges edges
      → pop_round policy goal edges heap search ≡ again next
      → load adapters next.heap < load adapters heap
  unfolding pop_round load
  pop_round-load policy goal edges [] search next e went = cc
  pop_round-load policy goal edges (state ∷ heap) search next e went =
      ground (arith, visit-load policy goal edges state (record search { heap = heap }) e)

  round-cases :
      (round : Round)
      → ((final : Search) × (round ≡ stopped final)) ⊎ ((next : Search) × (round ≡ again next))
  round-cases (stopped final) = inl (final, refl)
  round-cases (again next) = inr (next, refl)

  loop-ends :
      (fuel : ℕ) (policy : PlanningPolicy) (goal : RepresentationNode)
      (edges : Map RepresentationNode (List (AdapterSpec J))) (search : Search)
      → IsEdges edges
      → load adapters search.heap < fuel
      → (final : Search) × (search_loop fuel policy goal edges search ≡ some final)
  unfolding search_loop
  loop-ends zero policy goal edges search e h =
      let impossible : ⊥ = omega arith in elim impossible [ ]
  loop-ends (suc fuel) policy goal edges search e h =
      elim (round-cases (pop_round policy goal edges search.heap search)) [
        | inl (final, stop) ↦ (final, rw (stop, search_loop))
        | inr (next, went) ↦
            let less = pop_round-load policy goal edges search.heap search next e went in
            let (final, ends) = loop-ends fuel policy goal edges next e (omega arith) in
            (final, rw (went, ends, search_loop))
      ]

  collected : (policy : PlanningPolicy) → IsEdges (collect_edges policy [] adapters)
  unfolding edges_at get
  collected policy = record {
    known =
        collect_edges-All (λ node adapter. contains adapter.id (registered_ids adapters) ≡ true)
          policy [] adapters (λ node. tt)
          (All-map (λ adapter known allowed. known) adapters (self_known adapters));
    few = λ node. omega (arith, collect_edges-length policy [] adapters node);
  }

  start_load :
      (start : RepresentationNode)
      → load adapters (start_search start).heap < suc (weight (length adapters) (length adapters))
  unfolding load start_search
  start_load start = omega (
    arith,
    weight_mono (length adapters) (unused [] adapters) (length adapters) (unused-bound [] adapters),
  )

  -- The search of `find_path` ends: it is never `none` for want of fuel.
  pub search_ends :
      (policy : PlanningPolicy) (start goal : RepresentationNode)
      → (final : Search) × (search_loop
            (suc (weight (length adapters) (length adapters)))
            policy
            goal
            (collect_edges policy [] adapters)
            (start_search start)
          ≡ some final)
  search_ends policy start goal =
      loop-ends (suc (weight (length adapters) (length adapters))) policy goal
        (collect_edges policy [] adapters) (start_search start) (collected policy)
        (start_load start)
