-- ===== src/Adapter/Reach.antt =====
-- What the search of `AdapterRegistry::find_path` has found: every state that it holds stands at the
-- end of a chain of allowed adapters of the registry.
use dag_ml_data.Adapter.Search.{
  try_edges, try_edge, cmp_state, is_allowed, is_lt, is_dominated, push, Search, arrive, next_state,
  SearchState, is_spent,
}
use dag_ml_data.Adapter.{
  target, source, AdapterSpec, RepresentationNode, PlanningPolicy, AdapterRegistry,
}
use dag_ml_data.Common.{
  is_some, ap, All-append, length-append, ℕ, ◌+◌, ◌≤◌, ◌≡◌, refl, sym, subst, ◌⊎◌, inl, inr, Bool,
  true, false, Option, none, some, List, [], ◌∷◌, ◌++◌, arith, if◌then◌else◌, Bool-cases, length,
  All,
}
use dag_ml_data.Order.{nat_ord, list_ord}
use dag_ml_data.Text.{Text}
use dag_ml_data.Collections.{contains_key, put, get, contains}
use dag_ml_data.Order.{pair_ord}

-- A chain of adapters from a node: no adapter twice, each of them registered and allowed, and each
-- starting where the one before it ends.
pub data Reaches {J : Type 0} (registry : AdapterRegistry J) (policy : PlanningPolicy)
    (start : RepresentationNode) : List Text → RepresentationNode → Type 0 where
  here : Reaches registry policy start [] start
  hop :
      {ids : List Text} {node : RepresentationNode} (adapter : AdapterSpec J)
      → Reaches registry policy start ids node
      → get adapter.id registry ≡ some adapter
      → is_allowed policy adapter ≡ true
      → source adapter ≡ node
      → contains adapter.id ids ≡ false
      → Reaches registry policy start (ids ++ (adapter.id ∷ [])) (target adapter)

-- `max_hops` is respected.
unfoldable pub Within : Option ℕ → ℕ → Type 0
Within none hops = Unit
Within (some max_hops) hops = hops ≤ max_hops

not_spent-Within :
    (max_hops : Option ℕ) (hops : ℕ) → is_spent max_hops hops ≡ false → Within max_hops (hops + 1)
unfolding is_spent Within
not_spent-Within none hops h = tt
not_spent-Within (some max_hops) hops h = ground arith

module _ {J : Type 0} (registry : AdapterRegistry J) (policy : PlanningPolicy)
    (start : RepresentationNode) where
  pub record OnPath (state : SearchState) : Type 0 where
    pub reached : Reaches registry policy start state.adapter_ids state.node
    pub counted : length state.adapter_ids ≡ state.hops
    pub within : Within policy.max_hops state.hops

  pub record IsGoalPath (goal : RepresentationNode) (ids : List Text) : Type 0 where
    pub reached : Reaches registry policy start ids goal
    pub within : Within policy.max_hops (length ids)

  pub record IsSearch (goal : RepresentationNode) (search : Search) : Type 0 where
    pub queued : All OnPath search.heap
    pub found : All (IsGoalPath goal) search.goal_paths

  unfoldable pub IsEdge : RepresentationNode → AdapterSpec J → Type 0
  IsEdge node adapter =
      (get adapter.id registry ≡ some adapter)
      × (is_allowed policy adapter ≡ true)
      × (source adapter ≡ node)

  push-OnPath :
      (state : SearchState) (heap : List SearchState)
      → OnPath state
      → All OnPath heap
      → All OnPath (push state heap)
  unfolding push
  push-OnPath state [] on queued = (on, tt)
  push-OnPath state (other ∷ heap) on queued = elim (Bool-cases (is_lt (cmp_state state other))) [
    | inl less ↦
        subst (λ b. All OnPath (if b then other ∷ push state heap else state ∷ other ∷ heap))
          (sym less) (queued.0, push-OnPath state heap on queued.1)
    | inr not_less ↦
        subst (λ b. All OnPath (if b then other ∷ push state heap else state ∷ other ∷ heap))
          (sym not_less) (on, queued)
  ]

  arrive-IsSearch :
      {goal : RepresentationNode} (next : SearchState) (search : Search)
      → OnPath next
      → IsSearch goal search
      → IsSearch goal (arrive next search)
  unfolding arrive
  arrive-IsSearch {goal} next search on s =
      choose (is_dominated next.score (get (next.node, next.hops) search.best_seen))
    where
      choose :
          (b : Bool)
          → IsSearch goal (
              if b then search else record search {
                heap = push next search.heap;
                best_seen = put (next.node, next.hops) next.score search.best_seen;
              })
      choose true = s
      choose false = record { queued = push-OnPath next search.heap on s.queued; found = s.found }

  next_state-shape :
      (state : SearchState) (adapter : AdapterSpec J) (next : SearchState)
      → next_state policy state adapter ≡ some next
      → (next.adapter_ids ≡ state.adapter_ids ++ (adapter.id ∷ []))
        × (next.node ≡ target adapter)
        × (next.hops ≡ state.hops + 1)
  unfolding next_state
  next_state-shape state adapter next moved = ground arith

  next_state-OnPath :
      (state : SearchState) (adapter : AdapterSpec J) (next : SearchState)
      → OnPath state
      → is_spent policy.max_hops state.hops ≡ false
      → IsEdge state.node adapter
      → contains adapter.id state.adapter_ids ≡ false
      → next_state policy state adapter ≡ some next
      → OnPath next
  unfolding IsEdge
  next_state-OnPath state adapter next on unspent edge fresh moved =
      let (ids, node, hops) = next_state-shape state adapter next moved in
      record {
        reached =
            subst (λ l. Reaches registry policy start l next.node) (sym ids)
              (subst (Reaches registry policy start (state.adapter_ids ++ (adapter.id ∷ [])))
                (sym node) (hop adapter on.reached edge.0 edge.1 edge.2 fresh));
        counted =
            let on_counted = on.counted in
            ground (arith, ids, hops, length-append state.adapter_ids (adapter.id ∷ []));
        within =
            subst (Within policy.max_hops) (sym hops)
              (not_spent-Within policy.max_hops state.hops unspent);
      }

  option-cases : (o : Option SearchState) → (o ≡ none) ⊎ ((next : SearchState) × (o ≡ some next))
  option-cases none = inl refl
  option-cases (some next) = inr (next, refl)

  module _ (state : SearchState) (adapter : AdapterSpec J) (search : Search) where
    try_edge-skips :
        contains adapter.id state.adapter_ids ≡ true → try_edge policy state adapter search ≡ search
    unfolding try_edge
    try_edge-skips used = rw used

    try_edge-overflows :
        contains adapter.id state.adapter_ids ≡ false
        → next_state policy state adapter ≡ none
        → try_edge policy state adapter search ≡ record search { cost_overflow = true }
    unfolding try_edge
    try_edge-overflows fresh stuck = rw (fresh, stuck)

    try_edge-arrives :
        (next : SearchState)
        → contains adapter.id state.adapter_ids ≡ false
        → next_state policy state adapter ≡ some next
        → try_edge policy state adapter search ≡ arrive next search
    unfolding try_edge
    try_edge-arrives next fresh moved = rw (fresh, moved)

  try_edge-IsSearch :
      {goal : RepresentationNode} (state : SearchState) (adapter : AdapterSpec J) (search : Search)
      → OnPath state
      → is_spent policy.max_hops state.hops ≡ false
      → IsEdge state.node adapter
      → IsSearch goal search
      → IsSearch goal (try_edge policy state adapter search)
  try_edge-IsSearch {goal} state adapter search on unspent edge s =
      elim (Bool-cases (contains adapter.id state.adapter_ids)) [
        | inl used ↦ subst (IsSearch goal) (sym (try_edge-skips state adapter search used)) s
        | inr fresh ↦ elim (option-cases (next_state policy state adapter)) [
          | inl stuck ↦
              subst (IsSearch goal) (sym (try_edge-overflows state adapter search fresh stuck))
                (record { queued = s.queued; found = s.found })
          | inr (next, moved) ↦
              subst (IsSearch goal) (sym (try_edge-arrives state adapter search next fresh moved)) (
                arrive-IsSearch next search
                  (next_state-OnPath state adapter next on unspent edge fresh moved) s)
        ]
      ]

  pub try_edges-IsSearch :
      {goal : RepresentationNode} (state : SearchState) (edges : List (AdapterSpec J))
      (search : Search)
      → OnPath state
      → is_spent policy.max_hops state.hops ≡ false
      → All (IsEdge state.node) edges
      → IsSearch goal search
      → IsSearch goal (try_edges policy state edges search)
  unfolding try_edges
  try_edges-IsSearch state [] search on unspent known s = s
  try_edges-IsSearch state (adapter ∷ edges) search on unspent known s =
      try_edges-IsSearch state edges (try_edge policy state adapter search) on unspent known.1
        (try_edge-IsSearch state adapter search on unspent known.0 s)

  -- The adapters of a chain are registered.
  pub Reaches-known :
      {ids : List Text} {node : RepresentationNode}
      → Reaches registry policy start ids node
      → All (λ id. contains_key id registry ≡ true) ids
  Reaches-known here = tt
  Reaches-known (hop {ids} adapter path found allowed from fresh) =
      All-append (λ id. contains_key id registry ≡ true) ids (adapter.id ∷ []) (Reaches-known path)
        (ap is_some found, tt)
