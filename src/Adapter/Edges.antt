-- ===== src/Adapter/Edges.antt =====
-- The edges that `AdapterRegistry::find_path` collects: what holds of every adapter of the registry
-- that the policy allows holds of every edge, at its source.
use dag_ml_data.Adapter.Search.{is_allowed, add_edge, collect_edges, edges_at}
use dag_ml_data.Adapter.{source, PlanningPolicy, AdapterSpec, RepresentationNode}
use dag_ml_data.Common.{
  All-append, length-append, suc, ◌+◌, ◌≤◌, ◌≡◌, sym, subst, inl, inr, true, List, [], ◌∷◌, ◌++◌,
  arith, if◌then◌else◌, Bool-cases, length, All,
}
use dag_ml_data.Order.{◌==◌, ==_iff, nat_ord, list_ord}
use dag_ml_data.Collections.{Map, get-put}
use dag_ml_data.Order.{pair_ord}

module _ {J : Type 0} where
  pub edges_at-add_edge :
      (node : RepresentationNode) (adapter : AdapterSpec J)
      (edges : Map RepresentationNode (List (AdapterSpec J)))
      → edges_at node (add_edge adapter edges) ≡ (
          if node == source adapter
          then edges_at (source adapter) edges ++ (adapter ∷ [])
          else edges_at node edges)
  unfolding edges_at add_edge
  edges_at-add_edge node adapter edges = ground (
    arith,
    get-put node (source adapter) (edges_at (source adapter) edges ++ (adapter ∷ [])) edges,
  )

  add_edge-All {ℓ} :
      (P : RepresentationNode → AdapterSpec J → Type ℓ) (adapter : AdapterSpec J)
      (edges : Map RepresentationNode (List (AdapterSpec J)))
      → ((node : RepresentationNode) → All (P node) (edges_at node edges))
      → P (source adapter) adapter
      → (node : RepresentationNode) → All (P node) (edges_at node (add_edge adapter edges))
  add_edge-All P adapter edges held holds node = elim (Bool-cases (node == source adapter)) [
    | inl same ↦
        subst (λ l. All (P node) l) (sym (rw (edges_at-add_edge node adapter edges, same)))
          (subst (λ n. All (P n) (edges_at (source adapter) edges ++ (adapter ∷ [])))
            (sym ((==_iff node (source adapter)).0 same))
            (All-append (P (source adapter)) (edges_at (source adapter) edges) (adapter ∷ [])
              (held (source adapter)) (holds, tt)))
    | inr other ↦
        subst (λ l. All (P node) l) (sym (rw (edges_at-add_edge node adapter edges, other)))
          (held node)
  ]

  pub collect_edges-All {ℓ} :
      (P : RepresentationNode → AdapterSpec J → Type ℓ) (policy : PlanningPolicy)
      (edges : Map RepresentationNode (List (AdapterSpec J))) (adapters : List (AdapterSpec J))
      → ((node : RepresentationNode) → All (P node) (edges_at node edges))
      → All (λ adapter. is_allowed policy adapter ≡ true → P (source adapter) adapter) adapters
      → (node : RepresentationNode)
      → All (P node) (edges_at node (collect_edges policy edges adapters))
  unfolding collect_edges
  collect_edges-All P policy edges [] held holds node = held node
  collect_edges-All P policy edges (adapter ∷ adapters) held holds node =
      elim (Bool-cases (is_allowed policy adapter)) [
        | inl allowed ↦
            subst
              (λ b. All (P node) (
                edges_at node
                  (collect_edges policy (if b then add_edge adapter edges else edges) adapters)))
              (sym allowed)
              (collect_edges-All P policy (add_edge adapter edges) adapters
                (add_edge-All P adapter edges held (holds.0 allowed)) holds.1 node)
        | inr refused ↦
            subst
              (λ b. All (P node) (
                edges_at node
                  (collect_edges policy (if b then add_edge adapter edges else edges) adapters)))
              (sym refused) (collect_edges-All P policy edges adapters held holds.1 node)
      ]

  pub add_edge-length :
      (adapter : AdapterSpec J) (edges : Map RepresentationNode (List (AdapterSpec J)))
      (node : RepresentationNode)
      → length (edges_at node (add_edge adapter edges)) ≤ suc (length (edges_at node edges))
  add_edge-length adapter edges node = ground (
    arith,
    edges_at-add_edge node adapter edges,
    ==_iff node (source adapter),
    length-append (edges_at (source adapter) edges) (adapter ∷ []),
  )

  pub collect_edges-length :
      (policy : PlanningPolicy) (edges : Map RepresentationNode (List (AdapterSpec J)))
      (adapters : List (AdapterSpec J)) (node : RepresentationNode)
      → length (edges_at node (collect_edges policy edges adapters))
        ≤ length (edges_at node edges) + length adapters
  unfolding collect_edges
  collect_edges-length policy edges [] node = omega arith
  collect_edges-length policy edges (adapter ∷ adapters) node = ground (
    arith,
    collect_edges-length policy edges adapters node,
    collect_edges-length policy (add_edge adapter edges) adapters node,
    add_edge-length adapter edges node,
  )
