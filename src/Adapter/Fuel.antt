-- ===== src/Adapter/Fuel.antt =====
-- The fuel of the search of `AdapterRegistry::find_path` is enough: a popped state has more weight
-- than all the states that its visit pushes, since each of them has an adapter more.
use dag_ml_data.Adapter.Search.{
  Search, try_edge, arrive, next_state, try_edges, push, SearchState, weight,
}
use dag_ml_data.Adapter.{PlanningPolicy, AdapterSpec}
use dag_ml_data.Common.{
  Bool-cases, inr, inl, ◌⊎◌, none, Option, some, All, refl, ℕ, zero, suc, ◌+◌, ◌*◌, ◌≤◌, ◌<◌, ◌≡◌,
  true, false, List, [], ◌∷◌, ◌++◌, arith, if◌then◌else◌, length,
}
use dag_ml_data.Order.{==_iff, ==_refl, nat_ord, list_ord}
use dag_ml_data.Text.{Text}
use dag_ml_data.Collections.{contains-append, contains}
use dag_ml_data.Order.{pair_ord}

pub mul_mono : (n a b : ℕ) → a ≤ b → n * a ≤ n * b
mul_mono zero a b h = omega arith
mul_mono (suc n) a b h = omega (arith, mul_mono n a b h)

-- What one push may weigh.
unfoldable pub allowance : ℕ → ℕ → ℕ
allowance n zero = 0
allowance n (suc k) = weight n k

pub weight-allowance : (n k : ℕ) → weight n k ≡ 1 + n * allowance n k
unfolding weight allowance
weight-allowance n zero = omega arith
weight-allowance n (suc k) = omega arith

pub weight_step : (n k : ℕ) → weight n k ≤ weight n (suc k)
unfolding weight
weight_step n zero = omega arith
weight_step n (suc k) = omega (arith, mul_mono n (weight n k) (weight n (suc k)) (weight_step n k))

allowance-weight : (n k j : ℕ) → j < k → weight n j ≤ allowance n k
unfolding allowance
allowance-weight n zero j h = omega arith
allowance-weight n (suc k) j h = below n k j (omega arith)
  where
    below : (n k j : ℕ) → j ≤ k → weight n j ≤ weight n k
    below n zero j h = ground arith
    below n (suc k) j h = ground (arith, weight_step n k, below n k j)

module _ {J : Type 0} where
  -- The adapters whose id is not among the ids.
  unfoldable pub unused : List Text → List (AdapterSpec J) → ℕ
  unused ids [] = 0
  unused ids (adapter ∷ adapters) =
      let rest = unused ids adapters in if contains adapter.id ids then rest else suc rest

  unfoldable pub registered_ids : List (AdapterSpec J) → List Text
  registered_ids [] = []
  registered_ids (adapter ∷ adapters) = adapter.id ∷ registered_ids adapters

  pub unused-bound :
      (ids : List Text) (adapters : List (AdapterSpec J)) → unused ids adapters ≤ length adapters
  unfolding unused
  unused-bound ids [] = omega arith
  unused-bound ids (adapter ∷ adapters) = ground (arith, unused-bound ids adapters)

  unused-snoc :
      (ids : List Text) (id : Text) (adapters : List (AdapterSpec J))
      → unused (ids ++ (id ∷ [])) adapters ≤ unused ids adapters
  unfolding unused
  unused-snoc ids id [] = omega arith
  unused-snoc ids id (adapter ∷ adapters) =
      ground (arith, unused-snoc ids id adapters, contains-append adapter.id ids (id ∷ []))

  unused-step :
      (ids : List Text) (id : Text) (adapters : List (AdapterSpec J))
      → contains id (registered_ids adapters) ≡ true
      → contains id ids ≡ false
      → unused (ids ++ (id ∷ [])) adapters < unused ids adapters
  unfolding unused registered_ids
  unused-step ids id [] known fresh = cc
  unused-step ids id (adapter ∷ adapters) known fresh = ground (
    arith,
    unused-step ids id adapters,
    unused-snoc ids id adapters,
    contains-append adapter.id ids (id ∷ []),
    ==_iff id adapter.id,
    ==_refl id,
  )

  unfoldable pub load : List (AdapterSpec J) → List SearchState → ℕ
  load adapters [] = 0
  load adapters (state ∷ heap) =
      weight (length adapters) (unused state.adapter_ids adapters) + load adapters heap

  load-push :
      (adapters : List (AdapterSpec J)) (state : SearchState) (heap : List SearchState)
      → load adapters (push state heap) ≡ load adapters (state ∷ heap)
  unfolding push load
  load-push adapters state [] = refl
  load-push adapters state (other ∷ heap) = ground (arith, load-push adapters state heap)

  unfoldable pub room : List (AdapterSpec J) → SearchState → ℕ
  room adapters state = allowance (length adapters) (unused state.adapter_ids adapters)

  next_state-ids :
      (policy : PlanningPolicy) (state : SearchState) (adapter : AdapterSpec J) (next : SearchState)
      → next_state policy state adapter ≡ some next
      → next.adapter_ids ≡ state.adapter_ids ++ (adapter.id ∷ [])
  unfolding next_state
  next_state-ids policy state adapter next found = ground arith

  arrive-load :
      (adapters : List (AdapterSpec J)) (next : SearchState) (search : Search)
      → load adapters (arrive next search).heap
        ≤ weight (length adapters) (unused next.adapter_ids adapters) + load adapters search.heap
  unfolding arrive load
  arrive-load adapters next search = ground (arith, load-push adapters next search.heap)

  try_edge-load :
      (adapters : List (AdapterSpec J)) (policy : PlanningPolicy) (state : SearchState)
      (adapter : AdapterSpec J) (search : Search)
      → contains adapter.id (registered_ids adapters) ≡ true
      → load adapters (try_edge policy state adapter search).heap
        ≤ room adapters state + load adapters search.heap
  unfolding try_edge room
  try_edge-load adapters policy state adapter search known =
      elim (Bool-cases (contains adapter.id state.adapter_ids)) [
        | inl used ↦ ground arith
        | inr fresh ↦ elim (next_state-cases (next_state policy state adapter)) [
          | inl stuck ↦ ground arith
          | inr (next, found) ↦
              let below = unused-step state.adapter_ids adapter.id adapters known fresh in
              let ids = next_state-ids policy state adapter next found in
              ground (
                arith,
                arrive-load adapters next search,
                allowance-weight (length adapters) (unused state.adapter_ids adapters)
                    (unused (state.adapter_ids ++ (adapter.id ∷ [])) adapters) below,
              )
        ]
      ]
    where
      next_state-cases :
          (o : Option SearchState) → (o ≡ none) ⊎ ((next : SearchState) × (o ≡ some next))
      next_state-cases none = inl refl
      next_state-cases (some next) = inr (next, refl)

  pub try_edges-load :
      (adapters : List (AdapterSpec J)) (policy : PlanningPolicy) (state : SearchState)
      (edges : List (AdapterSpec J)) (search : Search)
      → All (λ adapter. contains adapter.id (registered_ids adapters) ≡ true) edges
      → load adapters (try_edges policy state edges search).heap
        ≤ length edges * room adapters state + load adapters search.heap
  unfolding try_edges
  try_edges-load adapters policy state [] search known = omega arith
  try_edges-load adapters policy state (adapter ∷ edges) search known = omega (
    arith,
    try_edge-load adapters policy state adapter search known.0,
    try_edges-load adapters policy state edges (try_edge policy state adapter search) known.1,
  )
