-- ===== src/Adapter/Register.antt =====
-- crates/dag-ml-data-core/src/adapter.rs: which lists of adapters `AdapterRegistry::from_spec` accepts.
use dag_ml_data.Adapter.Fuel.{registered_ids}
use dag_ml_data.Adapter.Registry.{register_adapter-parts}
use dag_ml_data.Adapter.{
  from_spec, validate_adapter, register_adapter, AdapterSpec, AdapterRegistry, register_all,
}
use dag_ml_data.Common.{◌≡◌, refl, subst, ◌↔◌, false, none, List, [], ◌∷◌, arith, All}
use dag_ml_data.Order.{==_iff, nat_ord, list_ord}
use dag_ml_data.Collections.{put, get, get-put, contains, Distinct}
use dag_ml_data.Error.{ok, done, >>=-eq-ok}

module _ {J : Type 0} where
  registers :
      (registry : AdapterRegistry J) (adapter : AdapterSpec J)
      → validate_adapter adapter ≡ done
      → get adapter.id registry ≡ none
      → register_adapter registry adapter ≡ ok (put adapter.id adapter registry)
  unfolding register_adapter
  registers registry adapter valid absent = rw (valid, absent)

  stays_absent :
      (registry : AdapterRegistry J) (adapter : AdapterSpec J) (adapters : List (AdapterSpec J))
      → contains adapter.id (registered_ids adapters) ≡ false
      → All (λ other. get other.id registry ≡ none) adapters
      → All (λ other. get other.id (put adapter.id adapter registry) ≡ none) adapters
  unfolding registered_ids
  stays_absent registry adapter [] fresh absent = tt
  stays_absent registry adapter (other ∷ adapters) fresh absent =
      let others = stays_absent registry adapter adapters in
      let here = absent.0 in
      (
        ground (
          arith,
          get-put other.id adapter.id adapter registry,
          ==_iff other.id adapter.id,
          ==_iff adapter.id other.id,
        ),
        others (ground arith) absent.1,
      )

  register_all_complete :
      (registry : AdapterRegistry J) (adapters : List (AdapterSpec J))
      → All (λ adapter. validate_adapter adapter ≡ done) adapters
      → All (λ adapter. get adapter.id registry ≡ none) adapters
      → Distinct (registered_ids adapters)
      → (final : AdapterRegistry J) × (register_all registry adapters ≡ ok final)
  unfolding register_all registered_ids
  register_all_complete registry [] valid absent distinct = (registry, refl)
  register_all_complete registry (adapter ∷ adapters) valid absent distinct =
      let (final, accepted) =
        register_all_complete (put adapter.id adapter registry) adapters valid.1
          (stays_absent registry adapter adapters distinct.0 absent.1) distinct.1 in
      (final, rw (registers registry adapter valid.0 absent.0, accepted))

  was_absent :
      (registry : AdapterRegistry J) (adapter : AdapterSpec J) (adapters : List (AdapterSpec J))
      → All (λ other. get other.id (put adapter.id adapter registry) ≡ none) adapters
      → (contains adapter.id (registered_ids adapters) ≡ false)
        × All (λ other. get other.id registry ≡ none) adapters
  unfolding registered_ids
  was_absent registry adapter [] absent = (refl, tt)
  was_absent registry adapter (other ∷ adapters) absent =
      let (fresh, others) = was_absent registry adapter adapters absent.1 in
      let here = absent.0 in
      let looked_up = get-put other.id adapter.id adapter registry in
      (
        ground (arith, ==_iff other.id adapter.id, ==_iff adapter.id other.id),
        (ground (arith, ==_iff other.id adapter.id), others),
      )

  register_all_parts :
      (registry final : AdapterRegistry J) (adapters : List (AdapterSpec J))
      → register_all registry adapters ≡ ok final
      → All (λ adapter. validate_adapter adapter ≡ done) adapters
        × All (λ adapter. get adapter.id registry ≡ none) adapters
        × Distinct (registered_ids adapters)
  unfolding register_all registered_ids
  register_all_parts registry final [] accepted = (tt, tt, tt)
  register_all_parts registry final (adapter ∷ adapters) accepted =
      let (registry', registered, rest) =
        >>=-eq-ok (register_adapter registry adapter) (λ next. register_all next adapters)
          accepted in
      let (valid, absent, same) = register_adapter-parts registry registry' adapter registered in
      let (all_valid, all_absent, distinct) = register_all_parts registry' final adapters rest in
      let (fresh, others) =
        was_absent registry adapter adapters
          (subst (λ m. All (λ other. get other.id m ≡ none) adapters) same all_absent) in
      ((valid, all_valid), (absent, others), (fresh, distinct))

  empty_registry : AdapterRegistry J
  empty_registry = []

  nothing_registered :
      (adapters : List (AdapterSpec J))
      → All (λ adapter. get adapter.id (empty_registry) ≡ none) adapters
  unfolding get empty_registry
  nothing_registered [] = tt
  nothing_registered (adapter ∷ adapters) = (refl, nothing_registered adapters)

  -- `AdapterRegistry::from_spec` accepts a list of adapters exactly when each of them is valid and no two
  -- have one id.
  pub from_spec_iff :
      (adapters : List (AdapterSpec J))
      → ((registry : AdapterRegistry J) × (from_spec adapters ≡ ok registry)) ↔ (
          All (λ adapter. validate_adapter adapter ≡ done) adapters
          × Distinct (registered_ids adapters))
  unfolding from_spec empty_registry
  from_spec_iff adapters = (
    λ h.
        let (valid, absent, distinct) = register_all_parts [] h.0 adapters h.1 in (valid, distinct),
    λ h. register_all_complete [] adapters h.0 (nothing_registered adapters) h.1,
  )
