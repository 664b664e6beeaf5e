-- ===== src/Adapter/Registry.antt =====
-- crates/dag-ml-data-core/src/adapter.rs: what a registry holds that `register_adapter` built.
use dag_ml_data.Adapter.{
  from_spec, validate_adapter, AdapterRegistry, register_adapter, register_all, AdapterSpec,
}
use dag_ml_data.Common.{All-map, ◌≡◌, sym, subst, none, some, List, [], ◌∷◌, arith, All}
use dag_ml_data.Order.{==_iff, ==_refl, nat_ord, list_ord}
use dag_ml_data.Text.{Text}
use dag_ml_data.Collections.{put-All, values, put, get, get-put}
use dag_ml_data.Error.{ok, done, >>=-eq-ok}

pub record IsRegistry {J : Type 0} (registry : AdapterRegistry J) : Type 0 where
  pub keyed :
      (id : Text) (adapter : AdapterSpec J)
      → get id registry ≡ some adapter
      → (adapter.id ≡ id) × (validate_adapter adapter ≡ done)
  pub listed : All (λ adapter. get adapter.id registry ≡ some adapter) (values registry)

module _ {J : Type 0} where
  pub register_adapter-parts :
      (registry registry' : AdapterRegistry J) (adapter : AdapterSpec J)
      → register_adapter registry adapter ≡ ok registry'
      → (validate_adapter adapter ≡ done)
        × (get adapter.id registry ≡ none)
        × (registry' ≡ put adapter.id adapter registry)
  unfolding register_adapter
  register_adapter-parts registry registry' adapter accepted = ground arith

  -- A registered adapter is found under its id, and the others stay as they were.
  kept :
      (registry : AdapterRegistry J) (adapter other : AdapterSpec J)
      → get adapter.id registry ≡ none
      → get other.id registry ≡ some other
      → get other.id (put adapter.id adapter registry) ≡ some other
  kept registry adapter other absent found =
      ground (arith, get-put other.id adapter.id adapter registry, ==_iff other.id adapter.id)

  get_new :
      (registry : AdapterRegistry J) (adapter : AdapterSpec J)
      → get adapter.id (put adapter.id adapter registry) ≡ some adapter
  get_new registry adapter =
      ground (arith, get-put adapter.id adapter.id adapter registry, ==_refl adapter.id)

  put-IsRegistry :
      (registry : AdapterRegistry J) (adapter : AdapterSpec J)
      → validate_adapter adapter ≡ done
      → get adapter.id registry ≡ none
      → IsRegistry registry
      → IsRegistry (put adapter.id adapter registry)
  put-IsRegistry registry adapter valid absent r = record {
    keyed = λ id spec found.
        let old = r.keyed id spec in
        ground (arith, get-put id adapter.id adapter registry, ==_iff id adapter.id);
    listed =
        put-All (λ spec. get spec.id (put adapter.id adapter registry) ≡ some spec) adapter.id
          adapter registry (get_new registry adapter)
          (All-map (λ spec found. kept registry adapter spec absent found) (values registry)
            r.listed);
  }

  register_all-IsRegistry :
      (registry final : AdapterRegistry J) (adapters : List (AdapterSpec J))
      → IsRegistry registry
      → register_all registry adapters ≡ ok final
      → IsRegistry final
        × All (λ adapter. get adapter.id final ≡ some adapter) adapters
        × ((adapter : AdapterSpec J)
            → get adapter.id registry ≡ some adapter
            → get adapter.id final ≡ some adapter)
  unfolding register_all
  register_all-IsRegistry registry final [] r accepted =
      let same : registry ≡ final = cc in
      (
        subst IsRegistry same r,
        tt,
        λ adapter found. subst (λ m. get adapter.id m ≡ some adapter) same found,
      )
  register_all-IsRegistry registry final (adapter ∷ adapters) r accepted =
      let (registry', registered, rest) =
        >>=-eq-ok (register_adapter registry adapter) (λ next. register_all next adapters)
          accepted in
      let (valid, absent, same) = register_adapter-parts registry registry' adapter registered in
      let r' = subst IsRegistry (sym same) (put-IsRegistry registry adapter valid absent r) in
      let (final_r, all_found, stays) = register_all-IsRegistry registry' final adapters r' rest in
      let new =
        subst (λ m. get adapter.id m ≡ some adapter) (sym same) (get_new registry adapter) in
      (
        final_r,
        (stays adapter new, all_found),
        λ other found. stays other (
            subst (λ m. get other.id m ≡ some other) (sym same)
              (kept registry adapter other absent found)),
      )

  empty-IsRegistry : IsRegistry {J = J} []
  unfolding get
  empty-IsRegistry = record { keyed = λ id adapter found. cc; listed = tt }

  -- The registry that `AdapterRegistry::from_spec` makes of a list of adapters holds each of them under
  -- its id, and nothing but valid adapters, each under its own id.
  pub from_spec_sound :
      (adapters : List (AdapterSpec J)) (registry : AdapterRegistry J)
      → from_spec adapters ≡ ok registry
      → IsRegistry registry × All (λ adapter. get adapter.id registry ≡ some adapter) adapters
  unfolding from_spec
  from_spec_sound adapters registry accepted =
      let (r, all_found, stays) =
        register_all-IsRegistry [] registry adapters empty-IsRegistry accepted in
      (r, all_found)
