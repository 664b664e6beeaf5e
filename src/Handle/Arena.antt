-- ===== src/Handle/Arena.antt =====
-- crates/dag-ml-data-core/src/handle.rs: the arena that owns the handles. A method that changes the
-- arena returns the new one; it changes nothing before its last check has passed.
use dag_ml_data.Common.{
  ◌%◌, ℕ, ◌+◌, ◌^◌, ◌⊎◌, Bool, true, false, not, ◌&&◌, Option, none, some, List, [], ◌∷◌, nat_eq,
  if◌then◌else◌, length, all, filter,
}
use dag_ml_data.Order.{◌==◌, nat_ord, list_ord}
use dag_ml_data.Text.{Text, text, decimal}
use dag_ml_data.Collections.{Map, key, values, put, get, contains_key, remove}
use dag_ml_data.Error.{DataError, validation, Result, ok, ◌>>=◌, ◌>>◌, refuse, ok_or}
use dag_ml_data.Order.{pair_ord}
use dag_ml_data.Relation.Folds.{quote}
use dag_ml_data.Order.{option_ord}
use dag_ml_data.Error.{transpose, unknown_handle}
use dag_ml_data.Json.{Json, as_str}
use dag_ml_data.Float.{Float}
use dag_ml_data.Coordinator.Relations.{CoordinatorRelation, CoordinatorRelationSet}
use dag_ml_data.Coordinator.Branches.{NativeBranchViewFilter}
use dag_ml_data.Coordinator.Envelope.{CoordinatorDataPlanEnvelope, Codecs, validate_envelope}
use dag_ml_data.Handle.Requests.{
  CoordinatorHandleKind, data_handle, view_handle, CoordinatorHandleRef,
  CoordinatorDataHandleRecord, CoordinatorDataViewRecord, CoordinatorDataMaterializationRequest,
  DataView, validate_non_empty, validate_request, validate_request_against_envelope,
  materialization_relations, scoped_relations_for_materialization,
}
use dag_ml_data.Handle.Views.{
  validate_view, resolved_view_labels, filter_relations, unique_sample_count,
}

pub record CoordinatorHandleArena (J F : Type 0) : Type 0 where
  pub owner_controller : Text
  pub next_handle : ℕ
  pub records : Map ℕ CoordinatorDataHandleRecord
  pub data_relations : Map ℕ (CoordinatorRelationSet J F)
  pub view_records : Map ℕ (CoordinatorDataViewRecord J)
  pub view_relations : Map ℕ (CoordinatorRelationSet J F)

abbrev pub same_handle_kind : CoordinatorHandleKind → CoordinatorHandleKind → Bool
same_handle_kind data_handle data_handle = true
same_handle_kind view_handle view_handle = true
same_handle_kind _ _ = false

-- The derived equality of handles.
unfoldable pub same_handle : CoordinatorHandleRef → CoordinatorHandleRef → Bool
same_handle a b =
    nat_eq a.handle b.handle
    && same_handle_kind a.kind b.kind
    && a.owner_controller == b.owner_controller

-- The counter after `next_handle`, a u64 that wraps.
abbrev pub after_handle : ℕ → ℕ
after_handle handle = (handle + 1) % 2 ^ 64

abbrev pub no_relations : ℕ → DataError
no_relations handle =
    validation (quote "data handle `" (decimal handle) "` has no coordinator relations")

-- The views of a data handle.
unfoldable pub child_views :
    {J : Type 0} → CoordinatorHandleRef → Map ℕ (CoordinatorDataViewRecord J) → List ℕ
unfolding same_handle
child_views parent [] = []
child_views parent ((handle, view) ∷ views) =
    let rest = child_views parent views in
    if same_handle view.parent_handle parent then handle ∷ rest else rest

unfoldable pub remove_all {ℓ} : {V : Type ℓ} → List ℕ → Map ℕ V → Map ℕ V
remove_all [] entries = entries
remove_all (handle ∷ handles) entries = remove_all handles (remove handle entries)

module _ {J F : Type 0} where
  -- `CoordinatorHandleArena::new`.
  unfoldable pub new_arena : Text → Result (CoordinatorHandleArena J F)
  new_arena owner_controller = do
    validate_non_empty (text "owner_controller") owner_controller
    ok (record {
      owner_controller = owner_controller;
      next_handle = 1;
      records = [];
      data_relations = [];
      view_records = [];
      view_relations = [];
    })

  abbrev pub handle_ref : CoordinatorHandleArena J F → CoordinatorHandleKind → CoordinatorHandleRef
  handle_ref arena kind = record {
    handle = arena.next_handle;
    kind = kind;
    owner_controller = arena.owner_controller;
  }

  unfoldable pub count_samples : Option (CoordinatorRelationSet J F) → Option ℕ
  unfolding unique_sample_count
  count_samples none = none
  count_samples (some relations) = some (unique_sample_count relations.records)

  abbrev pub count_records : Option (CoordinatorRelationSet J F) → Option ℕ
  count_records none = none
  count_records (some relations) = some (length relations.records)

  unfoldable pub handle_record_of :
      CoordinatorHandleArena J F
      → CoordinatorDataPlanEnvelope J F
      → CoordinatorDataMaterializationRequest J F
      → Option (CoordinatorRelationSet J F)
      → CoordinatorDataHandleRecord
  handle_record_of arena envelope request scoped = record {
    handle = handle_ref arena data_handle;
    run_id = request.run_id;
    node_id = request.node_id;
    input_name = request.input_name;
    phase = request.phase;
    variant_id = request.variant_id;
    fold_id = request.fold_id;
    request_id = request.request_id;
    schema_fingerprint = request.schema_fingerprint;
    plan_fingerprint = request.plan_fingerprint;
    relation_fingerprint = request.relation_fingerprint;
    plan_id = envelope.plan.id;
    output_representation = request.output_representation;
    source_ids = request.source_ids;
    sample_count = count_samples scoped;
    relation_record_count = count_records scoped;
  }

  unfoldable pub view_record_of :
      CoordinatorHandleArena J F
      → DataView J
      → CoordinatorDataHandleRecord
      → List (CoordinatorRelation J F)
      → CoordinatorDataViewRecord J
  view_record_of arena view parent filtered = record {
    handle = handle_ref arena view_handle;
    parent_handle = parent.handle;
    view = view;
    sample_count = unique_sample_count filtered;
    relation_record_count = length filtered;
  }

  abbrev pub put_relations :
      ℕ
      → Option (CoordinatorRelationSet J F)
      → Map ℕ (CoordinatorRelationSet J F)
      → Map ℕ (CoordinatorRelationSet J F)
  put_relations handle none relations = relations
  put_relations handle (some scoped) relations = put handle scoped relations

  -- The writes of `materialize`.
  unfoldable pub insert_data :
      CoordinatorHandleArena J F
      → CoordinatorDataHandleRecord
      → Option (CoordinatorRelationSet J F)
      → CoordinatorHandleArena J F
  insert_data arena data_record scoped = record arena {
    next_handle = after_handle arena.next_handle;
    records = put arena.next_handle data_record arena.records;
    data_relations = put_relations arena.next_handle scoped arena.data_relations;
  }

  -- The writes of `make_view`.
  unfoldable pub insert_view :
      CoordinatorHandleArena J F
      → CoordinatorDataViewRecord J
      → List (CoordinatorRelation J F)
      → CoordinatorHandleArena J F
  insert_view arena view_record filtered = record arena {
    next_handle = after_handle arena.next_handle;
    view_records = put arena.next_handle view_record arena.view_records;
    view_relations = put arena.next_handle (record { records = filtered }) arena.view_relations;
  }

  -- `view_record`, `handle_record` and `handle_records`.
  abbrev pub view_record : CoordinatorHandleArena J F → ℕ → Option (CoordinatorDataViewRecord J)
  view_record arena handle = get handle arena.view_records

  abbrev pub handle_record : CoordinatorHandleArena J F → ℕ → Option CoordinatorDataHandleRecord
  handle_record arena handle = get handle arena.records

  abbrev pub handle_records : CoordinatorHandleArena J F → List CoordinatorDataHandleRecord
  handle_records arena = values arena.records

  unfoldable pub view_identity :
      CoordinatorHandleArena J F → ℕ → Result (CoordinatorRelationSet J F)
  view_identity arena handle =
      ok_or (get handle arena.view_relations) (unknown_handle (text "view") handle)

  unfoldable pub data_identity :
      CoordinatorHandleArena J F → ℕ → Result (CoordinatorRelationSet J F)
  data_identity arena handle = do
    refuse (not (contains_key handle arena.records)) (unknown_handle (text "data") handle)
    ok_or (get handle arena.data_relations) (no_relations handle)

  abbrev pub drop_view : CoordinatorHandleArena J F → ℕ → CoordinatorHandleArena J F
  drop_view arena handle = record arena {
    view_records = remove handle arena.view_records;
    view_relations = remove handle arena.view_relations;
  }

  unfoldable pub drop_data :
      CoordinatorHandleArena J F → ℕ → CoordinatorDataHandleRecord → CoordinatorHandleArena J F
  unfolding child_views remove_all
  drop_data arena handle data_record =
      let children = child_views data_record.handle arena.view_records in
      record arena {
        records = remove handle arena.records;
        data_relations = remove handle arena.data_relations;
        view_records = remove_all children arena.view_records;
        view_relations = remove_all children arena.view_relations;
      }

  unfoldable pub release_found :
      CoordinatorHandleArena J F
      → ℕ
      → Option (CoordinatorDataViewRecord J)
      → Option CoordinatorDataHandleRecord
      → CoordinatorHandleArena J F × Bool
  unfolding drop_data
  release_found arena handle (some view) data_record = (drop_view arena handle, true)
  release_found arena handle none (some data_record) = (drop_data arena handle data_record, true)
  release_found arena handle none none = (arena, false)

  -- `release_handle`: the arena after it, and whether there was such a handle.
  unfoldable pub release_handle : CoordinatorHandleArena J F → ℕ → CoordinatorHandleArena J F × Bool
  unfolding release_found
  release_handle arena handle =
      release_found arena handle (get handle arena.view_records) (get handle arena.records)

module _ {J F : Type 0} (json : Json J) (f64 : Float F) (codecs : Codecs J F) where
  -- The checks of `materialize`, and the relations that the request scopes.
  unfoldable pub checked_relations :
      CoordinatorDataPlanEnvelope J F
      → CoordinatorDataMaterializationRequest J F
      → Result (Option (CoordinatorRelationSet J F))
  checked_relations envelope request = do
    validate_envelope json f64 codecs envelope
    validate_request request
    validate_request_against_envelope json f64 codecs envelope request
    relations ← materialization_relations json f64 codecs envelope request
    transpose (λ scoped. scoped_relations_for_materialization json f64 codecs scoped request)
        relations

  -- `CoordinatorHandleArena::materialize`.
  unfoldable pub materialize :
      CoordinatorHandleArena J F
      → CoordinatorDataPlanEnvelope J F
      → CoordinatorDataMaterializationRequest J F
      → Result (CoordinatorHandleArena J F × CoordinatorDataHandleRecord)
  unfolding checked_relations handle_record_of insert_data
  materialize arena envelope request = do
    scoped ← checked_relations envelope request
    let data_record : CoordinatorDataHandleRecord = handle_record_of arena envelope request scoped
    ok (insert_data arena data_record scoped, data_record)

abbrev pub text_of : {J : Type 0} → Json J → Option J → Option Text
text_of json none = none
text_of json (some value) = as_str json value

module _ {J F : Type 0} (json : Json J) where
  abbrev pub metadata_text : CoordinatorRelation J F → Text → Option Text
  metadata_text relation key = text_of json (get key relation.metadata)

  -- Every label is the text under its key in the metadata of the relation.
  abbrev pub has_labels : List (Text × Text) → CoordinatorRelation J F → Bool
  has_labels selectors relation =
      all (λ selector. metadata_text relation selector.0 == some selector.1) selectors

module _ {J F : Type 0} (json : Json J) (read_filter : J → Text ⊎ NativeBranchViewFilter J) where
  -- The checks of `make_view`: the record of the parent, and the relations that the view selects of its.
  unfoldable pub viewed_relations :
      CoordinatorHandleArena J F
      → ℕ
      → DataView J
      → Result (CoordinatorDataHandleRecord × List (CoordinatorRelation J F))
  viewed_relations arena parent_id view = do
    validate_view json read_filter view
    parent ← ok_or (get parent_id arena.records) (unknown_handle (text "data") parent_id)
    relations ← ok_or (get parent_id arena.data_relations) (no_relations parent_id)
    selectors ← resolved_view_labels view parent
    let scoped : List (CoordinatorRelation J F) =
        filter (has_labels json selectors) relations.records
    filtered ← filter_relations json read_filter scoped view
    ok (parent, filtered)

  -- `CoordinatorHandleArena::make_view`.
  unfoldable pub make_view :
      CoordinatorHandleArena J F
      → ℕ
      → DataView J
      → Result (CoordinatorHandleArena J F × CoordinatorDataViewRecord J)
  unfolding viewed_relations view_record_of insert_view
  make_view arena parent_id view = do
    viewed ← viewed_relations arena parent_id view
    let view_record : CoordinatorDataViewRecord J = view_record_of arena view viewed.0 viewed.1
    ok (insert_view arena view_record viewed.1, view_record)
