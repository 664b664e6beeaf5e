-- ===== src/Handle/Made.antt =====
-- crates/dag-ml-data-core/src/handle.rs: what `materialize` and `make_view` leave in the arena.
use dag_ml_data.Handle.Views.{unique_sample_count}
use dag_ml_data.Coordinator.Envelope.{CoordinatorDataPlanEnvelope}
use dag_ml_data.Float.{Float}
use dag_ml_data.Handle.Requests.{
  CoordinatorDataMaterializationRequest, view_handle, data_handle, CoordinatorDataViewRecord,
  CoordinatorDataHandleRecord, DataView,
}
use dag_ml_data.Coordinator.Relations.{CoordinatorRelation, CoordinatorRelationSet}
use dag_ml_data.Handle.Arena.{
  count_records, count_samples, view_record_of, handle_record_of, view_identity, data_identity,
  handle_ref, insert_data, no_relations, insert_view, put_relations, CoordinatorHandleArena,
}
use dag_ml_data.Json.{Json}
use dag_ml_data.Common.{ℕ, ◌≡◌, refl, ◌≢◌, Option, none, some, List, arith, length}
use dag_ml_data.Order.{==_iff, ==_refl, nat_ord, list_ord}
use dag_ml_data.Text.{Text, text}
use dag_ml_data.Collections.{get, get-put}
use dag_ml_data.Error.{unknown_handle, Result, ok, err, ok_or}
use dag_ml_data.Order.{pair_ord}
use dag_ml_data.Handle.Invariant.{fresh_view, fresh_record, IsWellFormed}

-- What a materialized handle answers: the relations of the request, or that it has none.
unfoldable pub answer_of :
    {J F : Type 0} → ℕ → Option (CoordinatorRelationSet J F) → Result (CoordinatorRelationSet J F)
answer_of handle scoped = ok_or scoped (no_relations handle)

-- The new handle of a materialization.
pub record IsMaterialized {J F : Type 0} (arena after : CoordinatorHandleArena J F)
    (data_record : CoordinatorDataHandleRecord) (scoped : Option (CoordinatorRelationSet J F))
    : Type 0 where
  pub is_next : data_record.handle ≡ handle_ref arena data_handle
  pub was_free :
      data_identity arena arena.next_handle ≡ err (unknown_handle (text "data") arena.next_handle)
  pub answers : data_identity after arena.next_handle ≡ answer_of arena.next_handle scoped
  pub samples : data_record.sample_count ≡ count_samples scoped
  pub counted : data_record.relation_record_count ≡ count_records scoped
  pub same_data : (h : ℕ) → h ≢ arena.next_handle → data_identity after h ≡ data_identity arena h
  pub same_views : (h : ℕ) → view_identity after h ≡ view_identity arena h

-- The new handle of a view.
pub record IsViewed {J F : Type 0} (arena after : CoordinatorHandleArena J F) (parent_id : ℕ)
    (view : DataView J) (view_record : CoordinatorDataViewRecord J)
    (kept : List (CoordinatorRelation J F)) : Type 0 where
  pub is_next : view_record.handle ≡ handle_ref arena view_handle
  pub of_parent : view_record.parent_handle.handle ≡ parent_id
  pub was_free :
      view_identity arena arena.next_handle ≡ err (unknown_handle (text "view") arena.next_handle)
  pub answers : view_identity after arena.next_handle ≡ ok (record { records = kept })
  pub samples : view_record.sample_count ≡ unique_sample_count kept
  pub counted : view_record.relation_record_count ≡ length kept
  pub same_data : (h : ℕ) → data_identity after h ≡ data_identity arena h
  pub same_views : (h : ℕ) → h ≢ arena.next_handle → view_identity after h ≡ view_identity arena h

module _ {J F : Type 0} (arena : CoordinatorHandleArena J F) (w : IsWellFormed arena) where
  no_data_relations : get arena.next_handle arena.data_relations ≡ none
  no_data_relations = ground (arith, w.has_record arena.next_handle, fresh_record arena w)

  put_relations_new :
      (scoped : Option (CoordinatorRelationSet J F))
      → get arena.next_handle (put_relations arena.next_handle scoped arena.data_relations) ≡ scoped
  put_relations_new none = no_data_relations
  put_relations_new (some relations) = ground (
    arith,
    get-put arena.next_handle arena.next_handle relations arena.data_relations,
    ==_refl arena.next_handle,
  )

  put_relations_other :
      (scoped : Option (CoordinatorRelationSet J F)) (h : ℕ)
      → h ≢ arena.next_handle
      → get h (put_relations arena.next_handle scoped arena.data_relations)
        ≡ get h arena.data_relations
  put_relations_other none h other = refl
  put_relations_other (some relations) h other = ground (
    arith,
    get-put h arena.next_handle relations arena.data_relations,
    ==_iff h arena.next_handle,
  )

  pub insert_data-IsMaterialized :
      (envelope : CoordinatorDataPlanEnvelope J F)
      (request : CoordinatorDataMaterializationRequest J F)
      (scoped : Option (CoordinatorRelationSet J F))
      → let data_record = handle_record_of arena envelope request scoped in
        IsMaterialized arena (insert_data arena data_record scoped) data_record scoped
  unfolding insert_data data_identity view_identity handle_record_of answer_of
  insert_data-IsMaterialized envelope request scoped =
      let data_record = handle_record_of arena envelope request scoped in
      record {
        is_next = refl;
        was_free = ground (arith, fresh_record arena w);
        answers = ground (
          arith,
          put_relations_new scoped,
          get-put arena.next_handle arena.next_handle data_record arena.records,
          ==_refl arena.next_handle,
        );
        samples = refl;
        counted = refl;
        same_data = λ h other. ground (
          arith,
          put_relations_other scoped h other,
          get-put h arena.next_handle data_record arena.records,
          ==_iff h arena.next_handle,
        );
        same_views = λ h. refl;
      }

  pub insert_view-IsViewed :
      (parent_id : ℕ) (view : DataView J) (parent : CoordinatorDataHandleRecord)
      (kept : List (CoordinatorRelation J F))
      → get parent_id arena.records ≡ some parent
      → let view_record = view_record_of arena view parent kept in
        IsViewed arena (insert_view arena view_record kept) parent_id view view_record kept
  unfolding insert_view data_identity view_identity view_record_of
  insert_view-IsViewed parent_id view parent kept alive = record {
    is_next = refl;
    of_parent = w.owned parent_id parent alive;
    was_free = ground (arith, fresh_view arena w, w.has_relations arena.next_handle);
    answers = ground (
      arith,
      get-put arena.next_handle arena.next_handle (record { records = kept }) arena.view_relations,
      ==_refl arena.next_handle,
    );
    samples = refl;
    counted = refl;
    same_data = λ h. refl;
    same_views = λ h other. ground (
      arith,
      get-put h arena.next_handle (record { records = kept }) arena.view_relations,
      ==_iff h arena.next_handle,
    );
  }
