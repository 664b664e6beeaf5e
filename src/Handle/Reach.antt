-- ===== src/Handle/Reach.antt =====
-- crates/dag-ml-data-core/src/handle.rs: the arenas that calls of the methods lead to.
use dag_ml_data.Handle.Views.{validate_view, filter_relations, resolved_view_labels}
use dag_ml_data.Coordinator.Relations.{CoordinatorRelationSet, CoordinatorRelation}
use dag_ml_data.Handle.Requests.{
  CoordinatorDataMaterializationRequest, CoordinatorDataViewRecord, CoordinatorDataHandleRecord,
  DataView,
}
use dag_ml_data.Coordinator.Envelope.{CoordinatorDataPlanEnvelope, Codecs}
use dag_ml_data.Coordinator.Branches.{NativeBranchViewFilter}
use dag_ml_data.Handle.Release.{IsReleased}
use dag_ml_data.Float.{Float}
use dag_ml_data.Handle.Arena.{
  release_handle, new_arena, no_relations, has_labels, insert_data, handle_record_of, insert_view,
  checked_relations, view_record_of, materialize, make_view, viewed_relations,
  CoordinatorHandleArena,
}
use dag_ml_data.Json.{Json}
use dag_ml_data.Common.{ℕ, ◌≡◌, ap, ◌∙◌, subst, ◌⊎◌, Bool, Option, some, List, arith, filter}
use dag_ml_data.Order.{nat_ord, list_ord}
use dag_ml_data.Text.{Text, text}
use dag_ml_data.Collections.{get}
use dag_ml_data.Error.{ok_or_found, unknown_handle, ok_injective, ok, ◌>>=◌, ok_or, >>=-eq-ok}
use dag_ml_data.Order.{pair_ord}
use dag_ml_data.Error.{>>-eq-ok}
use dag_ml_data.Handle.Invariant.{HasNext, IsWellFormed}

module _ {J F : Type 0} (arena : CoordinatorHandleArena J F) (w : IsWellFormed arena)
    (handle : ℕ) where
  pub IsReleased-IsWellFormed :
      (after : CoordinatorHandleArena J F) (found : Bool)
      → IsReleased arena handle after found
      → IsWellFormed after
  IsReleased-IsWellFormed after found r = record {
    is_issued = λ h m. ground (arith, r.same_records h, w.is_issued h, r.same_counter);
    is_issued_view =
        λ h m. ground (arith, r.same_view_records h, w.is_issued_view h, r.same_counter);
    apart = λ h m. ground (arith, r.same_view_records h, r.same_records h, w.apart h);
    owned = λ h data_record e. ground (arith, r.same_records h, w.owned h data_record);
    has_record = λ h m. ground (arith, r.same_data_relations h, r.same_records h, w.has_record h);
    has_relations =
        λ h. ground (arith, r.same_view_relations h, r.same_view_records h, w.has_relations h);
    has_parent = λ h v e.
        let (parent, alive, same) = w.has_parent h v (ground (arith, r.same_view_records h)) in
        (
          parent,
          ground (arith, r.same_view_records h, r.same_records v.parent_handle.handle),
          same,
        );
    unrepeated = r.still_unrepeated;
  }

module _ {J F : Type 0} (json : Json J) (f64 : Float F) (codecs : Codecs J F) where
  pub materialize_parts :
      (arena : CoordinatorHandleArena J F) (envelope : CoordinatorDataPlanEnvelope J F)
      (request : CoordinatorDataMaterializationRequest J F) (after : CoordinatorHandleArena J F)
      (data_record : CoordinatorDataHandleRecord)
      → materialize json f64 codecs arena envelope request ≡ ok (after, data_record)
      → (scoped : Option (CoordinatorRelationSet J F)) × (checked_relations json f64 codecs envelope
            request
          ≡ ok scoped)
        × (handle_record_of arena envelope request scoped ≡ data_record)
        × (insert_data arena data_record scoped ≡ after)
  unfolding materialize
  materialize_parts arena envelope request after data_record fine =
      let (scoped, checked, made) =
        >>=-eq-ok (checked_relations json f64 codecs envelope request)
          (λ scoped. ok (
            insert_data arena (handle_record_of arena envelope request scoped) scoped,
            handle_record_of arena envelope request scoped,
          ))
          fine in
      let pair : (
        insert_data arena (handle_record_of arena envelope request scoped) scoped,
        handle_record_of arena envelope request scoped,
      )
          ≡ (after, data_record) =
        ok_injective made in
      let named = ap (λ p. p.1) pair in
      (
        scoped,
        checked,
        named,
        subst (λ r. insert_data arena r scoped ≡ after) named (ap (λ p. p.0) pair),
      )

module _ {J F : Type 0} (json : Json J) (read_filter : J → Text ⊎ NativeBranchViewFilter J) where
  pub make_view_parts :
      (arena : CoordinatorHandleArena J F) (parent_id : ℕ) (view : DataView J)
      (after : CoordinatorHandleArena J F) (view_record : CoordinatorDataViewRecord J)
      → make_view json read_filter arena parent_id view ≡ ok (after, view_record)
      → (parent : CoordinatorDataHandleRecord) × (filtered : List (CoordinatorRelation J F))
        × (viewed_relations json read_filter arena parent_id view ≡ ok (parent, filtered))
        × (view_record_of arena view parent filtered ≡ view_record)
        × (insert_view arena view_record filtered ≡ after)
  unfolding make_view
  make_view_parts arena parent_id view after view_record fine =
      let ((parent, filtered), viewed, made) =
        >>=-eq-ok (viewed_relations json read_filter arena parent_id view)
          (λ viewed. ok (
            insert_view arena (view_record_of arena view viewed.0 viewed.1) viewed.1,
            view_record_of arena view viewed.0 viewed.1,
          ))
          fine in
      let pair : (
        insert_view arena (view_record_of arena view parent filtered) filtered,
        view_record_of arena view parent filtered,
      )
          ≡ (after, view_record) =
        ok_injective made in
      let named = ap (λ p. p.1) pair in
      (
        parent,
        filtered,
        viewed,
        named,
        subst (λ v. insert_view arena v filtered ≡ after) named (ap (λ p. p.0) pair),
      )

  pub viewed_relations_parts :
      (arena : CoordinatorHandleArena J F) (parent_id : ℕ) (view : DataView J)
      (parent : CoordinatorDataHandleRecord) (filtered : List (CoordinatorRelation J F))
      → viewed_relations json read_filter arena parent_id view ≡ ok (parent, filtered)
      → (get parent_id arena.records ≡ some parent)
        × (relations : CoordinatorRelationSet J F) × (selectors : List (Text × Text)) × (get
              parent_id arena.data_relations
            ≡ some relations)
        × (resolved_view_labels view parent ≡ ok selectors)
        × (filter_relations json read_filter
              (filter (has_labels json selectors) relations.records)
              view
            ≡ ok filtered)
  unfolding viewed_relations
  viewed_relations_parts arena parent_id view parent filtered fine =
      let of_selectors =
        λ (parent : CoordinatorDataHandleRecord) (relations : CoordinatorRelationSet J F)
            (selectors : List (Text × Text)).
          filter_relations json read_filter (filter (has_labels json selectors) relations.records)
            view
          >>= λ filtered. ok (parent, filtered) in
      let of_relations =
        λ (parent : CoordinatorDataHandleRecord) (relations : CoordinatorRelationSet J F).
          resolved_view_labels view parent >>= of_selectors parent relations in
      let of_parent = λ (parent : CoordinatorDataHandleRecord).
        ok_or (get parent_id arena.data_relations) (no_relations parent_id)
        >>= of_relations parent in
      let (_, h1) =
        >>-eq-ok (validate_view json read_filter view)
          (ok_or (get parent_id arena.records) (unknown_handle (text "data") parent_id)
            >>= of_parent)
          fine in
      let (found, at_found, h2) =
        >>=-eq-ok (ok_or (get parent_id arena.records) (unknown_handle (text "data") parent_id))
          of_parent h1 in
      let (relations, at_relations, h3) =
        >>=-eq-ok (ok_or (get parent_id arena.data_relations) (no_relations parent_id))
          (of_relations found) h2 in
      let (selectors, at_selectors, h4) =
        >>=-eq-ok (resolved_view_labels view found) (of_selectors found relations) h3 in
      let (kept, at_kept, h5) =
        >>=-eq-ok
          (filter_relations json read_filter (filter (has_labels json selectors) relations.records)
            view)
          (λ filtered. ok (found, filtered)) h4 in
      let pair : (found, kept) ≡ (parent, filtered) = ok_injective h5 in
      (
        ok_or_found (get parent_id arena.records) _ at_found ∙ ap (λ p. some p.0) pair,
        relations,
        selectors,
        ok_or_found (get parent_id arena.data_relations) _ at_relations,
        subst (λ p. resolved_view_labels view p.0 ≡ ok selectors) pair at_selectors,
        at_kept ∙ ap (λ p. ok p.1) pair,
      )

-- One call of a method that changes the arena and returns. The counter does not wrap where it counts.
module _ {J F : Type 0} (json : Json J) (f64 : Float F) (codecs : Codecs J F)
    (read_filter : J → Text ⊎ NativeBranchViewFilter J) where
  pub data Step (arena : CoordinatorHandleArena J F) : CoordinatorHandleArena J F → Type 0 where
    materialized :
        (envelope : CoordinatorDataPlanEnvelope J F)
        (request : CoordinatorDataMaterializationRequest J F) (after : CoordinatorHandleArena J F)
        (data_record : CoordinatorDataHandleRecord)
        → HasNext arena
        → materialize json f64 codecs arena envelope request ≡ ok (after, data_record)
        → Step arena after
    viewed :
        (parent_id : ℕ) (view : DataView J) (after : CoordinatorHandleArena J F)
        (view_record : CoordinatorDataViewRecord J)
        → HasNext arena
        → make_view json read_filter arena parent_id view ≡ ok (after, view_record)
        → Step arena after
    dropped : (handle : ℕ) → Step arena (release_handle arena handle).0

  -- The arenas that calls lead to from a new one.
  pub data Reachable : CoordinatorHandleArena J F → Type 0 where
    started :
        (owner : Text) (arena : CoordinatorHandleArena J F)
        → new_arena owner ≡ ok arena
        → Reachable arena
    called :
        (arena after : CoordinatorHandleArena J F)
        → Reachable arena
        → Step arena after
        → Reachable after
