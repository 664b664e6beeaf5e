-- ===== src/Handle/Unknown.antt =====
-- crates/dag-ml-data-core/src/handle.rs: a released handle stays unknown.
use dag_ml_data.Handle.Release.{release_handle-IsReleased}
use dag_ml_data.Handle.Live.{Reachable-IsWellFormed, Step-IsWellFormed}
use dag_ml_data.Coordinator.Relations.{CoordinatorRelation, CoordinatorRelationSet}
use dag_ml_data.Handle.Invariant.{HasNext, IsWellFormed}
use dag_ml_data.Handle.Requests.{CoordinatorDataHandleRecord, CoordinatorDataViewRecord}
use dag_ml_data.Handle.Arena.{
  release_handle, view_identity, insert_view, insert_data, data_identity, CoordinatorHandleArena,
}
use dag_ml_data.Coordinator.Branches.{NativeBranchViewFilter}
use dag_ml_data.Coordinator.Envelope.{Codecs}
use dag_ml_data.Float.{Float}
use dag_ml_data.Json.{Json}
use dag_ml_data.Common.{ℕ, ◌<◌, ◌≡◌, subst, ◌⊎◌, true, Option, none, List, arith}
use dag_ml_data.Order.{==_iff, ==_refl, nat_ord, list_ord}
use dag_ml_data.Text.{Text, text}
use dag_ml_data.Collections.{get, get-put}
use dag_ml_data.Error.{unknown_handle, err}
use dag_ml_data.Order.{pair_ord}
use dag_ml_data.Handle.Reach.{
  IsReleased-IsWellFormed, make_view_parts, materialize_parts, Step, Reachable, materialized,
  viewed, dropped,
}

module _ {J F : Type 0} (json : Json J) (f64 : Float F) (codecs : Codecs J F)
    (read_filter : J → Text ⊎ NativeBranchViewFilter J) where
  -- Later calls, none or more.
  pub data Later (arena : CoordinatorHandleArena J F) : CoordinatorHandleArena J F → Type 0 where
    no_call : Later arena arena
    then_called :
        (middle after : CoordinatorHandleArena J F)
        → Later arena middle
        → Step json f64 codecs read_filter middle after
        → Later arena after

  -- The handle was issued, and names nothing.
  pub record IsDead (arena : CoordinatorHandleArena J F) (handle : ℕ) : Type 0 where
    pub was_issued : handle < arena.next_handle
    pub no_data : get handle arena.records ≡ none
    pub no_view : get handle arena.view_records ≡ none

  insert_data-IsDead :
      (arena : CoordinatorHandleArena J F) (handle : ℕ) (data_record : CoordinatorDataHandleRecord)
      (scoped : Option (CoordinatorRelationSet J F))
      → HasNext arena
      → IsDead arena handle
      → IsDead (insert_data arena data_record scoped) handle
  unfolding insert_data
  insert_data-IsDead arena handle data_record scoped next dead = record {
    was_issued = ground (arith, dead.was_issued);
    no_data = ground (
      arith,
      dead.was_issued,
      dead.no_data,
      get-put handle arena.next_handle data_record arena.records,
      ==_iff handle arena.next_handle,
    );
    no_view = dead.no_view;
  }

  insert_view-IsDead :
      (arena : CoordinatorHandleArena J F) (handle : ℕ) (view_record : CoordinatorDataViewRecord J)
      (filtered : List (CoordinatorRelation J F))
      → HasNext arena
      → IsDead arena handle
      → IsDead (insert_view arena view_record filtered) handle
  unfolding insert_view
  insert_view-IsDead arena handle view_record filtered next dead = record {
    was_issued = ground (arith, dead.was_issued);
    no_data = dead.no_data;
    no_view = ground (
      arith,
      dead.was_issued,
      dead.no_view,
      get-put handle arena.next_handle view_record arena.view_records,
      ==_iff handle arena.next_handle,
    );
  }

  Step-IsDead :
      (arena after : CoordinatorHandleArena J F) (handle : ℕ)
      → IsWellFormed arena
      → Step json f64 codecs read_filter arena after
      → IsDead arena handle
      → IsDead after handle
  Step-IsDead arena _ handle w (materialized envelope request after data_record next fine) dead =
      let (scoped, checked, made, inserted) =
        materialize_parts json f64 codecs arena envelope request after data_record fine in
      subst (λ a. IsDead a handle) inserted
        (insert_data-IsDead arena handle data_record scoped next dead)
  Step-IsDead arena _ handle w (viewed parent_id view after view_record next fine) dead =
      let (parent, filtered, checked, made, inserted) =
        make_view_parts json read_filter arena parent_id view after view_record fine in
      subst (λ a. IsDead a handle) inserted
        (insert_view-IsDead arena handle view_record filtered next dead)
  Step-IsDead arena _ handle w (dropped other) dead =
      let r = release_handle-IsReleased arena w other in
      record {
        was_issued = ground (arith, dead.was_issued, r.same_counter);
        no_data = ground (arith, dead.no_data, r.same_records handle);
        no_view = ground (arith, dead.no_view, r.same_view_records handle);
      }

  Later-IsDead :
      (arena after : CoordinatorHandleArena J F) (handle : ℕ)
      → IsWellFormed arena
      → Later arena after
      → IsDead arena handle
      → IsDead after handle × IsWellFormed after
  Later-IsDead arena _ handle w no_call dead = (dead, w)
  Later-IsDead arena _ handle w (then_called middle after later step) dead =
      let (before, held) = Later-IsDead arena middle handle w later dead in
      (
        Step-IsDead middle after handle held step before,
        Step-IsWellFormed json f64 codecs read_filter middle after held step,
      )

  dead-identity :
      (arena : CoordinatorHandleArena J F) (handle : ℕ)
      → IsWellFormed arena
      → IsDead arena handle
      → (data_identity arena handle ≡ err (unknown_handle (text "data") handle))
        × (view_identity arena handle ≡ err (unknown_handle (text "view") handle))
  unfolding data_identity view_identity
  dead-identity arena handle w dead =
      (ground (arith, dead.no_data), ground (arith, dead.no_view, w.has_relations handle))

  -- A handle that `release_handle` found, in an arena that calls lead to from a new one, stays unknown:
  -- whatever calls follow, without the counter wrapping, `data_identity` and `view_identity` refuse it as an
  -- unknown handle.
  pub released_stays_unknown :
      (arena after : CoordinatorHandleArena J F) (handle : ℕ)
      → Reachable json f64 codecs read_filter arena
      → (release_handle arena handle).1 ≡ true
      → Later (release_handle arena handle).0 after
      → (data_identity after handle ≡ err (unknown_handle (text "data") handle))
        × (view_identity after handle ≡ err (unknown_handle (text "view") handle))
  released_stays_unknown arena after handle reached found later =
      let w = Reachable-IsWellFormed json f64 codecs read_filter arena reached in
      let r = release_handle-IsReleased arena w handle in
      let dead : IsDead (release_handle arena handle).0 handle = record {
        was_issued =
            ground (arith, r.answers, r.same_counter, w.is_issued handle, w.is_issued_view handle);
        no_data = ground (arith, r.same_records handle, ==_refl handle);
        no_view = ground (arith, r.same_view_records handle, ==_refl handle);
      } in
      let (still, held) =
        Later-IsDead _ after handle (IsReleased-IsWellFormed arena w handle _ _ r) later dead in
      dead-identity after handle held still
