-- ===== src/Handle/Live.antt =====
-- crates/dag-ml-data-core/src/handle.rs: what stays true of the handles over any calls.
use dag_ml_data.Handle.Release.{release_handle-IsReleased}
use dag_ml_data.Coordinator.Branches.{NativeBranchViewFilter}
use dag_ml_data.Handle.Requests.{validate_non_empty}
use dag_ml_data.Coordinator.Envelope.{Codecs}
use dag_ml_data.Float.{Float}
use dag_ml_data.Handle.Arena.{view_record_of, handle_record_of, CoordinatorHandleArena, new_arena}
use dag_ml_data.Json.{Json}
use dag_ml_data.Common.{◌≡◌, refl, sym, ap, subst, ◌⊎◌, []}
use dag_ml_data.Order.{nat_ord, list_ord}
use dag_ml_data.Text.{Text, text}
use dag_ml_data.Collections.{get}
use dag_ml_data.Error.{ok_injective, ok}
use dag_ml_data.Order.{pair_ord}
use dag_ml_data.Error.{>>-eq-ok}
use dag_ml_data.Handle.Invariant.{insert_view-IsWellFormed, insert_data-IsWellFormed, IsWellFormed}
use dag_ml_data.Handle.Reach.{
  IsReleased-IsWellFormed, viewed_relations_parts, make_view_parts, materialize_parts, Step,
  Reachable, started, called, materialized, viewed, dropped,
}

module _ {J F : Type 0} where
  new_arena-IsWellFormed :
      (owner : Text) (arena : CoordinatorHandleArena J F)
      → new_arena owner ≡ ok arena
      → IsWellFormed arena
  unfolding new_arena get
  new_arena-IsWellFormed owner arena fine =
      let empty : CoordinatorHandleArena J F = record {
        owner_controller = owner;
        next_handle = 1;
        records = [];
        data_relations = [];
        view_records = [];
        view_relations = [];
      } in
      let (_, made) =
        >>-eq-ok (validate_non_empty (text "owner_controller") owner) (ok empty) fine in
      subst IsWellFormed (ok_injective made) (record {
        is_issued = λ h m. cc;
        is_issued_view = λ h m. cc;
        apart = λ h m. cc;
        owned = λ h r e. cc;
        has_record = λ h m. cc;
        has_relations = λ h. refl;
        has_parent = λ h v e. cc;
        unrepeated = tt;
      })

module _ {J F : Type 0} (json : Json J) (f64 : Float F) (codecs : Codecs J F)
    (read_filter : J → Text ⊎ NativeBranchViewFilter J) where
  pub Step-IsWellFormed :
      (arena after : CoordinatorHandleArena J F)
      → IsWellFormed arena
      → Step json f64 codecs read_filter arena after
      → IsWellFormed after
  unfolding handle_record_of view_record_of
  Step-IsWellFormed arena _ w (materialized envelope request after data_record next fine) =
      let (scoped, checked, made, inserted) =
        materialize_parts json f64 codecs arena envelope request after data_record fine in
      subst IsWellFormed inserted
        (insert_data-IsWellFormed arena w next data_record (ap (λ r. r.handle) (sym made)) scoped)
  Step-IsWellFormed arena _ w (viewed parent_id view after view_record next fine) =
      let (parent, filtered, checked, made, inserted) =
        make_view_parts json read_filter arena parent_id view after view_record fine in
      let (alive, _, _, _, _, _) =
        viewed_relations_parts json read_filter arena parent_id view parent filtered checked in
      subst IsWellFormed inserted (
        insert_view-IsWellFormed arena w next view_record parent_id parent alive
          (ap (λ v. v.parent_handle) (sym made)) filtered)
  Step-IsWellFormed arena _ w (dropped handle) =
      IsReleased-IsWellFormed arena w handle _ _ (release_handle-IsReleased arena w handle)

  -- Whatever calls lead from a new arena to this one, without the counter wrapping, its parts agree: every
  -- handle is below the counter,
  -- no handle names both data and a view, a record is under its own handle, relations belong to a live
  -- record or view, and the parent of every view is alive.
  pub Reachable-IsWellFormed :
      (arena : CoordinatorHandleArena J F)
      → Reachable json f64 codecs read_filter arena
      → IsWellFormed arena
  Reachable-IsWellFormed _ (started owner arena fine) = new_arena-IsWellFormed owner arena fine
  Reachable-IsWellFormed _ (called arena after reached step) =
      Step-IsWellFormed arena after (Reachable-IsWellFormed arena reached) step
