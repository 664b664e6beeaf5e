-- ===== src/Handle/Release.antt =====
-- crates/dag-ml-data-core/src/handle.rs: what `release_handle` removes, and what it keeps.
use dag_ml_data.Handle.Requests.{
  CoordinatorDataHandleRecord, CoordinatorDataViewRecord, CoordinatorHandleRef,
}
use dag_ml_data.Handle.Arena.{
  release_handle, release_found, drop_data, drop_view, CoordinatorHandleArena, child_views,
  same_handle, remove_all,
}
use dag_ml_data.Common.{
  inr, inl, Option-cases, true, ◌||◌, ℕ, ◌≡◌, refl, Bool, false, Option, none, some, List, [], ◌∷◌,
  arith, if◌then◌else◌,
}
use dag_ml_data.Order.{◌==◌, ==_iff, nat_ord, list_ord}
use dag_ml_data.Collections.{contains_key, Map, keys, get, remove, contains, Distinct}
use dag_ml_data.Order.{pair_ord}
use dag_ml_data.Collections.{contains-keys, get-remove}
use dag_ml_data.Handle.Invariant.{same_handle_iff, IsWellFormed, remove-Distinct}

pub get-remove_all {ℓ} :
    {V : Type ℓ} (h : ℕ) (handles : List ℕ) (m : Map ℕ V)
    → get h (remove_all handles m) ≡ (if contains h handles then none else get h m)
unfolding remove_all
get-remove_all h [] m = refl
get-remove_all h (k ∷ handles) m =
    ground (arith, get-remove_all h handles (remove k m), get-remove h k m)

pub remove_all-Distinct {ℓ} :
    {V : Type ℓ} (handles : List ℕ) (m : Map ℕ V)
    → Distinct (keys m)
    → Distinct (keys (remove_all handles m))
unfolding remove_all
remove_all-Distinct [] m d = d
remove_all-Distinct (k ∷ handles) m d =
    remove_all-Distinct handles (remove k m) (remove-Distinct k m d)

module _ {J : Type 0} where
  -- The parent of a view, if there is one under the handle, is this one.
  abbrev pub is_child : CoordinatorHandleRef → Option (CoordinatorDataViewRecord J) → Bool
  is_child parent none = false
  is_child parent (some view) = same_handle view.parent_handle parent

  pub contains-child_views :
      (parent : CoordinatorHandleRef) (views : Map ℕ (CoordinatorDataViewRecord J)) (h : ℕ)
      → Distinct (keys views)
      → contains h (child_views parent views) ≡ is_child parent (get h views)
  unfolding child_views get
  contains-child_views parent [] h d = refl
  contains-child_views parent ((k, view) ∷ views) h d =
      ground (arith, contains-child_views parent views h d.1, contains-keys h views, ==_iff h k)

  -- The view hangs on the data handle.
  abbrev pub hangs_on : ℕ → Option (CoordinatorDataViewRecord J) → Bool
  hangs_on handle none = false
  hangs_on handle (some view) = view.parent_handle.handle == handle

-- After the release of a handle: it names no data and no view, nor do the views that hang on it, and
-- everything else is as before.
pub record IsReleased {J F : Type 0} (arena : CoordinatorHandleArena J F) (handle : ℕ)
    (after : CoordinatorHandleArena J F) (found : Bool) : Type 0 where
  pub answers :
      found ≡ (contains_key handle arena.records || contains_key handle arena.view_records)
  pub same_records :
      (h : ℕ) → get h after.records ≡ (if h == handle then none else get h arena.records)
  pub same_data_relations :
      (h : ℕ)
      → get h after.data_relations ≡ (if h == handle then none else get h arena.data_relations)
  pub same_view_records :
      (h : ℕ)
      → get h after.view_records ≡ (
          if h == handle || hangs_on handle (get h arena.view_records)
          then none
          else get h arena.view_records)
  pub same_view_relations :
      (h : ℕ)
      → get h after.view_relations ≡ (
          if h == handle || hangs_on handle (get h arena.view_records)
          then none
          else get h arena.view_relations)
  pub same_counter : after.next_handle ≡ arena.next_handle
  pub still_unrepeated : Distinct (keys after.view_records)

module _ {J F : Type 0} (arena : CoordinatorHandleArena J F) (w : IsWellFormed arena)
    (handle : ℕ) where
  -- A handle on which a view hangs names data.
  hangs_on_alive :
      (h : ℕ)
      → hangs_on handle (get h arena.view_records) ≡ true
      → contains_key handle arena.records ≡ true
  hangs_on_alive h m = elim (Option-cases (get h arena.view_records)) [
    | inl gone ↦ ground arith
    | inr (view, at) ↦
        let (parent, alive, _) = w.has_parent h view at in
        ground (arith, ==_iff view.parent_handle.handle handle)
  ]

  child_hangs :
      (data_record : CoordinatorDataHandleRecord)
      → get handle arena.records ≡ some data_record
      → (h : ℕ)
      → is_child data_record.handle (get h arena.view_records)
        ≡ hangs_on handle (get h arena.view_records)
  child_hangs data_record alive h = elim (Option-cases (get h arena.view_records)) [
    | inl gone ↦ ground arith
    | inr (view, at) ↦
        let (parent, found, same) = w.has_parent h view at in
        ground (
          arith,
          same_handle_iff view.parent_handle data_record.handle,
          ==_iff view.parent_handle.handle handle,
          w.owned handle data_record alive,
        )
  ]

  release_nothing :
      get handle arena.view_records ≡ none
      → get handle arena.records ≡ none
      → IsReleased arena handle arena false
  release_nothing no_view no_data = record {
    answers = ground arith;
    same_records = λ h. ground (arith, ==_iff h handle);
    same_data_relations = λ h. ground (arith, ==_iff h handle, w.has_record h);
    same_view_records = λ h. ground (arith, ==_iff h handle, hangs_on_alive h);
    same_view_relations = λ h. ground (arith, ==_iff h handle, hangs_on_alive h, w.has_relations h);
    same_counter = refl;
    still_unrepeated = w.unrepeated;
  }

  release_view :
      (view : CoordinatorDataViewRecord J)
      → get handle arena.view_records ≡ some view
      → IsReleased arena handle (drop_view arena handle) true
  release_view view found =
      let no_data : get handle arena.records ≡ none = ground (arith, w.apart handle) in
      record {
        answers = ground arith;
        same_records = λ h. ground (arith, ==_iff h handle);
        same_data_relations = λ h. ground (arith, ==_iff h handle, w.has_record h);
        same_view_records =
            λ h. ground (arith, get-remove h handle arena.view_records, hangs_on_alive h);
        same_view_relations =
            λ h. ground (arith, get-remove h handle arena.view_relations, hangs_on_alive h);
        same_counter = refl;
        still_unrepeated = remove-Distinct handle arena.view_records w.unrepeated;
      }

  release_data :
      (data_record : CoordinatorDataHandleRecord)
      → get handle arena.view_records ≡ none
      → get handle arena.records ≡ some data_record
      → IsReleased arena handle (drop_data arena handle data_record) true
  unfolding drop_data remove
  release_data data_record no_view found =
      let children = child_views data_record.handle arena.view_records in
      record {
        answers = ground arith;
        same_records = λ h. get-remove h handle arena.records;
        same_data_relations = λ h. get-remove h handle arena.data_relations;
        same_view_records = λ h. ground (
          arith,
          get-remove_all h children arena.view_records,
          contains-child_views data_record.handle arena.view_records h w.unrepeated,
          child_hangs data_record found h,
          ==_iff h handle,
        );
        same_view_relations = λ h. ground (
          arith,
          get-remove_all h children arena.view_relations,
          contains-child_views data_record.handle arena.view_records h w.unrepeated,
          child_hangs data_record found h,
          ==_iff h handle,
          w.has_relations h,
        );
        same_counter = refl;
        still_unrepeated = remove_all-Distinct children arena.view_records w.unrepeated;
      }

  released :
      (view : Option (CoordinatorDataViewRecord J))
      (data_record : Option CoordinatorDataHandleRecord)
      → get handle arena.view_records ≡ view
      → get handle arena.records ≡ data_record
      → IsReleased arena handle
          (release_found arena handle view data_record).0
          (release_found arena handle view data_record).1
  unfolding release_found
  released (some view) data_record at_view at_data = release_view view at_view
  released none (some data_record) at_view at_data = release_data data_record at_view at_data
  released none none at_view at_data = release_nothing at_view at_data

  -- Releasing a handle of a well-formed arena tells whether it named data or a view, removes it and the
  -- views that hang on it from the arena, and leaves every other handle and the counter as they were.
  pub release_handle-IsReleased :
      IsReleased arena handle (release_handle arena handle).0 (release_handle arena handle).1
  unfolding release_handle
  release_handle-IsReleased =
      released (get handle arena.view_records) (get handle arena.records) refl refl
