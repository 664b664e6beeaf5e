-- ===== src/Handle/Invariant.antt =====
-- crates/dag-ml-data-core/src/handle.rs: what holds of every arena that the methods can lead to.
use dag_ml_data.Coordinator.Relations.{CoordinatorRelation, CoordinatorRelationSet}
use dag_ml_data.Handle.Requests.{
  data_handle, view_handle, CoordinatorHandleKind, CoordinatorHandleKind, CoordinatorDataViewRecord,
  CoordinatorDataHandleRecord, CoordinatorHandleRef,
}
use dag_ml_data.Handle.Arena.{
  insert_view, insert_data, put_relations, handle_ref, same_handle_kind, same_handle,
  CoordinatorHandleArena,
}
use dag_ml_data.Common.{
  ◌∙◌, ap, inr, inl, sym, subst, Bool-cases, if◌then◌else◌, List, Option, ◌^◌, ◌+◌, none, ℕ, ◌<◌,
  ◌≡◌, refl, ◌↔◌, true, false, some, [], ◌∷◌, arith,
}
use dag_ml_data.Order.{◌==◌, Ord, ==_iff, nat_ord, list_ord}
use dag_ml_data.Collections.{
  insert-Distinct, get-put, Map, keys, put, get, contains_key, remove, Distinct, insert,
}
use dag_ml_data.Order.{pair_ord}
use dag_ml_data.Collections.{contains-keys, get-remove}

pub keys-put {ℓ κ} :
    {K : Type ℓ} {V : Type κ} ⦃o : Ord K⦄ (k : K) (v : V) (m : Map K V)
    → keys (put k v m) ≡ insert k (keys m)
unfolding put insert
keys-put k v [] = refl
keys-put ⦃o = o⦄ k v ((j, w) ∷ m) = ground (arith, keys-put k v m, o.cmp-eq_iff k j)

pub remove-Distinct {ℓ κ} :
    {K : Type ℓ} {V : Type κ} ⦃o : Ord K⦄ (k : K) (m : Map K V)
    → Distinct (keys m)
    → Distinct (keys (remove k m))
unfolding remove
remove-Distinct k [] d = tt
remove-Distinct k ((j, w) ∷ m) d = ground (
  arith,
  remove-Distinct k m d.1,
  contains-keys j (remove k m),
  contains-keys j m,
  get-remove j k m,
  ==_iff j k,
)

pub same_kind_handle_iff : (a b : CoordinatorHandleKind) → (same_handle_kind a b ≡ true) ↔ (a ≡ b)
same_kind_handle_iff data_handle data_handle = ((λ _. refl), (λ _. refl))
same_kind_handle_iff view_handle view_handle = ((λ _. refl), (λ _. refl))
same_kind_handle_iff data_handle view_handle = ((λ e. cc), (λ e. cc))
same_kind_handle_iff view_handle data_handle = ((λ e. cc), (λ e. cc))

pub same_handle_iff : (a b : CoordinatorHandleRef) → (same_handle a b ≡ true) ↔ (a ≡ b)
unfolding same_handle
same_handle_iff a b = (
  (λ e.
      ground
        (arith, same_kind_handle_iff a.kind b.kind, ==_iff a.owner_controller b.owner_controller)),
  (λ e.
      ground
        (arith, same_kind_handle_iff a.kind b.kind, ==_iff a.owner_controller b.owner_controller)),
)

-- An arena in which the parts agree: every handle is below the counter, no handle names both data and a
-- view, a record is under its own handle, relations belong to a record, and the parent of a view is alive.
pub record IsWellFormed {J F : Type 0} (arena : CoordinatorHandleArena J F) : Type 0 where
  pub is_issued : (h : ℕ) → contains_key h arena.records ≡ true → h < arena.next_handle
  pub is_issued_view : (h : ℕ) → contains_key h arena.view_records ≡ true → h < arena.next_handle
  pub apart :
      (h : ℕ) → contains_key h arena.view_records ≡ true → contains_key h arena.records ≡ false
  pub owned :
      (h : ℕ) (r : CoordinatorDataHandleRecord) → get h arena.records ≡ some r → r.handle.handle ≡ h
  pub has_record :
      (h : ℕ) → contains_key h arena.data_relations ≡ true → contains_key h arena.records ≡ true
  pub has_relations :
      (h : ℕ) → contains_key h arena.view_relations ≡ contains_key h arena.view_records
  pub has_parent :
      (h : ℕ) (v : CoordinatorDataViewRecord J)
      → get h arena.view_records ≡ some v
      → (r : CoordinatorDataHandleRecord) × (get v.parent_handle.handle arena.records ≡ some r)
        × (v.parent_handle ≡ r.handle)
  pub unrepeated : Distinct (keys arena.view_records)

-- The counter does not wrap.
abbrev pub HasNext : {J F : Type 0} → CoordinatorHandleArena J F → Type 0
HasNext arena = arena.next_handle + 1 < 2 ^ 64

module _ {J F : Type 0} (arena : CoordinatorHandleArena J F) (w : IsWellFormed arena) where
  pub fresh_record : get arena.next_handle arena.records ≡ none
  fresh_record = ground (arith, w.is_issued arena.next_handle)

  pub fresh_view : get arena.next_handle arena.view_records ≡ none
  fresh_view = ground (arith, w.is_issued_view arena.next_handle)

module _ {J F : Type 0} (arena : CoordinatorHandleArena J F) (w : IsWellFormed arena)
    (next : HasNext arena) (data_record : CoordinatorDataHandleRecord)
    (named : data_record.handle ≡ handle_ref arena data_handle)
    (scoped : Option (CoordinatorRelationSet J F)) where
  issued_data :
      (h : ℕ)
      → contains_key h (put arena.next_handle data_record arena.records) ≡ true
      → h < arena.next_handle + 1
  issued_data h m = ground (
    arith,
    get-put h arena.next_handle data_record arena.records,
    ==_iff h arena.next_handle,
    w.is_issued h,
  )

  -- A new handle leaves the other records in place.
  kept_data :
      (h : ℕ)
      → contains_key h arena.records ≡ true
      → get h (put arena.next_handle data_record arena.records) ≡ get h arena.records
  kept_data h m = ground (
    arith,
    get-put h arena.next_handle data_record arena.records,
    ==_iff h arena.next_handle,
    w.is_issued h,
  )

  has_record_put :
      (scoped : Option (CoordinatorRelationSet J F)) (h : ℕ)
      → contains_key h (put_relations arena.next_handle scoped arena.data_relations) ≡ true
      → contains_key h (put arena.next_handle data_record arena.records) ≡ true
  has_record_put none h m = ground (arith, w.has_record h m, kept_data h)
  has_record_put (some relations) h m = ground (
    arith,
    w.has_record h,
    kept_data h,
    get-put h arena.next_handle data_record arena.records,
    get-put h arena.next_handle relations arena.data_relations,
  )

  pub insert_data-IsWellFormed : IsWellFormed (insert_data arena data_record scoped)
  unfolding insert_data
  insert_data-IsWellFormed = record {
    is_issued = λ h m. ground (arith, issued_data h m);
    is_issued_view = λ h m. ground (arith, w.is_issued_view h m);
    apart = λ h m. ground (
      arith,
      w.apart h m,
      w.is_issued_view h m,
      get-put h arena.next_handle data_record arena.records,
      ==_iff h arena.next_handle,
    );
    owned = λ h r e. ground (
      arith,
      w.owned h r,
      get-put h arena.next_handle data_record arena.records,
      ==_iff h arena.next_handle,
    );
    has_record = has_record_put scoped;
    has_relations = w.has_relations;
    has_parent = λ h v e.
        let (r, found, same) = w.has_parent h v e in
        (r, ground (arith, kept_data v.parent_handle.handle), same);
    unrepeated = w.unrepeated;
  }

module _ {J F : Type 0} (arena : CoordinatorHandleArena J F) (w : IsWellFormed arena)
    (next : HasNext arena) (view_record : CoordinatorDataViewRecord J) (parent_id : ℕ)
    (parent : CoordinatorDataHandleRecord) (alive : get parent_id arena.records ≡ some parent)
    (named : view_record.parent_handle ≡ parent.handle)
    (filtered : List (CoordinatorRelation J F)) where
  get_view :
      (h : ℕ)
      → get h (put arena.next_handle view_record arena.view_records)
        ≡ (if h == arena.next_handle then some view_record else get h arena.view_records)
  get_view h = get-put h arena.next_handle view_record arena.view_records

  own_parent : get view_record.parent_handle.handle arena.records ≡ some parent
  own_parent =
      subst (λ h. get h arena.records ≡ some parent)
        (sym (ap (λ ref. ref.handle) named ∙ w.owned parent_id parent alive)) alive

  new_parent :
      (h : ℕ) (v : CoordinatorDataViewRecord J)
      → get h (put arena.next_handle view_record arena.view_records) ≡ some v
      → (r : CoordinatorDataHandleRecord) × (get v.parent_handle.handle arena.records ≡ some r)
        × (v.parent_handle ≡ r.handle)
  new_parent h v e = elim (Bool-cases (h == arena.next_handle)) [
    | inl at ↦
        let same : view_record ≡ v = ground (arith, get_view h) in
        subst
          (λ u.
            (r : CoordinatorDataHandleRecord) × (get u.parent_handle.handle arena.records ≡ some r)
            × (u.parent_handle ≡ r.handle))
          same (parent, own_parent, named)
    | inr off ↦ w.has_parent h v (ground (arith, get_view h))
  ]

  pub insert_view-IsWellFormed : IsWellFormed (insert_view arena view_record filtered)
  unfolding insert_view
  insert_view-IsWellFormed = record {
    is_issued = λ h m. ground (arith, w.is_issued h m);
    is_issued_view =
        λ h m. ground (arith, w.is_issued_view h, get_view h, ==_iff h arena.next_handle);
    apart = λ h m. ground (arith, w.apart h, w.is_issued h, get_view h, ==_iff h arena.next_handle);
    owned = w.owned;
    has_record = w.has_record;
    has_relations = λ h. ground (
      arith,
      w.has_relations h,
      get_view h,
      get-put h arena.next_handle (record { records = filtered }) arena.view_relations,
    );
    has_parent = new_parent;
    unrepeated = subst Distinct (sym (keys-put arena.next_handle view_record arena.view_records)) (
        insert-Distinct arena.next_handle (keys arena.view_records)
          (ground (arith, contains-keys arena.next_handle arena.view_records, fresh_view arena w))
          w.unrepeated);
  }
