-- ===== src/Handle/Selection.antt =====
-- crates/dag-ml-data-core/src/handle.rs: which relations a view takes, and in which order.
use dag_ml_data.Handle.Places.{position_named, last_index, InOrder}
use dag_ml_data.Handle.Selected.{selects_iff}
use dag_ml_data.Handle.Filters.{IsSelected, OfSamples}
use dag_ml_data.Common.Sorting.{
  Ascending-same, sort_by-All, sort_by-Ascending, Ascending-map, sort_by-Perm, perm_self, sort_by,
  perm-map, Ascending,
}
use dag_ml_data.Handle.Requests.{DataView}
use dag_ml_data.Coordinator.Branches.{NativeBranchViewFilter}
use dag_ml_data.Json.{Json}
use dag_ml_data.Handle.Views.{
  branch_filters, selects, select_from, position_in, BranchFilters, filter_relations, relations_of,
  positions, cmp_position, in_view_order,
}
use dag_ml_data.Coordinator.Relations.{CoordinatorRelation}
use dag_ml_data.Common.{
  inr, All-map, if◌then◌else◌, inl, Bool-cases, ◌↔◌, true, All, Ordering, ℕ, suc, ◌≤◌, ◌≡◌, refl,
  sym, ap, ◌∙◌, subst, ◌≢◌, ◌⊎◌, false, Option, none, some, List, [], ◌∷◌, arith, is_empty, filter,
  map,
}
use dag_ml_data.Order.{nat_ord, list_ord}
use dag_ml_data.Text.{Text, text}
use dag_ml_data.Collections.{contains, Map}
use dag_ml_data.Error.{ok_injective, validation, ok, ◌>>◌, refuse, refuse_iff, >>=-eq-ok}
use dag_ml_data.Order.{pair_ord}
use dag_ml_data.Error.{>>-eq-ok}
use mathlib.Core.List.{Permᴰ}

module _ {J F : Type 0} (json : Json J) (view : DataView J) (branch : BranchFilters J) where
  relations_of-select_from :
      (idx : ℕ) (relations : List (CoordinatorRelation J F))
      → relations_of (select_from json view branch idx relations)
        ≡ filter (selects json view branch) relations
  unfolding select_from
  relations_of-select_from idx [] = refl
  relations_of-select_from idx (relation ∷ relations) =
      ground (arith, relations_of-select_from (suc idx) relations)

  select_from-empty :
      (idx : ℕ) (relations : List (CoordinatorRelation J F))
      → is_empty (select_from json view branch idx relations)
        ≡ is_empty (filter (selects json view branch) relations)
  unfolding select_from
  select_from-empty idx [] = refl
  select_from-empty idx (relation ∷ relations) =
      ground (arith, select_from-empty (suc idx) relations)

module _ {J F : Type 0} where
  relations_of-map :
      (found : List (ℕ × CoordinatorRelation J F))
      → relations_of found ≡ map (λ entry. entry.1) found
  relations_of-map [] = refl
  relations_of-map ((idx, relation) ∷ found) = ap (λ t. relation ∷ t) (relations_of-map found)

  position_above :
      (order : Map Text ℕ) (x y : ℕ × CoordinatorRelation J F)
      → cmp_position order x y ≡ Ordering.gt
      → position_in order y.1.sample_id ≤ position_in order x.1.sample_id
  unfolding cmp_position
  position_above order (i, a) (j, b) h = ground arith

  position_below :
      (order : Map Text ℕ) (x y : ℕ × CoordinatorRelation J F)
      → cmp_position order x y ≢ Ordering.gt
      → position_in order x.1.sample_id ≤ position_in order y.1.sample_id
  unfolding cmp_position
  position_below order (i, a) (j, b) h = ground arith

  relations_of-Perm :
      {xs ys : List (ℕ × CoordinatorRelation J F)}
      → Permᴰ xs ys
      → Permᴰ (relations_of xs) (relations_of ys)
  relations_of-Perm {xs} {ys} same =
      subst (λ a. Permᴰ a (relations_of ys)) (sym (relations_of-map xs))
        (subst (λ b. Permᴰ (map (λ entry. entry.1) xs) b) (sym (relations_of-map ys))
          (perm-map (λ entry. entry.1) same))

  in_view_order-Perm :
      (samples : Option (List Text)) (found : List (ℕ × CoordinatorRelation J F))
      → Permᴰ (relations_of (in_view_order samples found)) (relations_of found)
  unfolding in_view_order
  in_view_order-Perm none found = perm_self (relations_of found)
  in_view_order-Perm (some samples) found =
      relations_of-Perm (sort_by-Perm (cmp_position (positions 0 samples [])) found)

  in_view_order-InOrder :
      (samples : Option (List Text)) (found : List (ℕ × CoordinatorRelation J F))
      → All (λ entry. OfSamples samples entry.1) found
      → InOrder samples (relations_of (in_view_order samples found))
  unfolding in_view_order InOrder OfSamples
  in_view_order-InOrder none found held = tt
  in_view_order-InOrder (some samples) found held =
      let order = positions 0 samples [] in
      let place = λ (entry : ℕ × CoordinatorRelation J F). position_in order entry.1.sample_id in
      let last = λ (entry : ℕ × CoordinatorRelation J F). last_index samples entry.1.sample_id in
      let sorted = sort_by (cmp_position order) found in
      let named =
        sort_by-All (cmp_position order) (λ entry. contains entry.1.sample_id samples ≡ true) found
          held in
      let same = All-map (λ entry h. position_named samples entry.1.sample_id h) sorted named in
      subst (Ascending (λ relation. last_index samples relation.sample_id))
        (sym (relations_of-map sorted))
        (Ascending-map (λ relation. last_index samples relation.sample_id) (λ entry. entry.1) sorted
          (Ascending-same place last sorted same (
            sort_by-Ascending (cmp_position order) place (position_above order)
              (position_below order) found)))

  in_view_order-none :
      (samples : Option (List Text)) (found : List (ℕ × CoordinatorRelation J F))
      → samples ≡ none
      → in_view_order samples found ≡ found
  unfolding in_view_order
  in_view_order-none none found given = refl
  in_view_order-none (some samples) found given = cc

-- What a view takes of some relations: those that it asks for and no other, in the order of the relations
-- or of the samples that it names.
pub record IsSelection {J F : Type 0} (json : Json J)
    (read_filter : J → Text ⊎ NativeBranchViewFilter J) (view : DataView J)
    (branch : BranchFilters J) (relations kept : List (CoordinatorRelation J F)) : Type 0 where
  pub nonempty : is_empty (filter (selects json view branch) relations) ≡ false
  pub exact : Permᴰ kept (filter (selects json view branch) relations)
  pub asked :
      (relation : CoordinatorRelation J F)
      → (selects json view branch relation ≡ true) ↔ IsSelected read_filter view relation
  pub in_order : InOrder view.sample_ids kept
  pub as_given : view.sample_ids ≡ none → kept ≡ filter (selects json view branch) relations

module _ {J F : Type 0} (json : Json J) (read_filter : J → Text ⊎ NativeBranchViewFilter J) where
  select_from-OfSamples :
      (view : DataView J) (branch : BranchFilters J)
      → branch_filters json read_filter view.branch_view ≡ ok branch
      → (idx : ℕ) (relations : List (CoordinatorRelation J F))
      → All
          (λ entry. OfSamples view.sample_ids entry.1)
          (select_from json view branch idx relations)
  unfolding select_from
  select_from-OfSamples view branch fine idx [] = tt
  select_from-OfSamples view branch fine idx (relation ∷ relations) =
      let rest = select_from-OfSamples view branch fine (suc idx) relations in
      elim (Bool-cases (selects json view branch relation)) [
        | inl at ↦
            let held =
              IsSelected.of_sample
                ((selects_iff json read_filter view branch fine relation).0 at) in
            subst
              (λ b.
                All (λ entry. OfSamples view.sample_ids entry.1)
                  (if b
                    then (idx, relation) ∷ select_from json view branch (suc idx) relations
                    else select_from json view branch (suc idx) relations))
              (sym at) (held, rest)
        | inr at ↦
            subst
              (λ b.
                All (λ entry. OfSamples view.sample_ids entry.1)
                  (if b
                    then (idx, relation) ∷ select_from json view branch (suc idx) relations
                    else select_from json view branch (suc idx) relations))
              (sym at) rest
      ]

  -- The relations that a view takes, when `filter_relations` returns them, are exactly those that it asks
  -- for, each as often as it is given, at least one: a relation of one of its samples, if it names
  -- samples; of one of its sources, if it names sources; with the sources, metadata or tags that the mode
  -- of its branch view constrains, or the metadata and tags of the native filter that is read; augmented
  -- or excluded only if the view includes such relations. They come in the order of the last place where
  -- the view names their sample, if it names samples, and else in the given order.
  pub filter_relations-IsSelection :
      (relations : List (CoordinatorRelation J F)) (view : DataView J)
      (kept : List (CoordinatorRelation J F))
      → filter_relations json read_filter relations view ≡ ok kept
      → (branch : BranchFilters J) × (branch_filters json read_filter view.branch_view ≡ ok branch)
        × IsSelection json read_filter view branch relations kept
  unfolding filter_relations
  filter_relations-IsSelection relations view kept fine =
      let found = λ (branch : BranchFilters J). select_from json view branch 0 relations in
      let taken =
        λ (branch : BranchFilters J). relations_of (in_view_order view.sample_ids (found branch)) in
      let nothing = validation (text "data view selected no coordinator relations") in
      let (branch, at_branch, h1) =
        >>=-eq-ok (branch_filters json read_filter view.branch_view)
          (λ branch. refuse (is_empty (found branch)) nothing >> ok (taken branch)) fine in
      let (some_found, h2) =
        >>-eq-ok (refuse (is_empty (found branch)) nothing) (ok (taken branch)) h1 in
      let same = relations_of-select_from json view branch 0 relations in
      (
        branch,
        at_branch,
        subst (IsSelection json read_filter view branch relations) (ok_injective h2) (record {
          nonempty =
              sym (select_from-empty json view branch 0 relations)
              ∙ (refuse_iff (is_empty (found branch)) nothing).0 some_found;
          exact =
              subst (λ list. Permᴰ (taken branch) list) same
                (in_view_order-Perm view.sample_ids (found branch));
          asked = selects_iff json read_filter view branch at_branch;
          in_order =
              in_view_order-InOrder view.sample_ids (found branch)
                (select_from-OfSamples view branch at_branch 0 relations);
          as_given = λ given.
              ap relations_of (in_view_order-none view.sample_ids (found branch) given) ∙ same;
        }),
      )
