-- ===== src/Handle/Columns.antt =====
-- crates/dag-ml-data-core/src/handle.rs: the cells of a feature table under the names of its columns.
use dag_ml_data.Handle.Blocks.{some_injective}
use dag_ml_data.Handle.Requests.{DataView}
use dag_ml_data.Handle.Features.{items_at}
use dag_ml_data.Handle.Tables.{
  CoordinatorFeatureTable, index_by_name, column_indices, range_from, selected_feature_indices,
  indices_of,
}
use dag_ml_data.Common.{
  ℕ, suc, ◌+◌, ◌≡◌, refl, sym, ap, ◌∙◌, subst, ◌⊎◌, inl, inr, Option, none, some, List, [], ◌∷◌,
  ◌++◌, arith, if◌then◌else◌, Bool-cases,
}
use dag_ml_data.Order.{◌==◌, ==_iff, nat_ord, list_ord}
use dag_ml_data.Text.{Text, text}
use dag_ml_data.Collections.{Map, put, get, get-put}
use dag_ml_data.Error.{ok_or_found, ok_injective, validation, ok, ◌>>=◌, ok_or, >>=-eq-ok}
use dag_ml_data.Order.{pair_ord}
use dag_ml_data.Relation.Folds.{quote}
use dag_ml_data.Common.{get_elem?}

-- The cell of a row under a name, the cells and the names side by side.
unfoldable pub cell_of {ℓ} : {A : Type ℓ} → List Text → List A → Text → Option A
cell_of [] cells name = none
cell_of (column ∷ columns) [] name = none
cell_of (column ∷ columns) (cell ∷ cells) name =
    let rest = cell_of columns cells name in if name == column then some cell else rest

-- The cells of a row under some names.
unfoldable pub Cells : {A : Type 0} → List Text → List A → List Text → List A → Type 0
unfolding cell_of
Cells columns row [] [] = Unit
Cells columns row (name ∷ names) (cell ∷ cells) =
    (cell_of columns row name ≡ some cell) × Cells columns row names cells
Cells columns row [] (cell ∷ cells) = ⊥
Cells columns row (name ∷ names) [] = ⊥

index_by_name_at :
    (idx : ℕ) (names : List Text) (found : Map Text ℕ) (name : Text) (i : ℕ)
    → get name (index_by_name idx names found) ≡ some i
    → ((j : ℕ) × (i ≡ idx + j) × (get_elem? names j ≡ some name)) ⊎ (get name found ≡ some i)
unfolding index_by_name
index_by_name_at idx [] found name i at = inr at
index_by_name_at idx (n ∷ names) found name i at =
    elim (index_by_name_at (suc idx) names (put n idx found) name i at) [
      | inl (j, same, later) ↦ inl (suc j, omega arith, later)
      | inr here ↦ elim (Bool-cases (name == n)) [
        | inl e ↦
            inl (0, ground (arith, here, get-put name n idx found), ground (arith, ==_iff name n))
        | inr e ↦ inr (ground (arith, get-put name n idx found))
      ]
    ]

column_at :
    (names : List Text) (name : Text) (i : ℕ)
    → get name (index_by_name 0 names []) ≡ some i
    → get_elem? names i ≡ some name
unfolding get
column_at names name i at = elim (index_by_name_at 0 names [] name i at) [
  | inl (j, same, later) ↦ subst (λ k. get_elem? names k ≡ some name) (omega arith) later
  | inr never ↦ cc
]

column_indices_names :
    (feature_set_id : Text) (names columns : List Text) (indices : List ℕ)
    → column_indices feature_set_id (index_by_name 0 names []) columns ≡ ok indices
    → items_at names indices ≡ some columns
unfolding column_indices items_at
column_indices_names feature_set_id names [] indices fine =
    subst (λ is. items_at names is ≡ some []) (ok_injective fine) refl
column_indices_names feature_set_id names (column ∷ columns) indices fine =
    let found = index_by_name 0 names [] in
    let missing = validation (
      quote "feature table `" feature_set_id "` has no feature column `" ++ (column ++ text "`")) in
    let (idx, at, h) =
      >>=-eq-ok (ok_or (get column found) missing)
        (λ idx. column_indices feature_set_id found columns >>= λ rest. ok (idx ∷ rest)) fine in
    let (rest, later, made) =
      >>=-eq-ok (column_indices feature_set_id found columns) (λ rest. ok (idx ∷ rest)) h in
    let here = column_at names column idx (ok_or_found (get column found) missing at) in
    let others = column_indices_names feature_set_id names columns rest later in
    subst (λ is. items_at names is ≡ some (column ∷ columns)) (ok_injective made)
      (ground (arith, here, others))

items_at_range :
    (all_names names : List Text) (idx : ℕ)
    → ((j : ℕ) → get_elem? all_names (idx + j) ≡ get_elem? names j)
    → items_at all_names (range_from idx names) ≡ some names
unfolding range_from items_at
items_at_range all_names [] idx same = refl
items_at_range all_names (name ∷ names) idx same =
    let here : get_elem? all_names idx ≡ some name =
      subst (λ k. get_elem? all_names k ≡ some name) (omega arith) (same 0) in
    let rest =
      items_at_range all_names names (suc idx) (λ j.
        subst (λ k. get_elem? all_names k ≡ get_elem? names j) (omega arith) (same (suc j))) in
    ground (arith, here, rest)

-- The names at the selected indices: those that the view names, or all.
unfoldable pub IsColumns : Option (List Text) → List Text → List Text → Type 0
IsColumns none columns names = names ≡ columns
IsColumns (some wanted) columns names = names ≡ wanted

module _ {J : Type 0} where
  pub indices_of-IsColumns :
      (table : CoordinatorFeatureTable J) (wanted : Option (List Text)) (indices : List ℕ)
      (names : List Text)
      → indices_of table wanted ≡ ok indices
      → items_at table.feature_names indices ≡ some names
      → IsColumns wanted table.feature_names names
  unfolding indices_of IsColumns
  indices_of-IsColumns table none indices names fine at =
      let all_names =
        items_at_range table.feature_names table.feature_names 0
          (λ j. ap (get_elem? table.feature_names) (omega arith)) in
      let same =
        subst (λ is. items_at table.feature_names is ≡ some table.feature_names) (ok_injective fine)
          all_names in
      some_injective (sym at ∙ same)
  indices_of-IsColumns table (some wanted) indices names fine at =
      some_injective
        (sym at ∙ column_indices_names table.feature_set_id table.feature_names wanted indices fine)

  pub selected-IsColumns :
      (table : CoordinatorFeatureTable J) (view : DataView J) (indices : List ℕ) (names : List Text)
      → selected_feature_indices table view ≡ ok indices
      → items_at table.feature_names indices ≡ some names
      → IsColumns view.columns table.feature_names names
  unfolding selected_feature_indices
  selected-IsColumns table view indices names fine at =
      indices_of-IsColumns table view.columns indices names (ground arith) at
