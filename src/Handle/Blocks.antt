-- ===== src/Handle/Blocks.antt =====
-- crates/dag-ml-data-core/src/handle.rs: `feature_values` never indexes out of range, and what it returns.
use dag_ml_data.Handle.Requests.{DataView}
use dag_ml_data.Handle.Tables.{
  check_feature_rows, CoordinatorFeatureTable, indices_of, CoordinatorFeatureRow,
  selected_feature_indices, index_by_name, range_from, column_indices,
}
use dag_ml_data.Handle.Features.{rows_by_observation, items_at}
use dag_ml_data.Common.{
  get_elem?, ℕ, zero, suc, ◌+◌, ◌≤◌, ◌<◌, ◌≡◌, refl, ap, subst, inl, inr, Option, none, some, List,
  [], ◌∷◌, ◌++◌, arith, Bool-cases, length, All,
}
use dag_ml_data.Order.{Ord, ◌==◌, nat_ord, list_ord}
use dag_ml_data.Text.{Text, text}
use dag_ml_data.Collections.{Map, values, put, get, insert}
use dag_ml_data.Error.{ok_or_found, ok_injective, validation, ok, ◌>>=◌, done, ok_or, >>=-eq-ok}
use dag_ml_data.Order.{pair_ord}
use dag_ml_data.Relation.Folds.{quote}
use dag_ml_data.Collections.{put-All}

pub some_injective {ℓ} : {A : Type ℓ} {a b : A} → some a ≡ some b → a ≡ b
some_injective same = cc

pub get-All {ℓ κ μ} :
    {K : Type ℓ} {V : Type κ} ⦃o : Ord K⦄ (P : V → Type μ) (k : K) (v : V) (m : Map K V)
    → All P (values m)
    → get k m ≡ some v
    → P v
unfolding get
get-All P k v [] held at = cc
get-All P k v ((j, w) ∷ m) held at = elim (Bool-cases (k == j)) [
  | inl e ↦ subst P (some_injective (ground arith)) held.0
  | inr e ↦ get-All P k v m held.1 (ground arith)
]

get_elem?_within {ℓ} :
    {A : Type ℓ} (items : List A) (idx : ℕ)
    → idx < length items
    → (item : A) × (get_elem? items idx ≡ some item)
get_elem?_within [] idx within = absurd (omega arith)
get_elem?_within (item ∷ items) zero within = (item, refl)
get_elem?_within (item ∷ items) (suc idx) within = get_elem?_within items idx (omega arith)

pub items_at_within {ℓ} :
    {A : Type ℓ} (items : List A) (indices : List ℕ)
    → All (λ idx. idx < length items) indices
    → (out : List A) × (items_at items indices ≡ some out) × (length out ≡ length indices)
unfolding items_at
items_at_within items [] within = ([], refl, refl)
items_at_within items (idx ∷ indices) within =
    let (out, at, same) = items_at_within items indices within.1 in
    let (item, found) = get_elem?_within items idx within.0 in
    (item ∷ out, ground (arith, at, found), ap (λ n. suc n) same)

module _ {J : Type 0} where
  pub check_feature_rows_widths :
      (feature_set_id : Text) (width : ℕ) (seen : List Text) (rows : List (CoordinatorFeatureRow J))
      → check_feature_rows feature_set_id width seen rows ≡ done
      → All (λ row. length row.cells ≡ width) rows
  unfolding check_feature_rows
  check_feature_rows_widths feature_set_id width seen [] accepted = tt
  check_feature_rows_widths feature_set_id width seen (row ∷ rows) accepted = (
    ground arith,
    check_feature_rows_widths feature_set_id width (insert row.observation_id seen) rows
        (ground arith),
  )

  pub rows_by_observation-All :
      (P : CoordinatorFeatureRow J → Type 0) (rows : List (CoordinatorFeatureRow J))
      (found : Map Text (CoordinatorFeatureRow J))
      → All P rows
      → All P (values found)
      → All P (values (rows_by_observation rows found))
  unfolding rows_by_observation
  rows_by_observation-All P [] found held here = here
  rows_by_observation-All P (row ∷ rows) found held here =
      rows_by_observation-All P rows (put row.observation_id row found) held.1
        (put-All P row.observation_id row found held.0 here)

index_by_name_below :
    (bound idx : ℕ) (names : List Text) (found : Map Text ℕ)
    → idx + length names ≤ bound
    → All (λ i. i < bound) (values found)
    → All (λ i. i < bound) (values (index_by_name idx names found))
unfolding index_by_name
index_by_name_below bound idx [] found room here = here
index_by_name_below bound idx (name ∷ names) found room here =
    index_by_name_below bound (suc idx) names (put name idx found) (omega arith)
      (put-All (λ i. i < bound) name idx found (omega arith) here)

range_from_below :
    (bound idx : ℕ) (names : List Text)
    → idx + length names ≤ bound
    → All (λ i. i < bound) (range_from idx names)
unfolding range_from
range_from_below bound idx [] room = tt
range_from_below bound idx (name ∷ names) room =
    (omega arith, range_from_below bound (suc idx) names (omega arith))

column_indices_below :
    (bound : ℕ) (feature_set_id : Text) (found : Map Text ℕ) (columns : List Text)
    (indices : List ℕ)
    → All (λ i. i < bound) (values found)
    → column_indices feature_set_id found columns ≡ ok indices
    → All (λ i. i < bound) indices
unfolding column_indices
column_indices_below bound feature_set_id found [] indices held fine =
    subst (All (λ i. i < bound)) (ok_injective fine) tt
column_indices_below bound feature_set_id found (column ∷ columns) indices held fine =
    let missing = validation (
      quote "feature table `" feature_set_id "` has no feature column `" ++ (column ++ text "`")) in
    let (idx, at, h) =
      >>=-eq-ok (ok_or (get column found) missing)
        (λ idx. column_indices feature_set_id found columns >>= λ rest. ok (idx ∷ rest)) fine in
    let (rest, below, made) =
      >>=-eq-ok (column_indices feature_set_id found columns) (λ rest. ok (idx ∷ rest)) h in
    subst (All (λ i. i < bound)) (ok_injective made) (
      get-All (λ i. i < bound) column idx found held (ok_or_found (get column found) missing at),
      column_indices_below bound feature_set_id found columns rest held below,
    )

module _ {J : Type 0} where
  indices_below :
      (table : CoordinatorFeatureTable J) (columns : Option (List Text)) (indices : List ℕ)
      → indices_of table columns ≡ ok indices
      → All (λ i. i < length table.feature_names) indices
  unfolding indices_of
  indices_below table none indices fine =
      subst (All (λ i. i < length table.feature_names)) (ok_injective fine)
        (range_from_below (length table.feature_names) 0 table.feature_names (omega arith))
  indices_below table (some columns) indices fine =
      column_indices_below (length table.feature_names) table.feature_set_id
        (index_by_name 0 table.feature_names []) columns indices
        (index_by_name_below (length table.feature_names) 0 table.feature_names [] (omega arith) tt)
        fine

  pub selected_below :
      (table : CoordinatorFeatureTable J) (view : DataView J) (indices : List ℕ)
      → selected_feature_indices table view ≡ ok indices
      → All (λ i. i < length table.feature_names) indices
  unfolding selected_feature_indices
  selected_below table view indices fine = indices_below table view.columns indices (ground arith)
