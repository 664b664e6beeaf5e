-- ===== src/Handle/Tables.antt =====
-- crates/dag-ml-data-core/src/handle.rs: target and feature tables, and their validation.
use dag_ml_data.Common.{
  ℕ, suc, Bool, true, false, not, ◌&&◌, Option, none, some, List, [], ◌∷◌, ◌++◌, nat_eq,
  if◌then◌else◌, length, is_empty, any,
}
use dag_ml_data.Order.{◌==◌, nat_ord, list_ord}
use dag_ml_data.Text.{Text, text, is_blank, decimal}
use dag_ml_data.Collections.{Map, values, put, get, contains, insert}
use dag_ml_data.Error.{DataError, validation, Result, ok, err, ◌>>=◌, ◌>>◌, done, refuse, ok_or}
use dag_ml_data.Order.{pair_ord}
use dag_ml_data.Relation.Folds.{quote}
use dag_ml_data.Order.{option_ord}
use dag_ml_data.Json.{Json, Kind, null, bool, number, string, array, object}
use dag_ml_data.Handle.Requests.{DataView, validate_non_empty}

pub record CoordinatorTargetValue (J : Type 0) : Type 0 where
  pub sample_id : Text
  pub value : J

pub record CoordinatorTargetTable (J : Type 0) : Type 0 where
  pub target_id : Text
  pub entries : List (CoordinatorTargetValue J)

pub data TargetValueKind : Type 0 where
  numeric_value label_value : TargetValueKind

pub record TargetValueShape : Type 0 where
  pub kind : TargetValueKind
  pub width : Option ℕ

pub record CoordinatorFeatureRow (J : Type 0) : Type 0 where
  pub observation_id : Text
  pub cells : List J

pub record CoordinatorFeatureTable (J : Type 0) : Type 0 where
  pub feature_set_id : Text
  pub representation_id : Text
  pub feature_names : List Text
  pub rows : List (CoordinatorFeatureRow J)

-- The result of code whose errors are fixed texts.
pub data Checked {ℓ} (A : Type ℓ) : Type ℓ where
  bad : (reason : Text) → Checked A
  good : (value : A) → Checked A

abbrev pub is_number : TargetValueKind → Bool
is_number numeric_value = true
is_number label_value = false

abbrev pub same_kind : TargetValueKind → TargetValueKind → Bool
same_kind numeric_value kind = is_number kind
same_kind label_value kind = not (is_number kind)

unfoldable pub describe_target_width : Option ℕ → Text
describe_target_width none = text "a scalar value"
describe_target_width (some width) = quote "a vector of " (decimal width) " values"

module _ {J : Type 0} where
  unfoldable pub check_values :
      Text → List Text → List (CoordinatorTargetValue J) → Result (Unit {0})
  check_values target_id seen [] = done
  check_values target_id seen (entry ∷ entries) =
      refuse (contains entry.sample_id seen) (
        validation (
          quote "target table `" target_id "` contains duplicate sample `"
          ++ (entry.sample_id ++ text "`")))
      >> check_values target_id (insert entry.sample_id seen) entries

  -- `CoordinatorTargetTable::validate`.
  unfoldable pub validate_targets : CoordinatorTargetTable J → Result (Unit {0})
  unfolding check_values
  validate_targets table = do
    refuse (is_empty table.entries)
        (validation (quote "target table `" table.target_id "` contains no values"))
    check_values table.target_id [] table.entries

  unfoldable pub scalar_kind : Kind J → Checked TargetValueKind
  scalar_kind number = good numeric_value
  scalar_kind (string label) =
      if is_blank label then bad (text "an empty string label") else good label_value
  scalar_kind null = bad (text "a missing (null) value")
  scalar_kind (bool b) = bad (text "a boolean value")
  scalar_kind (object entries) = bad (text "an object value")
  scalar_kind (array values) = bad (text "a nested array")

  -- `value_error`.
  unfoldable pub value_error :
      CoordinatorTargetTable J → CoordinatorTargetValue J → Text → DataError
  value_error table entry reason = validation (
      quote "target table `" table.target_id "` has "
      ++ (reason
          ++ (quote " for sample `" entry.sample_id
              "`; target values must all be finite numbers or all non-empty string labels, as scalars or as equal-length vectors (drop samples with missing targets before building the provider)")))

module _ {J : Type 0} (json : Json J) where
  unfoldable pub target_scalar_kind : J → Checked TargetValueKind
  unfolding scalar_kind
  target_scalar_kind value = scalar_kind (json.kind value)

  -- `item_kind? != kind`.
  abbrev pub same_item : TargetValueKind → Checked TargetValueKind → Checked (Unit {0})
  same_item kind (bad reason) = bad reason
  same_item kind (good item) =
      if same_kind item kind
      then good tt
      else bad (text "a vector mixing numbers and string labels")

  abbrev pub and_then {ℓ κ} : {A : Type ℓ} {B : Type κ} → Checked A → (A → Checked B) → Checked B
  and_then (bad reason) next = bad reason
  and_then (good value) next = next value

  unfoldable pub check_items : TargetValueKind → List J → Checked (Unit {0})
  unfolding target_scalar_kind
  check_items kind [] = good tt
  check_items kind (item ∷ items) =
      let rest = check_items kind items in
      and_then (same_item kind (target_scalar_kind item)) (λ _. rest)

  unfoldable pub vector_shape : List J → Checked TargetValueShape
  unfolding check_items
  vector_shape [] = bad (text "an empty array")
  vector_shape (item ∷ items) = and_then (target_scalar_kind item) (λ kind.
      and_then (check_items kind items)
        (λ _. good (record { kind = kind; width = some (length (item ∷ items)) })))

  unfoldable pub shape_of : J → Kind J → Checked TargetValueShape
  unfolding vector_shape
  shape_of value (array items) = vector_shape items
  shape_of value _ =
      and_then (target_scalar_kind value) (λ kind. good (record { kind = kind; width = none }))

  unfoldable pub target_value_shape : J → Checked TargetValueShape
  unfolding shape_of
  target_value_shape value = shape_of value (json.kind value)

  abbrev pub map_err {ℓ} : {A : Type ℓ} → (Text → DataError) → Checked A → Result A
  map_err f (bad reason) = err (f reason)
  map_err f (good value) = ok value

  unfoldable pub shapes_of :
      CoordinatorTargetTable J → List (CoordinatorTargetValue J) → Result (List TargetValueShape)
  unfolding target_value_shape
  shapes_of table [] = ok []
  shapes_of table (entry ∷ entries) = do
    shape ← map_err (value_error table entry) (target_value_shape entry.value)
    shapes ← shapes_of table entries
    ok (shape ∷ shapes)

  -- The loop over `values.iter().zip(&shapes)`, with the first sample and its width.
  unfoldable pub check_shapes :
      CoordinatorTargetTable J
      → Bool
      → Text
      → Option ℕ
      → List (CoordinatorTargetValue J)
      → List TargetValueShape
      → Result (Unit {0})
  check_shapes table has_number first_sample first_width (entry ∷ entries) (shape ∷ shapes) = do
    refuse (has_number && not (is_number shape.kind))
        (value_error table entry (text "a non-numeric string value in a numeric target"))
    refuse (not (shape.width == first_width)) (
        value_error table entry (
          describe_target_width shape.width
          ++ (quote " where sample `" first_sample "` has " ++ describe_target_width first_width)))
    check_shapes table has_number first_sample first_width entries shapes
  check_shapes table has_number first_sample first_width _ _ = done

  -- `self.values[0]` and `shapes[0]`: a valid table has a value.
  unfoldable pub check_from_first :
      CoordinatorTargetTable J
      → List (CoordinatorTargetValue J)
      → List TargetValueShape
      → Result (Unit {0})
  unfolding check_shapes
  check_from_first table (first ∷ entries) (first_shape ∷ shapes) =
      check_shapes table (any (λ shape. is_number shape.kind) (first_shape ∷ shapes))
        first.sample_id first_shape.width (first ∷ entries) (first_shape ∷ shapes)
  check_from_first table _ _ = done

  -- `CoordinatorTargetTable::validate_values`.
  unfoldable pub validate_target_values : CoordinatorTargetTable J → Result (Unit {0})
  unfolding shapes_of check_from_first
  validate_target_values table = do
    validate_targets table
    shapes ← shapes_of table table.entries
    check_from_first table table.entries shapes

unfoldable pub check_features : Text → List Text → List Text → Result (Unit {0})
check_features feature_set_id seen [] = done
check_features feature_set_id seen (name ∷ names) = do
  validate_non_empty (text "feature_name") name
  refuse (contains name seen) (
      validation (
        quote "feature table `" feature_set_id "` contains duplicate feature `"
        ++ (name ++ text "`")))
  check_features feature_set_id (insert name seen) names

module _ {J : Type 0} where
  unfoldable pub check_feature_rows :
      Text → ℕ → List Text → List (CoordinatorFeatureRow J) → Result (Unit {0})
  check_feature_rows feature_set_id width seen [] = done
  check_feature_rows feature_set_id width seen (row ∷ rows) = do
    refuse (contains row.observation_id seen) (
        validation (
          quote "feature table `" feature_set_id "` contains duplicate observation `"
          ++ (row.observation_id ++ text "`")))
    refuse (not (nat_eq (length row.cells) width)) (
        validation (
          quote "feature table `" feature_set_id "` row `"
          ++ (row.observation_id
              ++ (quote "` has " (decimal (length row.cells)) " values for "
                  ++ (decimal width ++ text " features")))))
    check_feature_rows feature_set_id width (insert row.observation_id seen) rows

  -- `CoordinatorFeatureTable::validate`.
  unfoldable pub validate_features : CoordinatorFeatureTable J → Result (Unit {0})
  unfolding check_features check_feature_rows
  validate_features table = do
    validate_non_empty (text "feature_set_id") table.feature_set_id
    refuse (is_empty table.feature_names)
        (validation (quote "feature table `" table.feature_set_id "` contains no features"))
    check_features table.feature_set_id [] table.feature_names
    refuse (is_empty table.rows)
        (validation (quote "feature table `" table.feature_set_id "` contains no rows"))
    check_feature_rows table.feature_set_id (length table.feature_names) [] table.rows

-- `index_by_name`.
unfoldable pub index_by_name : ℕ → List Text → Map Text ℕ → Map Text ℕ
index_by_name idx [] found = found
index_by_name idx (name ∷ names) found = index_by_name (suc idx) names (put name idx found)

unfoldable pub column_indices : Text → Map Text ℕ → List Text → Result (List ℕ)
column_indices feature_set_id found [] = ok []
column_indices feature_set_id found (column ∷ columns) = do
  idx ← ok_or (get column found) (
      validation (
        quote "feature table `" feature_set_id "` has no feature column `" ++ (column ++ text "`")))
  rest ← column_indices feature_set_id found columns
  ok (idx ∷ rest)

-- `(0..n).collect()`, from a start.
unfoldable pub range_from : ℕ → List Text → List ℕ
range_from idx [] = []
range_from idx (name ∷ names) = idx ∷ range_from (suc idx) names

module _ {J : Type 0} where
  unfoldable pub indices_of : CoordinatorFeatureTable J → Option (List Text) → Result (List ℕ)
  unfolding index_by_name column_indices range_from
  indices_of table none = ok (range_from 0 table.feature_names)
  indices_of table (some columns) =
      column_indices table.feature_set_id (index_by_name 0 table.feature_names []) columns

  unfoldable pub selected_feature_indices : CoordinatorFeatureTable J → DataView J → Result (List ℕ)
  unfolding indices_of
  selected_feature_indices table view = do
    indices ← indices_of table view.columns
    refuse (is_empty indices)
        (validation (quote "feature table `" table.feature_set_id "` selected no feature columns"))
    ok indices
