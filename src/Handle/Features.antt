-- ===== src/Handle/Features.antt =====
-- crates/dag-ml-data-core/src/handle.rs: `feature_values` of the arena.
use dag_ml_data.Coordinator.Relations.{CoordinatorRelation}
use dag_ml_data.Handle.Tables.{
  selected_feature_indices, validate_features, CoordinatorFeatureRow, CoordinatorFeatureTable,
}
use dag_ml_data.Handle.Arena.{view_identity, CoordinatorHandleArena}
use dag_ml_data.Common.{get_elem?, ℕ, not, Option, none, some, List, [], ◌∷◌, ◌++◌, map}
use dag_ml_data.Order.{◌==◌, nat_ord, list_ord}
use dag_ml_data.Text.{Text, text}
use dag_ml_data.Collections.{Map, put, get}
use dag_ml_data.Error.{
  DataError, unknown_handle, validation, Result, ok, err, ◌>>=◌, ◌>>◌, refuse, ok_or,
}
use dag_ml_data.Order.{pair_ord}
use dag_ml_data.Relation.Folds.{quote}
use dag_ml_data.Order.{option_ord}

pub record CoordinatorFeatureBlock (J : Type 0) : Type 0 where
  pub feature_set_id : Text
  pub representation_id : Text
  pub feature_names : List Text
  pub observation_ids : List Text
  pub sample_ids : List Text
  pub cells : List (List J)

-- `indices.iter().map(|idx| items[*idx].clone())`: `none` where the source panics.
unfoldable pub items_at {ℓ} : {A : Type ℓ} → List A → List ℕ → Option (List A)
items_at items [] = some []
items_at items (idx ∷ indices) =
    let rest = items_at items indices in
    elim (get_elem? items idx) [
      | none ↦ none
      | some item ↦ elim rest [ none ↦ none | some others ↦ some (item ∷ others) ]
    ]

-- The observation, the sample and the cells of a row of a block.
pub record BlockRow (J : Type 0) : Type 0 where
  pub observation_id : Text
  pub sample_id : Text
  pub cells : List J

module _ {J : Type 0} where
  -- `rows_by_observation`.
  unfoldable pub rows_by_observation :
      List (CoordinatorFeatureRow J)
      → Map Text (CoordinatorFeatureRow J)
      → Map Text (CoordinatorFeatureRow J)
  rows_by_observation [] found = found
  rows_by_observation (row ∷ rows) found =
      rows_by_observation rows (put row.observation_id row found)

abbrev pub add_row :
    {J : Type 0}
    → Option (BlockRow J)
    → Option (Result (List (BlockRow J)))
    → Option (Result (List (BlockRow J)))
add_row none rest = none
add_row (some row) none = none
add_row (some row) (some (err reason)) = some (err reason)
add_row (some row) (some (ok rows)) = some (ok (row ∷ rows))

abbrev pub feature_block :
    {J : Type 0}
    → CoordinatorFeatureTable J
    → Option (Result (List (BlockRow J)))
    → Option (List Text)
    → Option (Result (CoordinatorFeatureBlock J))
feature_block table none names = none
feature_block table (some (err reason)) names = some (err reason)
feature_block table (some (ok rows)) none = none
feature_block table (some (ok rows)) (some names) = some (
    ok (record {
      feature_set_id = table.feature_set_id;
      representation_id = table.representation_id;
      feature_names = names;
      observation_ids = map (λ row. row.observation_id) rows;
      sample_ids = map (λ row. row.sample_id) rows;
      cells = map (λ row. row.cells) rows;
    }))

module _ {J F : Type 0} where
  abbrev pub block_row : CoordinatorRelation J F → Option (List J) → Option (BlockRow J)
  block_row relation none = none
  block_row relation (some cells) = some (record {
    observation_id = relation.observation_id;
    sample_id = relation.sample_id;
    cells = cells;
  })

  abbrev pub missing_row : CoordinatorFeatureTable J → CoordinatorRelation J F → DataError
  missing_row table relation = validation (
      quote "feature table `" table.feature_set_id "` has no row for observation `"
      ++ (relation.observation_id ++ text "`"))

  -- The loop over the relations of the view, which ends at the first error.
  unfoldable pub feature_loop :
      CoordinatorFeatureTable J
      → Map Text (CoordinatorFeatureRow J)
      → List ℕ
      → List (CoordinatorRelation J F)
      → Option (Result (List (BlockRow J)))
  unfolding items_at
  feature_loop table found indices [] = some (ok [])
  feature_loop table found indices (relation ∷ relations) =
      let rest = feature_loop table found indices relations in
      elim (get relation.observation_id found) [
        | none ↦ some (err (missing_row table relation))
        | some row ↦ add_row (block_row relation (items_at row.cells indices)) rest
      ]

  -- The checks of `feature_values` before its loop: the relations of the view and the selected columns.
  unfoldable pub feature_inputs :
      CoordinatorHandleArena J F
      → ℕ
      → CoordinatorFeatureTable J
      → Result (List (CoordinatorRelation J F) × List ℕ)
  feature_inputs arena view_handle table = do
    validate_features table
    view ← ok_or (get view_handle arena.view_records) (unknown_handle (text "view") view_handle)
    parent ←
        ok_or (get view.parent_handle.handle arena.records)
          (unknown_handle (text "data") view.parent_handle.handle)
    refuse (not (table.representation_id == parent.output_representation)) (
        validation (
          quote "feature table `" table.feature_set_id "` representation `"
          ++ (table.representation_id
              ++ (quote "` does not match materialized output representation `"
                  parent.output_representation "`"))))
    relations ← view_identity arena view_handle
    indices ← selected_feature_indices table view.view
    ok (relations.records, indices)

  unfoldable pub feature_rows :
      CoordinatorFeatureTable J
      → Result (List (CoordinatorRelation J F) × List ℕ)
      → Option (Result (CoordinatorFeatureBlock J))
  unfolding feature_loop rows_by_observation items_at
  feature_rows table (err reason) = some (err reason)
  feature_rows table (ok (relations, indices)) =
      feature_block table (feature_loop table (rows_by_observation table.rows []) indices relations)
        (items_at table.feature_names indices)

  -- `CoordinatorHandleArena::feature_values`: `none` where the source panics.
  unfoldable pub feature_values :
      CoordinatorHandleArena J F
      → ℕ
      → CoordinatorFeatureTable J
      → Option (Result (CoordinatorFeatureBlock J))
  unfolding feature_inputs feature_rows
  feature_values arena view_handle table =
      feature_rows table (feature_inputs arena view_handle table)
