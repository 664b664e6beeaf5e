-- ===== src/Handle/Targets.antt =====
-- crates/dag-ml-data-core/src/handle.rs: `target_values` and `multi_target_values` of the arena.
use dag_ml_data.Handle.Arena.{view_identity, CoordinatorHandleArena}
use dag_ml_data.Coordinator.Relations.{CoordinatorRelation}
use dag_ml_data.Json.{is_null, Json}
use dag_ml_data.Handle.Tables.{
  validate_target_values, validate_targets, CoordinatorTargetTable, CoordinatorTargetValue,
}
use dag_ml_data.Common.{
  ℕ, Bool, true, false, not, ◌&&◌, Option, none, some, List, [], ◌∷◌, ◌++◌, if◌then◌else◌, is_empty,
  map,
}
use dag_ml_data.Order.{◌==◌, nat_ord, list_ord}
use dag_ml_data.Text.{Text, text, decimal}
use dag_ml_data.Collections.{Map, put, get, contains, insert, collect}
use dag_ml_data.Error.{DataError, validation, Result, ok, ◌>>=◌, ◌>>◌, done, refuse, ok_or}
use dag_ml_data.Order.{pair_ord}
use dag_ml_data.Relation.Folds.{quote}
use dag_ml_data.Order.{option_ord}

pub record CoordinatorTargetBlock (J : Type 0) : Type 0 where
  pub target_id : Text
  pub sample_ids : List Text
  pub target_row : List J

pub record CoordinatorMultiTargetBlock (J : Type 0) : Type 0 where
  pub target_ids : List Text
  pub sample_ids : List Text
  pub target_rows : List (List J)
  pub validity_masks : List (List Bool)

abbrev pub is_for : (Text → Bool) → Option Text → Bool
is_for wanted none = true
is_for wanted (some target_id) = wanted target_id

module _ {J : Type 0} where
  -- `values_by_sample`.
  unfoldable pub values_by_sample : List (CoordinatorTargetValue J) → Map Text J → Map Text J
  values_by_sample [] found = found
  values_by_sample (entry ∷ entries) found =
      values_by_sample entries (put entry.sample_id entry.value found)

-- The samples of the relations that are for a wanted target, each at its first relation.
module _ {J F : Type 0} where
  unfoldable pub samples_from :
      (Text → Bool) → List Text → List (CoordinatorRelation J F) → List Text
  samples_from wanted seen [] = []
  samples_from wanted seen (relation ∷ relations) =
      let rest = samples_from wanted seen relations in
      let fresh = samples_from wanted (insert relation.sample_id seen) relations in
      if is_for wanted relation.target_id && not (contains relation.sample_id seen)
      then relation.sample_id ∷ fresh
      else rest

abbrev pub no_samples : ℕ → Text → DataError
no_samples view_handle what =
    validation (quote "view `" (decimal view_handle) "` contains no samples for " ++ what)

module _ {J F : Type 0} where
  -- The loop of `target_values`: the samples, and the value of each.
  unfoldable pub target_loop :
      CoordinatorTargetTable J
      → Map Text J
      → List Text
      → List (CoordinatorRelation J F)
      → Result (List (Text × J))
  target_loop table found seen [] = ok []
  target_loop table found seen (relation ∷ relations) =
      let skipped = target_loop table found seen relations in
      let taken = target_loop table found (insert relation.sample_id seen) relations in
      if is_for (λ target_id. target_id == table.target_id) relation.target_id
        && not (contains relation.sample_id seen)
      then (ok_or (get relation.sample_id found) (
            validation (
              quote "target table `" table.target_id "` has no value for sample `"
              ++ (relation.sample_id ++ text "`")))
          >>= λ value. taken >>= λ rows. ok ((relation.sample_id, value) ∷ rows))
      else skipped

unfoldable pub check_tables :
    {J : Type 0} → List Text → List (CoordinatorTargetTable J) → Result (Unit {0})
check_tables seen [] = done
check_tables seen (table ∷ tables) = do
  validate_targets table
  refuse (contains table.target_id seen) (
      validation
        (quote "multi-target materialization contains duplicate target `" table.target_id "`"))
  check_tables (insert table.target_id seen) tables

module _ {J : Type 0} (json : Json J) where
  -- The value of a sample, null and invalid where the table has none or has null.
  unfoldable pub masked_value : Option J → J × Bool
  masked_value none = (json.of_null, false)
  masked_value (some value) = if is_null json value then (json.of_null, false) else (value, true)

  unfoldable pub masked_row : CoordinatorTargetTable J → List Text → List (J × Bool)
  unfolding masked_value values_by_sample
  masked_row table samples =
      map (λ sample. masked_value (get sample (values_by_sample table.entries []))) samples

module _ {J F : Type 0} (json : Json J) where
  -- `CoordinatorHandleArena::target_values`.
  unfoldable pub target_values :
      CoordinatorHandleArena J F → ℕ → CoordinatorTargetTable J → Result (CoordinatorTargetBlock J)
  unfolding target_loop values_by_sample
  target_values arena view_handle table = do
    validate_target_values json table
    relations ← view_identity arena view_handle
    rows ← target_loop table (values_by_sample table.entries []) [] relations.records
    refuse (is_empty rows) (no_samples view_handle (quote "target `" table.target_id "`"))
    ok (record {
      target_id = table.target_id;
      sample_ids = map (λ row. row.0) rows;
      target_row = map (λ row. row.1) rows;
    })

  -- `CoordinatorHandleArena::multi_target_values`.
  unfoldable pub multi_target_values :
      CoordinatorHandleArena J F
      → ℕ
      → List (CoordinatorTargetTable J)
      → Result (CoordinatorMultiTargetBlock J)
  unfolding check_tables samples_from masked_row
  multi_target_values arena view_handle tables = do
    refuse (is_empty tables)
        (validation (text "multi-target materialization requires at least one target table"))
    check_tables [] tables
    let target_ids : List Text = map (λ table. table.target_id) tables
    relations ← view_identity arena view_handle
    let samples : List Text =
        samples_from (λ target_id. contains target_id (collect target_ids)) [] relations.records
    refuse (is_empty samples) (no_samples view_handle (text "requested targets"))
    ok (record {
      target_ids = target_ids;
      sample_ids = samples;
      target_rows = map (λ table. map (λ cell. cell.0) (masked_row json table samples)) tables;
      validity_masks = map (λ table. map (λ cell. cell.1) (masked_row json table samples)) tables;
    })
