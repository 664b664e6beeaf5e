-- ===== src/Handle/Projection.antt =====
-- crates/dag-ml-data-core/src/handle.rs: the blocks that `feature_values` returns.
use dag_ml_data.Handle.FeatureLoop.{refused, projected, Projects, feature_loop-Ends, Ends}
use dag_ml_data.Handle.Columns.{IsColumns, selected-IsColumns}
use dag_ml_data.Handle.Cells.{no_row, HasCells, HasCells-items_at}
use dag_ml_data.Handle.Blocks.{
  check_feature_rows_widths, rows_by_observation-All, items_at_within, selected_below,
}
use dag_ml_data.Handle.Requests.{CoordinatorDataViewRecord}
use dag_ml_data.Handle.Arena.{view_identity, CoordinatorHandleArena}
use dag_ml_data.Coordinator.Relations.{CoordinatorRelation}
use dag_ml_data.Handle.Features.{
  missing_row, feature_rows, feature_values, feature_block, rows_by_observation, feature_inputs,
  CoordinatorFeatureBlock, BlockRow, feature_loop, items_at,
}
use dag_ml_data.Handle.Tables.{selected_feature_indices, validate_features, CoordinatorFeatureTable}
use dag_ml_data.Common.{
  ◌≢◌, Any-map, Any, ℕ, ◌≡◌, refl, sym, subst, inl, inr, false≢true, Option, some, List, [], ◌∷◌,
  arith, length, All, map,
}
use dag_ml_data.Order.{nat_ord, list_ord}
use dag_ml_data.Text.{Text}
use dag_ml_data.Collections.{get}
use dag_ml_data.Error.{DataError, Result, ok, err, done}
use dag_ml_data.Order.{pair_ord}
use dag_ml_data.Common.{Option-cases}

-- The rows of a block are those of the relations, in their order: each has the observation and the sample
-- of its relation, and the cells under the names of a row of the table for this observation.
unfoldable pub Rows :
    {J F : Type 0}
    → CoordinatorFeatureTable J
    → List Text
    → List (CoordinatorRelation J F)
    → List (BlockRow J)
    → Type 0
Rows table names [] [] = Unit
Rows table names (relation ∷ relations) (block ∷ blocks) =
    (block.observation_id ≡ relation.observation_id)
    × (block.sample_id ≡ relation.sample_id)
    × HasCells table names relation.observation_id block.cells
    × Rows table names relations blocks
Rows table names [] (block ∷ blocks) = ⊥
Rows table names (relation ∷ relations) [] = ⊥

module _ {J F : Type 0} (table : CoordinatorFeatureTable J) (indices : List ℕ) (names : List Text)
    (checked : validate_features table ≡ done)
    (at_names : items_at table.feature_names indices ≡ some names) where
  Rows-Projects :
      (relations : List (CoordinatorRelation J F)) (blocks : List (BlockRow J))
      → Projects (rows_by_observation table.rows []) indices relations blocks
      → Rows table names relations blocks
  unfolding Rows
  Rows-Projects [] [] same = tt
  Rows-Projects [] (block ∷ blocks) same = same
  Rows-Projects (relation ∷ relations) [] same = same
  Rows-Projects (relation ∷ relations) (block ∷ blocks) same =
      let (observation, sample, wide, (row, found, held), later) = same in
      (
        observation,
        sample,
        HasCells-items_at table indices names relation.observation_id row block.cells checked
            at_names found held,
        Rows-Projects relations blocks later,
      )

-- What `feature_values` returns: the relations are those of the view, the names those of its columns.
pub record IsBlock {J F : Type 0} (arena : CoordinatorHandleArena J F) (view_handle : ℕ)
    (table : CoordinatorFeatureTable J) (block : CoordinatorFeatureBlock J) : Type 0 where
  pub relations : List (CoordinatorRelation J F)
  pub indices : List ℕ
  pub rows : List (BlockRow J)
  pub inputs : feature_inputs arena view_handle table ≡ ok (relations, indices)
  pub of_relations : view_identity arena view_handle ≡ ok (record { records = relations })
  pub of_view :
      (record_of : CoordinatorDataViewRecord J) × (get view_handle arena.view_records
        ≡ some record_of)
      × IsColumns record_of.view.columns table.feature_names block.feature_names
  pub same_set : block.feature_set_id ≡ table.feature_set_id
  pub same_representation : block.representation_id ≡ table.representation_id
  pub of_table : Rows table block.feature_names relations rows
  pub observations : block.observation_ids ≡ map (λ row. row.observation_id) rows
  pub samples : block.sample_ids ≡ map (λ row. row.sample_id) rows
  pub same_cells : block.cells ≡ map (λ row. row.cells) rows

-- `feature_values` returns: the error of its checks, or, when they pass, the error of a relation of the
-- view for whose observation the table has no row, or the block of the view.
pub data Answers {J F : Type 0} (arena : CoordinatorHandleArena J F) (view_handle : ℕ)
    (table : CoordinatorFeatureTable J) : Option (Result (CoordinatorFeatureBlock J)) → Type 0 where
  invalid :
      (reason : DataError)
      → feature_inputs arena view_handle table ≡ err reason
      → Answers arena view_handle table (some (err reason))
  unmatched :
      (reason : DataError) (relations : List (CoordinatorRelation J F)) (indices : List ℕ)
      → feature_inputs arena view_handle table ≡ ok (relations, indices)
      → Any
          (λ relation.
            All (λ row. row.observation_id ≢ relation.observation_id) table.rows
            × (reason ≡ missing_row table relation))
          relations
      → Answers arena view_handle table (some (err reason))
  answered :
      (block : CoordinatorFeatureBlock J)
      → IsBlock arena view_handle table block
      → Answers arena view_handle table (some (ok block))

module _ {J F : Type 0} (arena : CoordinatorHandleArena J F) (view_handle : ℕ)
    (table : CoordinatorFeatureTable J) where
  -- The checks before the loop that passed.
  record Passed (relations : List (CoordinatorRelation J F)) (indices : List ℕ) : Type 0 where
    checked : validate_features table ≡ done
    of_view : view_identity arena view_handle ≡ ok (record { records = relations })
    selected :
        (record_of : CoordinatorDataViewRecord J) × (get view_handle arena.view_records
          ≡ some record_of)
        × (selected_feature_indices table record_of.view ≡ ok indices)

  passed :
      (relations : List (CoordinatorRelation J F)) (indices : List ℕ)
      → feature_inputs arena view_handle table ≡ ok (relations, indices)
      → Passed relations indices
  unfolding feature_inputs
  passed relations indices fine = elim (Option-cases (get view_handle arena.view_records)) [
    | inl gone ↦ absurd (false≢true (ground (arith, gone)))
    | inr (view, at) ↦ record {
      checked = ground arith;
      of_view = ground (arith, at);
      selected = (view, at, ground (arith, at));
    }
  ]

  rows_fit :
      validate_features table ≡ done
      → All (λ row. length row.cells ≡ length table.feature_names) table.rows
  unfolding validate_features
  rows_fit checked =
      check_feature_rows_widths table.feature_set_id (length table.feature_names) [] table.rows
        (ground arith)

  block-Answers :
      (relations : List (CoordinatorRelation J F)) (indices : List ℕ) (names : List Text)
      (rows : Option (Result (List (BlockRow J))))
      → feature_inputs arena view_handle table ≡ ok (relations, indices)
      → Passed relations indices
      → items_at table.feature_names indices ≡ some names
      → Ends table (rows_by_observation table.rows []) indices relations rows
      → Answers arena view_handle table (feature_block table rows (some names))
  block-Answers relations indices names _ inputs p at (refused reason missing) =
      unmatched reason relations indices inputs (
        Any-map (λ relation gone. (no_row table relation.observation_id gone.0, gone.1)) relations
          missing)
  block-Answers relations indices names _ inputs p at (projected blocks same) =
      let (record_of, at_view, selected) = p.selected in
      answered _ (record {
        relations = relations;
        indices = indices;
        rows = blocks;
        inputs = inputs;
        of_relations = p.of_view;
        of_view =
            (record_of, at_view, selected-IsColumns table record_of.view indices names selected at);
        same_set = refl;
        same_representation = refl;
        of_table = Rows-Projects table indices names p.checked at relations blocks same;
        observations = refl;
        samples = refl;
        same_cells = refl;
      })

  rows_answer :
      (inputs : Result (List (CoordinatorRelation J F) × List ℕ))
      → feature_inputs arena view_handle table ≡ inputs
      → Answers arena view_handle table (feature_rows table inputs)
  unfolding feature_rows
  rows_answer (err reason) at = invalid reason at
  rows_answer (ok (relations, indices)) at =
      let p = passed relations indices at in
      let (record_of, at_view, selected) = p.selected in
      let below = selected_below table record_of.view indices selected in
      let (names, at_names, _) = items_at_within table.feature_names indices below in
      let wide =
        rows_by_observation-All (λ row. length row.cells ≡ length table.feature_names) table.rows []
          (rows_fit p.checked) tt in
      subst
        (λ n. Answers arena view_handle table (
          feature_block table
            (feature_loop table (rows_by_observation table.rows []) indices relations) n))
        (sym at_names)
        (block-Answers relations indices names _ at p at_names (
          feature_loop-Ends table (rows_by_observation table.rows []) indices
            (length table.feature_names) below wide relations))

  -- `feature_values` never indexes a row or the names out of range. It returns the error of its checks; or,
  -- when they pass, that of a relation of the view for whose observation the table has no row; or a block
  -- whose names are the columns that the view names, or all columns of the table where it names none, and
  -- which has one row for each relation of the view, in their order, with the observation and the sample
  -- of the relation and, under each name, the cell that a row of the table for this observation has there.
  pub feature_values-Answers :
      Answers arena view_handle table (feature_values arena view_handle table)
  unfolding feature_values
  feature_values-Answers = rows_answer (feature_inputs arena view_handle table) refl
