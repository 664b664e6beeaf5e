-- ===== src/Handle/FeatureLoop.antt =====
-- crates/dag-ml-data-core/src/handle.rs: the loop of `feature_values` over the relations of the view.
use dag_ml_data.Handle.Blocks.{items_at_within, get-All}
use dag_ml_data.Coordinator.Relations.{CoordinatorRelation}
use dag_ml_data.Handle.Features.{missing_row, block_row, add_row, BlockRow, feature_loop, items_at}
use dag_ml_data.Handle.Tables.{CoordinatorFeatureRow, CoordinatorFeatureTable}
use dag_ml_data.Common.{
  Any, ℕ, ◌<◌, ◌≡◌, refl, sym, subst, inl, inr, Option, none, some, List, [], ◌∷◌, length, All,
}
use dag_ml_data.Order.{nat_ord, list_ord}
use dag_ml_data.Text.{Text}
use dag_ml_data.Collections.{Map, values, get}
use dag_ml_data.Error.{DataError, Result, ok, err}
use dag_ml_data.Order.{pair_ord}
use dag_ml_data.Common.{Option-cases}

-- The rows of a block are those of the relations, in their order: each has the cells, at the selected
-- columns, of the row of the table for the observation of the relation.

-- The rows of a block are those of the relations, in their order: each has the cells, at the selected
-- columns, of the row of the table for the observation of the relation.
abbrev pub Projects :
    {J F : Type 0}
    → Map Text (CoordinatorFeatureRow J)
    → List ℕ
    → List (CoordinatorRelation J F)
    → List (BlockRow J)
    → Type 0
Projects found indices [] [] = Unit
Projects found indices (relation ∷ relations) (block ∷ blocks) =
    (block.observation_id ≡ relation.observation_id)
    × (block.sample_id ≡ relation.sample_id)
    × (length block.cells ≡ length indices)
    × ((row : CoordinatorFeatureRow _) × (get relation.observation_id found ≡ some row)
        × (items_at row.cells indices ≡ some block.cells))
    × Projects found indices relations blocks
Projects found indices [] (block ∷ blocks) = ⊥
Projects found indices (relation ∷ relations) [] = ⊥

module _ {J F : Type 0} (table : CoordinatorFeatureTable J)
    (found : Map Text (CoordinatorFeatureRow J)) (indices : List ℕ) where
  -- The loop ends at an error, or with the rows of all the relations.
  pub data Ends (relations : List (CoordinatorRelation J F))
      : Option (Result (List (BlockRow J))) → Type 0 where
    refused :
        (reason : DataError)
        → Any
            (λ relation.
              (get relation.observation_id found ≡ none) × (reason ≡ missing_row table relation))
            relations
        → Ends relations (some (err reason))
    projected :
        (blocks : List (BlockRow J))
        → Projects found indices relations blocks
        → Ends relations (some (ok blocks))

  one_more :
      (relation : CoordinatorRelation J F) (relations : List (CoordinatorRelation J F))
      (row : CoordinatorFeatureRow J) (out : List J) (rest : Option (Result (List (BlockRow J))))
      → get relation.observation_id found ≡ some row
      → items_at row.cells indices ≡ some out
      → length out ≡ length indices
      → Ends relations rest
      → Ends (relation ∷ relations) (add_row (block_row relation (some out)) rest)
  one_more relation relations row out _ at cells wide (refused reason missing) =
      refused reason (inr missing)
  one_more relation relations row out _ at cells wide (projected blocks same) =
      projected
        (record {
          observation_id = relation.observation_id;
          sample_id = relation.sample_id;
          cells = out;
        }
          ∷ blocks)
        (refl, refl, wide, (row, at, cells), same)

module _ {J F : Type 0} (table : CoordinatorFeatureTable J)
    (found : Map Text (CoordinatorFeatureRow J)) (indices : List ℕ) (width : ℕ)
    (within : All (λ i. i < width) indices)
    (wide : All (λ row. length row.cells ≡ width) (values found)) where
  pub feature_loop-Ends :
      (relations : List (CoordinatorRelation J F))
      → Ends table found indices relations (feature_loop table found indices relations)
  unfolding feature_loop
  feature_loop-Ends [] = projected [] tt
  feature_loop-Ends (relation ∷ relations) =
      elim (Option-cases (get relation.observation_id found)) [
        | inl gone ↦
            subst
              (λ cell. Ends table found indices (relation ∷ relations) (elim cell [
                | none ↦ some (err (missing_row table relation))
                | some row ↦
                    add_row (block_row relation (items_at row.cells indices))
                      (feature_loop table found indices relations)
              ]))
              (sym gone) (refused (missing_row table relation) (inl (gone, refl)))
        | inr (row, at) ↦
            let fits =
              get-All (λ row. length row.cells ≡ width) relation.observation_id row found wide at in
            let (out, cells, same) =
              items_at_within row.cells indices
                (subst (λ n. All (λ i. i < n) indices) (sym fits) within) in
            subst
              (λ cell. Ends table found indices (relation ∷ relations) (elim cell [
                | none ↦ some (err (missing_row table relation))
                | some row ↦
                    add_row (block_row relation (items_at row.cells indices))
                      (feature_loop table found indices relations)
              ]))
              (sym at)
              (subst
                (λ c.
                  Ends table found indices (relation ∷ relations)
                    (add_row (block_row relation c) (feature_loop table found indices relations)))
                (sym cells)
                (one_more table found indices relation relations row out
                  (feature_loop table found indices relations) at cells same
                  (feature_loop-Ends relations)))
      ]
