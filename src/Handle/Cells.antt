-- ===== src/Handle/Cells.antt =====
-- crates/dag-ml-data-core/src/handle.rs: the rows of a feature block are those of the table.
use dag_ml_data.Handle.Features.{items_at, rows_by_observation}
use dag_ml_data.Handle.Blocks.{some_injective}
use dag_ml_data.Handle.Tables.{
  CoordinatorFeatureRow, CoordinatorFeatureTable, check_features, validate_features,
}
use dag_ml_data.Handle.Columns.{Cells, cell_of}
use dag_ml_data.Common.{
  ◌≢◌, All, none, ℕ, zero, suc, ◌≡◌, refl, sym, subst, ◌⊎◌, inl, inr, true, false, false≢true, some,
  List, [], ◌∷◌, arith, if◌then◌else◌, Bool-cases,
}
use dag_ml_data.Order.{◌==◌, ==_iff, ==_refl, nat_ord, list_ord}
use dag_ml_data.Text.{Text}
use dag_ml_data.Collections.{
  contains_tail, contains_head, Map, put, get, get-put, contains, Distinct, insert, contains-insert,
}
use dag_ml_data.Error.{done}
use dag_ml_data.Order.{pair_ord}
use dag_ml_data.Common.{Option-cases}
use dag_ml_data.Common.{get_elem?, Any}

get_elem?-contains :
    (names : List Text) (i : ℕ) (name : Text)
    → get_elem? names i ≡ some name
    → contains name names ≡ true
get_elem?-contains [] i name at = cc
get_elem?-contains (n ∷ names) zero name at =
    subst (λ w. contains w (n ∷ names) ≡ true) (some_injective at) (contains_head n names)
get_elem?-contains (n ∷ names) (suc i) name at =
    contains_tail name n names (get_elem?-contains names i name at)

cell_of_at :
    {A : Type 0} (names : List Text) (cells : List A) (i : ℕ) (name : Text) (cell : A)
    → Distinct names
    → get_elem? names i ≡ some name
    → get_elem? cells i ≡ some cell
    → cell_of names cells name ≡ some cell
unfolding cell_of
cell_of_at [] cells i name cell apart at held = cc
cell_of_at (n ∷ names) [] i name cell apart at held = cc
cell_of_at (n ∷ names) (c ∷ cells) zero name cell apart at held =
    subst (λ w. (if w == n then some c else cell_of names cells w) ≡ some cell) (some_injective at)
      (ground (arith, held, ==_refl n))
cell_of_at (n ∷ names) (c ∷ cells) (suc i) name cell apart at held = ground (
  arith,
  cell_of_at names cells i name cell apart.1 at held,
  get_elem?-contains names i name at,
  apart.0,
  ==_iff name n,
)

items_at_parts :
    {A : Type 0} (items : List A) (i : ℕ) (indices : List ℕ) (out : List A)
    → items_at items (i ∷ indices) ≡ some out
    → (item : A) × (rest : List A) × (get_elem? items i ≡ some item)
      × (items_at items indices ≡ some rest)
      × (out ≡ item ∷ rest)
unfolding items_at
items_at_parts items i indices out at = elim (Option-cases (get_elem? items i)) [
  | inl gone ↦ absurd (false≢true (ground (arith, gone)))
  | inr (item, here) ↦ elim (Option-cases (items_at items indices)) [
    | inl gone ↦ absurd (false≢true (ground (arith, here, gone)))
    | inr (rest, later) ↦ (item, rest, here, later, some_injective (ground (arith, here, later)))
  ]
]

Cells-items_at :
    {A : Type 0} (names : List Text) (cells : List A)
    → Distinct names
    → (indices : List ℕ) (columns : List Text) (out : List A)
    → items_at names indices ≡ some columns
    → items_at cells indices ≡ some out
    → Cells names cells columns out
unfolding items_at Cells
Cells-items_at names cells apart [] columns out at held =
    subst (λ ws. Cells names cells ws out) (some_injective at)
      (subst (Cells names cells []) (some_injective held) tt)
Cells-items_at names cells apart (i ∷ indices) columns out at held =
    let (name, others, at_name, at_others, split) = items_at_parts names i indices columns at in
    let (cell, rest, at_cell, at_rest, split_cells) = items_at_parts cells i indices out held in
    subst (λ ws. Cells names cells ws out) (sym split)
      (subst (Cells names cells (name ∷ others)) (sym split_cells) (
        cell_of_at names cells i name cell apart at_name at_cell,
        Cells-items_at names cells apart indices others rest at_others at_rest,
      ))

features_unseen :
    (feature_set_id : Text) (seen names : List Text) (name : Text)
    → check_features feature_set_id seen names ≡ done
    → contains name seen ≡ true
    → contains name names ≡ false
unfolding check_features
features_unseen feature_set_id seen [] name accepted member = refl
features_unseen feature_set_id seen (n ∷ names) name accepted member = ground (
  arith,
  features_unseen feature_set_id (insert n seen) names name (ground arith),
  contains-insert name n seen,
  ==_iff name n,
)

features-Distinct :
    (feature_set_id : Text) (seen names : List Text)
    → check_features feature_set_id seen names ≡ done
    → Distinct names
unfolding check_features
features-Distinct feature_set_id seen [] accepted = tt
features-Distinct feature_set_id seen (n ∷ names) accepted = (
  features_unseen feature_set_id (insert n seen) names n (ground arith)
      (ground (arith, contains-insert n n seen, ==_refl n)),
  features-Distinct feature_set_id (insert n seen) names (ground arith),
)

module _ {J : Type 0} where
  pub columns-Distinct :
      (table : CoordinatorFeatureTable J)
      → validate_features table ≡ done
      → Distinct table.feature_names
  unfolding validate_features
  columns-Distinct table checked =
      features-Distinct table.feature_set_id [] table.feature_names (ground arith)

  rows_by_observation-at :
      (rows : List (CoordinatorFeatureRow J)) (found : Map Text (CoordinatorFeatureRow J))
      (id : Text) (row : CoordinatorFeatureRow J) (P : CoordinatorFeatureRow J → Type 0)
      → get id (rows_by_observation rows found) ≡ some row
      → P row
      → Any (λ r. (r.observation_id ≡ id) × P r) rows ⊎ (get id found ≡ some row)
  unfolding rows_by_observation
  rows_by_observation-at [] found id row P at held = inr at
  rows_by_observation-at (r ∷ rows) found id row P at held =
      elim (rows_by_observation-at rows (put r.observation_id r found) id row P at held) [
        | inl later ↦ inl (inr later)
        | inr here ↦ elim (Bool-cases (id == r.observation_id)) [
          | inl e ↦
              let same : r ≡ row =
                some_injective (ground (arith, here, get-put id r.observation_id r found)) in
              inl (inl (ground (arith, ==_iff id r.observation_id), subst P (sym same) held))
          | inr e ↦ inr (ground (arith, get-put id r.observation_id r found))
        ]
      ]

  rows_by_observation-none :
      (rows : List (CoordinatorFeatureRow J)) (found : Map Text (CoordinatorFeatureRow J))
      (id : Text)
      → get id (rows_by_observation rows found) ≡ none
      → All (λ row. row.observation_id ≢ id) rows × (get id found ≡ none)
  unfolding rows_by_observation
  rows_by_observation-none [] found id gone = (tt, gone)
  rows_by_observation-none (row ∷ rows) found id gone =
      let (later, here) =
        rows_by_observation-none rows (put row.observation_id row found) id gone in
      let placed = get-put id row.observation_id row found in
      (
        (
          λ same.
              absurd
                (false≢true (ground (arith, here, placed, same, ==_iff id row.observation_id))),
          later,
        ),
        ground (arith, here, placed),
      )

  -- No row of the table is for the observation.
  pub no_row :
      (table : CoordinatorFeatureTable J) (id : Text)
      → get id (rows_by_observation table.rows []) ≡ none
      → All (λ row. row.observation_id ≢ id) table.rows
  no_row table id gone = (rows_by_observation-none table.rows [] id gone).0

  -- A row of the table for an observation has the cells under the names.
  unfoldable pub HasCells : CoordinatorFeatureTable J → List Text → Text → List J → Type 0
  unfolding Cells
  HasCells table names observation_id cells =
      Any
        (λ row.
          (row.observation_id ≡ observation_id) × Cells table.feature_names row.cells names cells)
        table.rows

  pub HasCells-items_at :
      (table : CoordinatorFeatureTable J) (indices : List ℕ) (names : List Text)
      (observation_id : Text) (row : CoordinatorFeatureRow J) (cells : List J)
      → validate_features table ≡ done
      → items_at table.feature_names indices ≡ some names
      → get observation_id (rows_by_observation table.rows []) ≡ some row
      → items_at row.cells indices ≡ some cells
      → HasCells table names observation_id cells
  unfolding HasCells get
  HasCells-items_at table indices names observation_id row cells checked at found held =
      let apart = columns-Distinct table checked in
      let fits = Cells-items_at table.feature_names row.cells apart indices names cells at held in
      elim (rows_by_observation-at table.rows [] observation_id row
        (λ r. Cells table.feature_names r.cells names cells) found fits) [
          | inl given ↦ given
          | inr never ↦ cc
        ]
