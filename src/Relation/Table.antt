-- ===== src/Relation/Table.antt =====
-- `SampleRelationTable` of crates/dag-ml-data-core/src/relation.rs: its validation, alone and against
-- a fold set.
pub mod Rows
pub mod Sound
pub mod Leakage
use dag_ml_data.Common.{
  ℕ, zero, suc, ◌+◌, ◌-◌, ◌*◌, ◌^◌, ◌≤◌, ◌<◌, ◌≡◌, refl, sym, ap, ◌∙◌, subst, ◌≢◌, ◌↔◌, ◌⊎◌, inl,
  inr, Bool, true, false, not, ◌&&◌, ◌||◌, false≢true, Option, none, some, List, [], ◌∷◌, ◌++◌,
  arith, ltb, leb, nat_eq, if◌then◌else◌, Bool-cases, is_some, length, is_empty, all, any, All,
  filter, filter_map, find, map, append_assoc, append-nil,
}
use dag_ml_data.Order.{Ord, ◌==◌, ==_iff, ==_refl, nat_ord, list_ord, then}
use dag_ml_data.Text.{Text, text, is_blank, byte_len, decimal}
use dag_ml_data.Collections.{
  Map, key, keys, values, put, get, contains_key, modify, remove, get-put, get-modify, contains,
  Distinct, insert, collect, contains-insert, contains-collect,
}
use dag_ml_data.Error.{
  DataError, validation, Result, ok, err, ◌>>=◌, ◌>>◌, done, refuse, for_each, ok_or, refuse_iff,
  >>_iff, >>=-eq-ok, for_each_iff,
}
use dag_ml_data.Relation.{
  SampleRelation, SampleRelationTable, AugmentationMetadata, validate_augmentation, FoldSet,
  FoldAssignment, unique_samples, validate_group_boundary, validate_origin_boundary,
}
use dag_ml_data.Relation.Folds.{quote, validate_fold_set}

-- What the loop over the rows carries.
pub record TableState : Type 0 where
  pub observation_ids : List Text
  pub origin_ids : List Text
  pub sample_groups : Map Text Text

unfoldable pub check_origin_known : List Text → Text → Result (Unit {0})
check_origin_known observation_ids origin_id =
    refuse (not (any (λ o. o == origin_id) observation_ids))
      (validation (quote "origin `" origin_id "` is not present as an observation"))

module _ {J : Type 0} where
  -- `sample_groups.insert(..)` and the test of the group that it replaces.
  unfoldable pub record_group : Map Text Text → SampleRelation J → Result (Map Text Text)
  record_group groups row = elim row.group_id [
    | none ↦ ok groups
    | some group_id ↦ elim (get row.sample_id groups) [
      | none ↦ ok (put row.sample_id group_id groups)
      | some previous ↦
          if previous == group_id
          then ok (put row.sample_id group_id groups)
          else err (
              validation (
                quote "sample `" row.sample_id "` appears with conflicting groups `"
                ++ (previous ++ quote "` and `" group_id "`")))
    ]
  ]

  unfoldable pub check_augmentation : SampleRelation J → Result (Unit {0})
  check_augmentation row = elim row.augmentation [
    | none ↦ done
    | some augmentation ↦
        validate_augmentation augmentation
        >> refuse (not row.augmented) (
            validation (
              quote "non-augmented observation `" row.observation_id
                "` declares augmentation metadata"))
  ]

  unfoldable pub record_origin : List Text → SampleRelation J → Result (List Text)
  record_origin origin_ids row = elim row.origin_id [
    | none ↦ ok origin_ids
    | some origin_id ↦
        if origin_id == row.observation_id
        then err
            (validation (quote "observation `" row.observation_id "` cannot be its own origin"))
        else ok (insert origin_id origin_ids)
  ]

  unfoldable pub check_row : TableState → SampleRelation J → Result TableState
  unfolding record_group check_augmentation record_origin
  check_row st row = do
    refuse (contains row.observation_id st.observation_ids)
        (validation (quote "duplicate observation id `" row.observation_id "`"))
    groups ← record_group st.sample_groups row
    refuse (row.augmented && not (is_some row.origin_id))
        (validation (quote "augmented observation `" row.observation_id "` has no origin_id"))
    refuse (not row.augmented && is_some row.origin_id)
        (validation (quote "non-augmented observation `" row.observation_id "` declares origin_id"))
    check_augmentation row
    origins ← record_origin st.origin_ids row
    ok (record {
      observation_ids = insert row.observation_id st.observation_ids;
      origin_ids = origins;
      sample_groups = groups;
    })

  unfoldable pub check_rows : TableState → List (SampleRelation J) → Result TableState
  check_rows st [] = ok st
  check_rows st (row ∷ rows) = do st' ← check_row st row; check_rows st' rows

  -- `SampleRelationTable::validate`.
  unfoldable pub validate_table : SampleRelationTable J → Result (Unit {0})
  unfolding check_rows check_origin_known
  validate_table table = do
    refuse (is_empty table.rows) (validation (text "sample relation table contains no rows"))
    st ←
        check_rows (record { observation_ids = []; origin_ids = []; sample_groups = [] }) table.rows
    for_each (check_origin_known st.observation_ids) st.origin_ids

  -- `SampleRelationTable::sample_groups`: a later row replaces an earlier one.
  unfoldable pub sample_groups_from : Map Text Text → List (SampleRelation J) → Map Text Text
  sample_groups_from m [] = m
  sample_groups_from m (row ∷ rows) =
      sample_groups_from
        (elim row.group_id [ none ↦ m | some group_id ↦ put row.sample_id group_id m ]) rows

  abbrev pub row_samples : List (SampleRelation J) → List Text
  row_samples [] = []
  row_samples (row ∷ rows) = row.sample_id ∷ row_samples rows

  unfoldable pub check_missing : FoldSet J → List Text → List Text → Result (Unit {0})
  check_missing fs relation_samples known =
      elim (find (λ s. not (contains s known)) relation_samples) [
        | none ↦ done
        | some s ↦ err (
            validation
              (quote "fold set `" fs.id "` is missing relation sample `" ++ (s ++ text "`")))
      ]

  unfoldable pub check_absent : FoldSet J → List Text → List Text → Result (Unit {0})
  check_absent fs fold_samples relation_samples =
      elim (find (λ s. not (contains s relation_samples)) fold_samples) [
        | none ↦ done
        | some s ↦ err (
            validation (
              quote "fold set `" fs.id "` references sample `"
              ++ (s ++ text "` absent from sample relations")))
      ]

  unfoldable pub check_group_agrees : FoldSet J → Map Text Text → Text × Text → Result (Unit {0})
  check_group_agrees fs relation_groups (s, fold_group) = elim (get s relation_groups) [
    | none ↦ done
    | some relation_group ↦ refuse (not (relation_group == fold_group)) (
        validation (
          quote "fold set `" fs.id "` group `"
          ++ (fold_group
              ++ (quote "` for sample `" s "` conflicts with relation group `"
                  ++ (relation_group ++ text "`")))))
  ]

  unfoldable pub check_boundaries :
      SampleRelationTable J → Map Text Text → FoldAssignment J → Result (Unit {0})
  check_boundaries table relation_groups fold =
      validate_group_boundary fold.fold_id (collect fold.train_sample_ids)
        (collect fold.validation_sample_ids) relation_groups
      >> validate_origin_boundary fold.fold_id (collect fold.train_sample_ids)
          (collect fold.validation_sample_ids) table

  -- `SampleRelationTable::validate_fold_set`.
  unfoldable pub validate_against : SampleRelationTable J → FoldSet J → Result (Unit {0})
  unfolding check_missing check_absent check_group_agrees check_boundaries sample_groups_from
  validate_against table fs = do
    validate_table table
    validate_fold_set fs
    check_missing fs (collect (row_samples table.rows))
        (collect (collect fs.sample_ids ++ fs.target_missing_sample_ids))
    check_absent fs (collect fs.sample_ids) (collect (row_samples table.rows))
    for_each (check_group_agrees fs (sample_groups_from [] table.rows)) fs.sample_groups
    for_each (check_boundaries table (sample_groups_from [] table.rows)) fs.folds
