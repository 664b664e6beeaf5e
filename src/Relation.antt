-- ===== src/Relation.antt =====
-- crates/dag-ml-data-core/src/relation.rs: sample relations and fold sets. `J` is
-- `serde_json::Value`, which this code stores and never reads. A set of references is a set of the texts
-- that they refer to.
pub mod Boundary
pub mod Folds
pub mod Table
use dag_ml_data.Common.{
  ℕ, zero, suc, ◌+◌, ◌-◌, ◌*◌, ◌^◌, ◌≤◌, ◌<◌, ◌≡◌, refl, sym, ap, ◌∙◌, subst, ◌≢◌, ◌↔◌, ◌⊎◌, inl,
  inr, Bool, true, false, not, ◌&&◌, ◌||◌, false≢true, Option, none, some, List, [], ◌∷◌, ◌++◌,
  arith, ltb, leb, nat_eq, if◌then◌else◌, Bool-cases, is_some, length, is_empty, all, any, All,
  filter, filter_map, find, map, append_assoc, append-nil,
}
use dag_ml_data.Order.{Ord, ◌==◌, ==_iff, ==_refl, nat_ord, list_ord, then}
use dag_ml_data.Text.{Text, text, is_blank, byte_len, decimal}
use dag_ml_data.Collections.{
  Map, key, keys, values, put, get, contains_key, modify, remove, get-put, get-modify, contains,
  Distinct, insert, collect, contains-insert, contains-collect,
}
use dag_ml_data.Error.{
  DataError, validation, Result, ok, err, ◌>>=◌, ◌>>◌, done, refuse, for_each, ok_or, refuse_iff,
  >>_iff, >>=-eq-ok, for_each_iff,
}
use dag_ml_data.Error.{relation_boundary_violation}

pub record AugmentationMetadata (J : Type 0) : Type 0 where
  pub transform_id : Text
  pub params_fingerprint : Option Text
  pub metadata : Map Text J

pub record SampleRelation (J : Type 0) : Type 0 where
  pub observation_id : Text
  pub sample_id : Text
  pub source_id : Option Text
  pub target_id : Option Text
  pub group_id : Option Text
  pub origin_id : Option Text
  pub repetition_id : Option Text
  pub augmented : Bool
  pub excluded : Bool
  pub metadata : Map Text J
  pub tags : List Text
  pub augmentation : Option (AugmentationMetadata J)

pub record SampleRelationTable (J : Type 0) : Type 0 where
  pub rows : List (SampleRelation J)

pub record FoldAssignment (J : Type 0) : Type 0 where
  pub fold_id : Text
  pub train_sample_ids : List Text
  pub validation_sample_ids : List Text
  pub metadata : Map Text J

pub data FoldPartitionMode : Type 0 where
  partition resampled : FoldPartitionMode

pub data FoldTrainExclusion : Type 0 where
  relations fold_local : FoldTrainExclusion

pub record FoldSet (J : Type 0) : Type 0 where
  pub id : Text
  pub sample_ids : List Text
  pub folds : List (FoldAssignment J)
  pub sample_groups : Map Text Text
  pub partition_mode : FoldPartitionMode
  pub train_exclusion : FoldTrainExclusion
  pub target_missing_sample_ids : List Text

abbrev is_hex_digit : ℕ → Bool
is_hex_digit c =
    (leb b'0' c && leb c b'9') || (leb b'a' c && leb c b'f') || (leb b'A' c && leb c b'F')

-- `AugmentationMetadata::validate`.
unfoldable pub validate_augmentation : {J : Type 0} → AugmentationMetadata J → Result (Unit {0})
validate_augmentation a = do
  refuse (is_blank a.transform_id) (validation (text "augmentation metadata transform_id is empty"))
  elim a.params_fingerprint [
    | none ↦ done
    | some fingerprint ↦
        refuse (not (nat_eq (byte_len fingerprint) 64) || not (all is_hex_digit fingerprint)) (
          validation (
            text "augmentation `"
            ++ (a.transform_id ++ text "` params_fingerprint must be a 64-character hex digest")))
  ]
  for_each
      (λ k. refuse (is_blank k) (
        validation
          (text "augmentation `" ++ (a.transform_id ++ text "` metadata contains an empty key"))))
      (keys a.metadata)

-- The loop of `unique_samples`.
unfoldable pub unique_from : Text → List Text → List Text → Result (List Text)
unique_from label seen [] = ok seen
unique_from label seen (sample_id ∷ samples) =
    let rest = unique_from label (insert sample_id seen) samples in
    if contains sample_id seen
    then err
        (validation (label ++ (text " contains duplicate sample `" ++ (sample_id ++ text "`"))))
    else rest

unfoldable pub unique_samples : Text → List Text → Result (List Text)
unfolding unique_from
unique_samples label samples = unique_from label [] samples

boundary_error : Text → Text → Text → Text → DataError
boundary_error kind fold_id what id = relation_boundary_violation kind (
    text "fold `"
    ++ (fold_id
        ++ (text "` leaks " ++ (what ++ (text " `" ++ (id ++ text "` across train/validation"))))))

-- One round of the loop of `validate_group_boundary`.
unfoldable pub check_group : Text → List Text → Map Text Text → Text → Result (Unit {0})
unfolding boundary_error
check_group fold_id train_groups sample_groups sample_id = elim (get sample_id sample_groups) [
  | none ↦ done
  | some group_id ↦
      refuse (contains group_id train_groups)
        (boundary_error (text "group") fold_id (text "group") group_id)
]

unfoldable pub validate_group_boundary :
    Text → List Text → List Text → Map Text Text → Result (Unit {0})
unfolding check_group
validate_group_boundary fold_id train held_out sample_groups =
    if is_empty sample_groups
    then done
    else (let train_groups = collect (filter_map (λ s. get s sample_groups) train) in
        for_each (check_group fold_id train_groups sample_groups) held_out)

-- `iter().map(..).collect::<BTreeMap<_, _>>()`: a later row replaces an earlier one.
unfoldable pub origin_samples_from :
    {J : Type 0} → Map Text Text → List (SampleRelation J) → Map Text Text
origin_samples_from m [] = m
origin_samples_from m (row ∷ rows) =
    origin_samples_from (put row.observation_id row.sample_id m) rows

-- One round of the loop of `validate_origin_boundary`.
unfoldable pub check_origin :
    {J : Type 0}
    → Text
    → List Text
    → List Text
    → Map Text Text
    → SampleRelation J
    → Result (Unit {0})
unfolding boundary_error
check_origin fold_id train held_out origin_sample_ids row = elim row.origin_id [
  | none ↦ done
  | some origin_id ↦ elim (get origin_id origin_sample_ids) [
    | none ↦ done
    | some origin_sample_id ↦
        let e = boundary_error (text "origin") fold_id (text "augmentation origin") origin_id in
        refuse (contains row.sample_id train && contains origin_sample_id held_out) e
        >> refuse (contains row.sample_id held_out && contains origin_sample_id train) e
  ]
]

unfoldable pub validate_origin_boundary :
    {J : Type 0} → Text → List Text → List Text → SampleRelationTable J → Result (Unit {0})
unfolding check_origin origin_samples_from
validate_origin_boundary fold_id train held_out table =
    let origin_sample_ids = origin_samples_from [] table.rows in
    for_each (check_origin fold_id train held_out origin_sample_ids) table.rows
