-- ===== src/Schema/Dataset.antt =====
-- crates/dag-ml-data-core/src/model.rs: groups, folds and the dataset schema.
use dag_ml_data.Common.{
  Bool, false, not, ◌&&◌, Option, none, some, List, [], ◌∷◌, ◌++◌, nat_eq, is_some, length,
  is_empty,
}
use dag_ml_data.Order.{nat_ord, list_ord}
use dag_ml_data.Text.{Text, text, is_blank}
use dag_ml_data.Collections.{Map, keys, values, contains, insert, collect}
use dag_ml_data.Error.{validation, Result, ok, ◌>>=◌, ◌>>◌, done, refuse, for_each}
use dag_ml_data.Order.{pair_ord}
use dag_ml_data.Relation.Folds.{quote}
use dag_ml_data.Json.{Json}
use dag_ml_data.Float.{Float}
use dag_ml_data.Schema.Axes.{blank_option}
use dag_ml_data.Schema.Representations.{
  RepresentationSpec, SourceDescriptor, MetadataSchema, validate_spec, validate_source,
  validate_metadata,
}

pub data GroupKind : Type 0 where
  repetition_group subject batch split_group custom_group : GroupKind

pub record GroupSpec (J : Type 0) : Type 0 where
  pub id : Text
  pub kind : GroupKind
  pub column : Text
  pub source_id : Option Text
  pub strict : Bool
  pub metadata : Map Text J

pub record FoldSpec (J : Type 0) : Type 0 where
  pub id : Text
  pub group_id : Option Text
  pub split_column : Option Text
  pub metadata : Map Text J

pub record DatasetSchema (J F : Type 0) : Type 0 where
  pub dataset_id : Text
  pub sample_ids : List Text
  pub sources : List (SourceDescriptor J F)
  pub targets : Map Text (RepresentationSpec J F)
  pub metadata : Map Text (RepresentationSpec J F)
  pub metadata_schema : Option (MetadataSchema J)
  pub groups : List (GroupSpec J)
  pub folds : List (FoldSpec J)

-- `ids.iter().collect::<BTreeSet<_>>().len() != ids.len()`.
unfoldable pub repeats : List Text → Bool
repeats ids = not (nat_eq (length (collect ids)) (length ids))

-- The loop that refuses an empty key of the metadata of an entity.
unfoldable pub check_keys {ℓ} : {V : Type ℓ} → Text → Map Text V → Result (Unit {0})
check_keys label metadata =
    for_each
      (λ key. refuse (is_blank key) (validation (label ++ text "metadata contains an empty key")))
      (keys metadata)

-- An optional reference that is not in a set.
abbrev pub dangling : Option Text → List Text → Bool
dangling none ids = false
dangling (some id) ids = not (contains id ids)

abbrev pub shown_id : Option Text → Text
shown_id none = []
shown_id (some id) = id

module _ {J : Type 0} where
  -- `GroupSpec::validate`.
  unfoldable pub validate_group : GroupSpec J → Result (Unit {0})
  unfolding check_keys
  validate_group group = do
    refuse (is_blank group.column) (validation (quote "group `" group.id "` has an empty column"))
    check_keys (quote "group `" group.id "` ") group.metadata

  -- `FoldSpec::validate`.
  unfoldable pub validate_fold : FoldSpec J → Result (Unit {0})
  unfolding check_keys
  validate_fold fold = do
    refuse (is_blank fold.id) (validation (text "fold id is empty"))
    refuse (not (is_some fold.group_id) && not (is_some fold.split_column))
        (validation (quote "fold `" fold.id "` declares neither group_id nor split_column"))
    refuse (blank_option fold.split_column)
        (validation (quote "fold `" fold.id "` has an empty split_column"))
    check_keys (quote "fold `" fold.id "` ") fold.metadata

  -- The loop over the groups, with the ids that it collects.
  unfoldable pub check_groups : List Text → List Text → List (GroupSpec J) → Result (List Text)
  unfolding validate_group
  check_groups source_ids group_ids [] = ok group_ids
  check_groups source_ids group_ids (group ∷ groups) = do
    refuse (contains group.id group_ids) (validation (quote "duplicate group id `" group.id "`"))
    refuse (dangling group.source_id source_ids) (
        validation (
          quote "group `" group.id "` references unknown source `"
          ++ (shown_id group.source_id ++ text "`")))
    validate_group group
    check_groups source_ids (insert group.id group_ids) groups

  unfoldable pub check_fold_specs : List Text → List Text → List (FoldSpec J) → Result (Unit {0})
  unfolding validate_fold
  check_fold_specs group_ids fold_ids [] = done
  check_fold_specs group_ids fold_ids (fold ∷ folds) = do
    refuse (contains fold.id fold_ids) (validation (quote "duplicate fold id `" fold.id "`"))
    refuse (dangling fold.group_id group_ids) (
        validation (
          quote "fold `" fold.id "` references unknown group `"
          ++ (shown_id fold.group_id ++ text "`")))
    validate_fold fold
    check_fold_specs group_ids (insert fold.id fold_ids) folds

module _ {J F : Type 0} (json : Json J) (f64 : Float F) (as_f64 : J → Option F) where
  unfoldable pub check_sources : List Text → List (SourceDescriptor J F) → Result (List Text)
  unfolding validate_source
  check_sources source_ids [] = ok source_ids
  check_sources source_ids (source ∷ sources) = do
    refuse (contains source.id source_ids)
        (validation (quote "duplicate source id `" source.id "`"))
    validate_source json f64 as_f64 source
    check_sources (insert source.id source_ids) sources

  abbrev pub check_metadata : Option (MetadataSchema J) → Result (Unit {0})
  check_metadata none = done
  check_metadata (some schema) = validate_metadata schema

  -- `DatasetSchema::validate`.
  unfoldable pub validate_schema : DatasetSchema J F → Result (Unit {0})
  unfolding repeats check_sources check_groups check_fold_specs
  validate_schema schema = do
    refuse (is_blank schema.dataset_id) (validation (text "dataset id must not be empty"))
    refuse (is_empty schema.sample_ids)
        (validation (text "dataset schema must contain at least one sample"))
    refuse (repeats schema.sample_ids)
        (validation (text "dataset schema contains duplicate sample ids"))
    source_ids ← check_sources [] schema.sources
    for_each (validate_spec json f64 as_f64) (values schema.targets)
    for_each (validate_spec json f64 as_f64) (values schema.metadata)
    check_metadata schema.metadata_schema
    group_ids ← check_groups source_ids [] schema.groups
    check_fold_specs group_ids [] schema.folds
