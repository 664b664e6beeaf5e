-- ===== src/Tests/Relations.antt =====
-- Two samples in two folds, with an augmented row.
use dag_ml_data.Common.{◌≡◌, refl, Bool, true, false, Option, none, some, [], ◌∷◌}
use dag_ml_data.Order.{nat_ord, list_ord}
use dag_ml_data.Text.{Text, text, is_blank}
use dag_ml_data.Collections.{put, get, modify, insert, collect}
use dag_ml_data.Error.{done}
use dag_ml_data.Order.{cmp_list}
use dag_ml_data.Relation.{
  SampleRelation, SampleRelationTable, FoldSet, FoldAssignment, partition, fold_local,
  unique_samples, validate_group_boundary, validate_origin_boundary, validate_augmentation,
}
use dag_ml_data.Relation.Folds.{
  validate_fold_set, check_fold, check_known, check_overlap, check_group_map,
}
use dag_ml_data.Relation.Folds.Spec.{IsFoldSet}
use dag_ml_data.Relation.Folds.Sound.{validate_fold_set_sound}
use dag_ml_data.Relation.Folds.Complete.{validate_fold_set_complete}
use dag_ml_data.Relation.Table.{
  validate_table, check_row, check_origin_known, validate_against, record_group, record_origin,
  check_augmentation,
}
use dag_ml_data.Relation.Table.Sound.{IsTable, validate_table_sound}
use dag_ml_data.Relation.Table.Leakage.{Fits, validate_against_sound}

abbrev pub s1 : Text
s1 = 49 ∷ []

abbrev pub s2 : Text
s2 = 50 ∷ []

abbrev pub row : Text → Text → Option Text → Bool → SampleRelation (Unit {0})
row observation sample origin augmented = record {
  observation_id = observation;
  sample_id = sample;
  source_id = none;
  target_id = none;
  group_id = some (b'g' ∷ sample);
  origin_id = origin;
  repetition_id = none;
  augmented = augmented;
  excluded = false;
  metadata = [];
  tags = [];
  augmentation = none;
}

abbrev pub table : SampleRelationTable (Unit {0})
table = record {
  rows =
      row (97 ∷ []) s1 none false
      ∷ row (98 ∷ []) s2 none false
      ∷ row (99 ∷ []) s1 (some (97 ∷ [])) true
      ∷ [];
}

abbrev fold : Text → Text → Text → FoldAssignment (Unit {0})
fold id train held_out = record {
  fold_id = id;
  train_sample_ids = train ∷ [];
  validation_sample_ids = held_out ∷ [];
  metadata = [];
}

abbrev folds : FoldSet (Unit {0})
folds = record {
  id = 102 ∷ [];
  sample_ids = s2 ∷ s1 ∷ [];
  folds = fold (48 ∷ []) s1 s2 ∷ fold (49 ∷ []) s2 s1 ∷ [];
  sample_groups = [];
  partition_mode = partition;
  train_exclusion = fold_local;
  target_missing_sample_ids = [];
}

program : Unit {0}
unfolding text is_blank cmp_list insert collect put get modify unique_samples
    validate_group_boundary validate_origin_boundary validate_augmentation validate_fold_set
    check_fold check_known check_overlap check_group_map validate_against validate_table check_row
    check_origin_known record_group record_origin check_augmentation
program = tt

validate_fold_set-folds : validate_fold_set folds ≡ done
unfolding program
validate_fold_set-folds = refl

validate_fold_set_sound_example : IsFoldSet folds
validate_fold_set_sound_example = validate_fold_set_sound folds validate_fold_set-folds

folds-IsFoldSet : IsFoldSet folds
folds-IsFoldSet = validate_fold_set_sound folds validate_fold_set-folds

validate_fold_set_complete_example : validate_fold_set folds ≡ done
validate_fold_set_complete_example = validate_fold_set_complete folds folds-IsFoldSet

pub validate_table-table : validate_table table ≡ done
unfolding program
validate_table-table = refl

validate_table_sound_example : IsTable table.rows
validate_table_sound_example = validate_table_sound table validate_table-table

validate_against-table : validate_against table folds ≡ done
unfolding program
validate_against-table = refl

validate_against_sound_example : Fits table folds
validate_against_sound_example = validate_against_sound table folds validate_against-table
