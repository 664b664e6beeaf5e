-- ===== src/Relation/Folds/Spec.antt =====
-- What a valid fold set promises, independently of the code.
use dag_ml_data.Common.{ℕ, ◌+◌, ◌≡◌, ◌⊎◌, Bool, true, false, ◌||◌, List, [], ◌∷◌, All}
use dag_ml_data.Order.{nat_ord, list_ord}
use dag_ml_data.Text.{Text, is_blank}
use dag_ml_data.Collections.{Map, keys, contains, Distinct}
use dag_ml_data.Relation.{FoldSet, FoldAssignment, partition}
use dag_ml_data.Relation.Boundary.{GroupsApart}

abbrev pub one_if : Bool → ℕ
one_if true = 1
one_if false = 0

-- In how many folds a sample is validated.
abbrev pub times : {J : Type 0} → Text → List (FoldAssignment J) → ℕ
times s [] = 0
times s (fold ∷ folds) = one_if (contains s fold.validation_sample_ids) + times s folds

-- A fold: its two sides are lists without repetition, disjoint, inside the universe, the held-out
-- side is not empty, and no group lies on both sides.
pub record IsFold {J : Type 0} (universe : List Text) (groups : Map Text Text)
    (fold : FoldAssignment J) : Type 0 where
  pub named : is_blank fold.fold_id ≡ false
  pub train_distinct : Distinct fold.train_sample_ids
  pub held_out_distinct : Distinct fold.validation_sample_ids
  pub held_out_nonempty : (fold.validation_sample_ids ≡ []) → ⊥
  pub inside :
      (s : Text)
      → (contains s fold.train_sample_ids || contains s fold.validation_sample_ids) ≡ true
      → contains s universe ≡ true
  pub disjoint :
      (s : Text)
      → contains s fold.train_sample_ids ≡ true
      → contains s fold.validation_sample_ids ≡ false
  pub groups_apart : GroupsApart fold.train_sample_ids fold.validation_sample_ids groups

abbrev pub ids_of : {J : Type 0} → List (FoldAssignment J) → List Text
ids_of [] = []
ids_of (fold ∷ folds) = fold.fold_id ∷ ids_of folds

-- What a valid fold set promises. In `partition` mode every sample is validated in exactly one fold.
pub record IsFoldSet {J : Type 0} (fs : FoldSet J) : Type 0 where
  pub named : is_blank fs.id ≡ false
  pub samples_nonempty : (fs.sample_ids ≡ []) → ⊥
  pub folds_nonempty : (fs.folds ≡ []) → ⊥
  pub samples_distinct : Distinct fs.sample_ids
  pub missing_distinct : Distinct fs.target_missing_sample_ids
  pub missing_outside :
      (s : Text) → contains s fs.target_missing_sample_ids ≡ true → contains s fs.sample_ids ≡ false
  pub groups_cover :
      (fs.sample_groups ≡ [])
      ⊎ ((s : Text) → contains s (keys fs.sample_groups) ≡ contains s fs.sample_ids)
  pub ids_distinct : Distinct (ids_of fs.folds)
  pub each_fold : All (IsFold fs.sample_ids fs.sample_groups) fs.folds
  pub validated_once :
      fs.partition_mode ≡ partition
      → (s : Text) → contains s fs.sample_ids ≡ true
      → times s fs.folds ≡ 1
