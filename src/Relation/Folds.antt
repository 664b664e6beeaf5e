-- ===== src/Relation/Folds.antt =====
-- `FoldSet::validate` of crates/dag-ml-data-core/src/relation.rs, one function for each of its loops.
pub mod Spec
pub mod Counts
pub mod Rounds
pub mod Sound
pub mod Succeed
pub mod Complete
use dag_ml_data.Common.{
  String, ℕ, zero, suc, ◌+◌, ◌-◌, ◌*◌, ◌^◌, ◌≤◌, ◌<◌, ◌≡◌, refl, sym, ap, ◌∙◌, subst, ◌≢◌, ◌↔◌, ◌⊎◌,
  inl, inr, Bool, true, false, not, ◌&&◌, ◌||◌, false≢true, Option, none, some, List, [], ◌∷◌, ◌++◌,
  arith, ltb, leb, nat_eq, if◌then◌else◌, Bool-cases, is_some, length, is_empty, all, any, All,
  filter, filter_map, find, map, append_assoc, append-nil,
}
use dag_ml_data.Order.{Ord, ◌==◌, ==_iff, ==_refl, nat_ord, list_ord, then}
use dag_ml_data.Text.{Text, text, is_blank, byte_len, decimal}
use dag_ml_data.Collections.{
  Map, key, keys, values, put, get, contains_key, modify, remove, get-put, get-modify, contains,
  Distinct, insert, collect, contains-insert, contains-collect,
}
use dag_ml_data.Error.{
  DataError, validation, Result, ok, err, ◌>>=◌, ◌>>◌, done, refuse, for_each, ok_or, refuse_iff,
  >>_iff, >>=-eq-ok, for_each_iff,
}
use dag_ml_data.Relation.{
  FoldSet, FoldAssignment, FoldPartitionMode, partition, resampled, unique_samples,
  validate_group_boundary,
}

unfoldable pub quote : String → Text → String → Text
quote before id after = text before ++ (id ++ text after)

unfoldable pub check_key : List Text → Text → Result (Unit {0})
unfolding quote
check_key universe s =
    refuse (not (contains s universe))
      (validation (quote "sample group map references unknown sample `" s "`"))

unfoldable pub check_covered : List Text → Map Text Text → Result (Unit {0})
unfolding quote
check_covered sample_ids sample_groups =
    elim (find (λ s. not (contains_key s sample_groups)) sample_ids) [
      | none ↦ done
      | some s ↦ err (validation (quote "sample `" s "` is missing from non-empty group map"))
    ]

-- The group map names samples of the universe only, and all of them.
unfoldable pub check_group_map : List Text → List Text → Map Text Text → Result (Unit {0})
unfolding check_key check_covered
check_group_map sample_ids universe sample_groups =
    if is_empty sample_groups
    then done
    else for_each (check_key universe) (keys sample_groups)
      >> check_covered sample_ids sample_groups

-- `BTreeMap` from every sample to 0.
unfoldable pub zero_counts : List Text → Map Text ℕ → Map Text ℕ
zero_counts [] m = m
zero_counts (s ∷ samples) m = zero_counts samples (put s 0 m)

-- `*validation_counts.get_mut(..).expect(..) += 1` for each validation sample: `check_known` has
-- refused a sample that is no key.
unfoldable pub count_each : List Text → Map Text ℕ → Map Text ℕ
count_each [] m = m
count_each (s ∷ samples) m = count_each samples (modify s suc m)

-- A sample of a fold is in the universe.
unfoldable pub check_known : Text → List Text → Text → Result (Unit {0})
unfolding quote
check_known fold_id universe s =
    refuse (not (contains s universe))
      (validation (quote "fold `" fold_id "` references unknown sample `" ++ (s ++ text "`")))

-- No sample lies on both sides of a fold.
unfoldable pub check_overlap : Text → List Text → List Text → Result (Unit {0})
unfolding quote
check_overlap fold_id train held_out = elim (find (λ s. contains s held_out) train) [
  | none ↦ done
  | some s ↦ err (
      validation
        (quote "fold `" fold_id "` has train/validation overlap at sample `" ++ (s ++ text "`")))
]

-- What the loop over the folds carries: the ids seen, and how often each sample was validated.
pub record FoldState : Type 0 where
  pub fold_ids : List Text
  pub validation_counts : Map Text ℕ

unfoldable pub check_counts : FoldPartitionMode → Map Text ℕ → Result (Unit {0})
unfolding quote
check_counts resampled counts = done
check_counts partition counts =
    for_each
      (λ entry. refuse (not (nat_eq entry.1 1)) (
        validation (
          quote "sample `" entry.0 "` appears in validation "
          ++ (decimal entry.1 ++ text " time(s), expected exactly once"))))
      counts

module _ {J : Type 0} where
  -- One round of the loop over the folds.
  unfoldable pub check_fold :
      Map Text Text → List Text → FoldState → FoldAssignment J → Result FoldState
  unfolding quote count_each
  check_fold sample_groups universe st fold = do
    refuse (is_blank fold.fold_id) (validation (text "fold assignment id is empty"))
    refuse (contains fold.fold_id st.fold_ids)
        (validation (quote "duplicate fold id `" fold.fold_id "`"))
    train ← unique_samples (quote "fold `" fold.fold_id "` train_sample_ids") fold.train_sample_ids
    held_out ←
        unique_samples (quote "fold `" fold.fold_id "` validation_sample_ids")
          fold.validation_sample_ids
    refuse (is_empty held_out)
        (validation (quote "fold `" fold.fold_id "` has no validation samples"))
    for_each (check_known fold.fold_id universe) (collect (train ++ held_out))
    check_overlap fold.fold_id train held_out
    validate_group_boundary fold.fold_id train held_out sample_groups
    ok (record {
      fold_ids = insert fold.fold_id st.fold_ids;
      validation_counts = count_each held_out st.validation_counts;
    })

  unfoldable pub check_folds :
      Map Text Text → List Text → FoldState → List (FoldAssignment J) → Result FoldState
  check_folds sample_groups universe st [] = ok st
  check_folds sample_groups universe st (fold ∷ folds) = do
    st' ← check_fold sample_groups universe st fold
    check_folds sample_groups universe st' folds

  unfoldable pub validate_fold_set : FoldSet J → Result (Unit {0})
  unfolding quote zero_counts check_folds check_counts
  validate_fold_set fs = do
    refuse (is_blank fs.id) (validation (text "fold set id is empty"))
    refuse (is_empty fs.sample_ids) (validation (text "fold set contains no samples"))
    refuse (is_empty fs.folds) (validation (text "fold set contains no folds"))
    universe ← unique_samples (text "fold set sample_ids") fs.sample_ids
    target_missing ←
        unique_samples (text "fold set target_missing_sample_ids") fs.target_missing_sample_ids
    elim (find (λ s. contains s universe) target_missing) [
      | none ↦ done
      | some s ↦ err (
          validation
            (quote "target-missing sample `" s "` must not be part of the fold set sample_ids"))
    ]
    check_group_map fs.sample_ids universe fs.sample_groups
    st ←
        check_folds fs.sample_groups universe
          (record { fold_ids = []; validation_counts = zero_counts fs.sample_ids [] }) fs.folds
    check_counts fs.partition_mode st.validation_counts
