-- ===== src/Relation/Folds/Complete.antt =====
-- `FoldSet::validate` accepts every valid fold set.
use dag_ml_data.Common.{
  All-map, ℕ, ◌+◌, ◌≡◌, refl, sym, ap, ◌∙◌, subst, ◌⊎◌, inl, inr, false, not, none, some, List, [],
  ◌∷◌, arith, is_some, is_empty, All,
}
use dag_ml_data.Order.{nat_ord, list_ord}
use dag_ml_data.Text.{Text, text}
use dag_ml_data.Collections.{Map, keys, get, contains_key, contains, Distinct}
use dag_ml_data.Error.{done, for_each, >>_iff, for_each_iff}
use dag_ml_data.Collections.{All-of_contains, contains-keys, find-none}
use dag_ml_data.Relation.{FoldSet, FoldPartitionMode, partition, resampled}
use dag_ml_data.Relation.Boundary.{unique_samples_sound, unique_samples_total}
use dag_ml_data.Relation.Folds.{
  FoldState, check_counts, check_covered, check_group_map, check_key, validate_fold_set,
}
use dag_ml_data.Relation.Folds.Counts.{zero_counts-get}
use dag_ml_data.Relation.Folds.Spec.{IsFoldSet, times}
use dag_ml_data.Relation.Folds.Rounds.{check_folds_sound}
use dag_ml_data.Relation.Folds.Sound.{IsFold-universe, start}
use dag_ml_data.Relation.Folds.Succeed.{
  zero_counts-Distinct, All-from_get, check_counts_complete, check_folds_complete,
}

mode_complete :
    (mode : FoldPartitionMode) (m : Map Text ℕ)
    → (mode ≡ partition → All (λ entry. entry.1 ≡ 1) m)
    → check_counts mode m ≡ done
mode_complete partition m h = check_counts_complete m (h refl)
mode_complete resampled m h = unfold check_counts in refl

group_map_complete :
    (samples universe : List Text) (groups : Map Text Text)
    → ((b : Text) → contains b universe ≡ contains b samples)
    → (groups ≡ []) ⊎ ((s : Text) → contains s (keys groups) ≡ contains s samples)
    → check_group_map samples universe groups ≡ done
unfolding check_group_map
group_map_complete samples universe [] same h = refl
group_map_complete samples universe (e ∷ groups) same (inl h) = cc
group_map_complete samples universe (e ∷ groups) same (inr h) =
    (>>_iff (for_each (check_key universe) (keys (e ∷ groups))) (check_covered samples (e ∷ groups))
        tt).1
      (
        (for_each_iff (check_key universe) (keys (e ∷ groups))).1 (
            All-of_contains _ (keys (e ∷ groups))
              (λ s m. unfold check_key in rw (same s ∙ sym (h s) ∙ m))),
        unfold check_covered in
            rw (
              find-none (λ t. not (contains_key t (e ∷ groups))) samples
                  (λ s m. rw (sym (contains-keys s (e ∷ groups)) ∙ h s ∙ m)),
              check_covered,
            ),
      )

is_empty_of {ℓ} : {A : Type ℓ} (xs : List A) → ((xs ≡ []) → ⊥) → is_empty xs ≡ false
is_empty_of [] h = absurd (h refl)
is_empty_of (x ∷ xs) h = refl

module _ {J : Type 0} where
  -- Every sample of the final counts is counted once.
  counted_once :
      (fs : FoldSet J) (st : FoldState)
      → IsFoldSet fs
      → keys st.validation_counts ≡ keys (start fs).validation_counts
      → ((s : Text) (n : ℕ)
          → get s (start fs).validation_counts ≡ some n
          → get s st.validation_counts ≡ some (n + times s fs.folds))
      → fs.partition_mode ≡ partition
      → All (λ entry. entry.1 ≡ 1) st.validation_counts
  counted_once fs st v same counts mode =
      All-from_get (λ n. n ≡ 1) st.validation_counts
        (subst Distinct (sym same)
          (zero_counts-Distinct fs.sample_ids [] v.samples_distinct (λ b m. refl) tt))
        (λ k n e.
          let started = zero_counts-get fs.sample_ids [] k in
          let known = contains-keys k st.validation_counts ∙ ap is_some e in
          let member = ap (contains k) (sym same) in
          let absent : get {V = ℕ} k [] ≡ none = unfold get in refl in
          ground (
            arith,
            started,
            known,
            member,
            absent,
            contains-keys k (start fs).validation_counts,
            counts k 0,
            v.validated_once mode k,
          ))

  -- `FoldSet::validate` accepts every valid fold set.
  pub validate_fold_set_complete : (fs : FoldSet J) → IsFoldSet fs → validate_fold_set fs ≡ done
  unfolding validate_fold_set
  validate_fold_set_complete fs v =
      let (universe, eu) =
        unique_samples_total (text "fold set sample_ids") fs.sample_ids v.samples_distinct in
      let (missing, em) =
        unique_samples_total (text "fold set target_missing_sample_ids")
          fs.target_missing_sample_ids v.missing_distinct in
      let same = (unique_samples_sound _ _ _ eu).1 in
      let same_missing = (unique_samples_sound _ _ _ em).1 in
      let outside =
        find-none (λ s. contains s universe) missing
          (λ s m. same s ∙ v.missing_outside s (sym (same_missing s) ∙ m)) in
      let grouped =
        group_map_complete fs.sample_ids universe fs.sample_groups same v.groups_cover in
      let (st, folded, same_keys) =
        check_folds_complete fs.sample_groups universe (start fs) fs.folds
          (All-map
            (λ fold.
              IsFold-universe fs.sample_ids universe fs.sample_groups fold (λ b. sym (same b)))
            fs.folds v.each_fold)
          v.ids_distinct (λ b m. refl) in
      let counts = (check_folds_sound fs.sample_groups universe (start fs) st fs.folds folded).3 in
      let counted =
        mode_complete fs.partition_mode st.validation_counts
          (counted_once fs st v same_keys counts) in
      let has_samples = is_empty_of fs.sample_ids v.samples_nonempty in
      let has_folds = is_empty_of fs.folds v.folds_nonempty in ground (arith, v.named)
