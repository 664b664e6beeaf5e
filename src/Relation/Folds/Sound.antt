-- ===== src/Relation/Folds/Sound.antt =====
-- `FoldSet::validate` accepts only valid fold sets.
use dag_ml_data.Common.{
  All-map, Bool_ext, Option-cases, ℕ, ◌+◌, ◌≡◌, refl, sym, ap, ◌∙◌, ◌⊎◌, inl, inr, true, false, not,
  none, some, List, [], ◌∷◌, arith, is_empty, find,
}
use dag_ml_data.Order.{nat_ord, list_ord}
use dag_ml_data.Text.{Text, text, is_blank}
use dag_ml_data.Collections.{
  contains-keys, find-eq-none, All_at, Map, keys, get, contains_key, contains,
}
use dag_ml_data.Error.{>>-eq-ok, ok, done, for_each, for_each_iff}
use dag_ml_data.Relation.{
  FoldSet, FoldAssignment, FoldPartitionMode, partition, resampled, unique_samples,
}
use dag_ml_data.Relation.Boundary.{unique_samples_sound}
use dag_ml_data.Relation.Folds.{
  check_covered, check_key, FoldState, check_group_map, check_folds, check_counts,
  validate_fold_set, zero_counts,
}
use dag_ml_data.Relation.Folds.Counts.{zero_counts-get}
use dag_ml_data.Relation.Folds.Spec.{times, IsFold, IsFoldSet}
use dag_ml_data.Relation.Folds.Rounds.{check_folds_sound, check_counts_sound}

module _ (sample_ids universe : List Text) (groups : Map Text Text)
    (same : (b : Text) → contains b universe ≡ contains b sample_ids) where
  keys_known :
      for_each (check_key universe) (keys groups) ≡ done
      → (s : Text) → contains s (keys groups) ≡ true
      → contains s sample_ids ≡ true
  keys_known h s m =
      let at =
        All_at (λ t. check_key universe t ≡ done) (keys groups)
          ((for_each_iff (check_key universe) (keys groups)).0 h) s m in
      unfold check_key in ground (arith, same s)

  keys_cover :
      check_covered sample_ids groups ≡ done
      → (s : Text) → contains s sample_ids ≡ true
      → contains s (keys groups) ≡ true
  unfolding check_covered
  keys_cover h s m = elim (Option-cases (find (λ t. not (contains_key t groups)) sample_ids)) [
    | inl e ↦ ground (
      arith,
      find-eq-none (λ t. not (contains_key t groups)) sample_ids e s m,
      contains-keys s groups,
    )
    | inr (t, e) ↦ cc
  ]

  keys_exact :
      for_each (check_key universe) (keys groups) ≡ done
      → check_covered sample_ids groups ≡ done
      → (s : Text) → contains s (keys groups) ≡ contains s sample_ids
  keys_exact h k s = Bool_ext _ _ (keys_known h s) (keys_cover k s)

check_group_map_sound :
    (sample_ids universe : List Text) (groups : Map Text Text)
    → ((b : Text) → contains b universe ≡ contains b sample_ids)
    → check_group_map sample_ids universe groups ≡ done
    → (groups ≡ []) ⊎ ((s : Text) → contains s (keys groups) ≡ contains s sample_ids)
unfolding check_group_map
check_group_map_sound sample_ids universe [] same h = inl refl
check_group_map_sound sample_ids universe (e ∷ groups) same h =
    let (known, covered) =
      >>-eq-ok (for_each (check_key universe) (keys (e ∷ groups)))
        (check_covered sample_ids (e ∷ groups)) h in
    inr (keys_exact sample_ids universe (e ∷ groups) same known covered)

module _ {J : Type 0} where
  abbrev pub start : FoldSet J → FoldState
  start fs = record { fold_ids = []; validation_counts = zero_counts fs.sample_ids [] }

  record Accepted (fs : FoldSet J) : Type 0 where
    universe : List Text
    missing : List Text
    st : FoldState
    named : is_blank fs.id ≡ false
    has_samples : is_empty fs.sample_ids ≡ false
    has_folds : is_empty fs.folds ≡ false
    unique_universe : unique_samples (text "fold set sample_ids") fs.sample_ids ≡ ok universe
    unique_missing :
        unique_samples (text "fold set target_missing_sample_ids") fs.target_missing_sample_ids
        ≡ ok missing
    outside : find (λ s. contains s universe) missing ≡ none
    grouped : check_group_map fs.sample_ids universe fs.sample_groups ≡ done
    folded : check_folds fs.sample_groups universe (start fs) fs.folds ≡ ok st
    counted : check_counts fs.partition_mode st.validation_counts ≡ done

  validate_fold_set-Accepted : (fs : FoldSet J) → validate_fold_set fs ≡ done → Accepted fs
  unfolding validate_fold_set
  validate_fold_set-Accepted fs h = ground arith

  pub IsFold-universe :
      (universe samples : List Text) (groups : Map Text Text) (fold : FoldAssignment J)
      → ((b : Text) → contains b universe ≡ contains b samples)
      → IsFold universe groups fold
      → IsFold samples groups fold
  IsFold-universe universe samples groups fold same f = record {
    named = f.named;
    train_distinct = f.train_distinct;
    held_out_distinct = f.held_out_distinct;
    held_out_nonempty = f.held_out_nonempty;
    inside = λ s m. sym (same s) ∙ f.inside s m;
    disjoint = f.disjoint;
    groups_apart = f.groups_apart;
  }

  times_once :
      (fs : FoldSet J) (st : FoldState) (mode : FoldPartitionMode)
      → ((s : Text) (n : ℕ)
          → get s (start fs).validation_counts ≡ some n
          → get s st.validation_counts ≡ some (n + times s fs.folds))
      → check_counts mode st.validation_counts ≡ done
      → mode ≡ partition
      → (s : Text) → contains s fs.sample_ids ≡ true
      → times s fs.folds ≡ 1
  times_once fs st partition counts h e s m =
      check_counts_sound st.validation_counts s (times s fs.folds) h
        (counts s 0 (zero_counts-get fs.sample_ids [] s ∙ rw m) ∙ ground arith)
  times_once fs st resampled counts h e s m = cc

  -- A fold set that `FoldSet::validate` accepts is valid: unique samples, every fold with disjoint,
  -- known and unrepeated sides and no group across them, and, in partition mode, every sample
  -- validated in exactly one fold.
  pub validate_fold_set_sound : (fs : FoldSet J) → validate_fold_set fs ≡ done → IsFoldSet fs
  validate_fold_set_sound fs h =
      let a = validate_fold_set-Accepted fs h in
      let (distinct, same) = unique_samples_sound _ _ _ a.unique_universe in
      let (missing_distinct, same_missing) = unique_samples_sound _ _ _ a.unique_missing in
      let (each, ids, fresh, counts) =
        check_folds_sound fs.sample_groups a.universe (start fs) a.st fs.folds a.folded in
      record {
        named = a.named;
        samples_nonempty = λ e. cc (a.has_samples, ap is_empty e);
        folds_nonempty = λ e. cc (a.has_folds, ap is_empty e);
        samples_distinct = distinct;
        missing_distinct = missing_distinct;
        missing_outside = λ s m.
            sym (same s)
            ∙ find-eq-none (λ t. contains t a.universe) a.missing a.outside s (same_missing s ∙ m);
        groups_cover =
            check_group_map_sound fs.sample_ids a.universe fs.sample_groups same a.grouped;
        ids_distinct = ids;
        each_fold =
            All-map (λ fold. IsFold-universe a.universe fs.sample_ids fs.sample_groups fold same)
              fs.folds each;
        validated_once = times_once fs a.st fs.partition_mode counts a.counted;
      }
