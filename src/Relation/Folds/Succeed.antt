-- ===== src/Relation/Folds/Succeed.antt =====
-- The loops of `FoldSet::validate` succeed on valid folds.
use dag_ml_data.Relation.Folds.Rounds.{held_out_label, train_label}
use dag_ml_data.Relation.Boundary.{
  validate_group_boundary_complete, unique_samples_sound, unique_samples_total,
}
use dag_ml_data.Relation.Folds.Spec.{IsFold, ids_of}
use dag_ml_data.Common.{
  ◌++◌, ℕ, suc, ◌≡◌, refl, sym, ap, ◌∙◌, true, false, ◌||◌, some, List, [], ◌∷◌, arith, is_empty,
  All,
}
use dag_ml_data.Order.{◌==◌, ==_iff, ==_refl, nat_ord, list_ord}
use dag_ml_data.Text.{Text}
use dag_ml_data.Collections.{
  contains-insert, insert, contains-append, find-none, All-of_contains, contains_head,
  contains-keys, Map, keys, put, get, modify, get-put, contains, Distinct, collect,
  contains-collect,
}
use dag_ml_data.Error.{ok, done, for_each, for_each_iff}
use dag_ml_data.Relation.{FoldAssignment, partition}
use dag_ml_data.Relation.Folds.{
  FoldState, check_counts, check_fold, check_folds, check_known, check_overlap, count_each,
  zero_counts,
}

known_complete :
    (fold_id : Text) (universe members : List Text)
    → ((s : Text) → contains s members ≡ true → contains s universe ≡ true)
    → for_each (check_known fold_id universe) (collect members) ≡ done
known_complete fold_id universe members inside =
    (for_each_iff (check_known fold_id universe) (collect members)).1 (
      All-of_contains _ (collect members)
        (λ s m. unfold check_known in rw (inside s (sym (contains-collect s members) ∙ m))))

overlap_complete :
    (fold_id : Text) (train held_out : List Text)
    → ((s : Text) → contains s train ≡ true → contains s held_out ≡ false)
    → check_overlap fold_id train held_out ≡ done
unfolding check_overlap
overlap_complete fold_id train held_out apart =
    rw (find-none (λ s. contains s held_out) train apart, check_overlap)

nonempty_of :
    (held_out xs : List Text)
    → ((b : Text) → contains b held_out ≡ contains b xs)
    → ((xs ≡ []) → ⊥)
    → is_empty held_out ≡ false
nonempty_of [] [] same h = absurd (h refl)
nonempty_of [] (x ∷ xs) same h = ground (arith, same x, contains_head x xs)
nonempty_of (y ∷ held_out) xs same h = refl

keys-modify : (k : Text) (f : ℕ → ℕ) (m : Map Text ℕ) → keys (modify k f m) ≡ keys m
unfolding modify
keys-modify k f [] = refl
keys-modify k f ((j, w) ∷ m) = ap (λ l. j ∷ l) (keys-modify k f m)

keys-count_each : (xs : List Text) (m : Map Text ℕ) → keys (count_each xs m) ≡ keys m
unfolding count_each
keys-count_each [] m = refl
keys-count_each (x ∷ xs) m = keys-count_each xs (modify x suc m) ∙ keys-modify x suc m

contains-keys-put :
    (b k : Text) (v : ℕ) (m : Map Text ℕ)
    → contains b (keys (put k v m)) ≡ (b == k || contains b (keys m))
contains-keys-put b k v m =
    ground (arith, contains-keys b (put k v m), contains-keys b m, get-put b k v m)

put-Distinct :
    (k : Text) (v : ℕ) (m : Map Text ℕ)
    → contains k (keys m) ≡ false
    → Distinct (keys m)
    → Distinct (keys (put k v m))
unfolding put
put-Distinct k v [] h d = (refl, tt)
put-Distinct k v ((j, w) ∷ m) h d = ground (
  arith,
  put-Distinct k v m (ground arith) d.1,
  contains-keys-put j k v m,
  ==_iff j k,
  ==_iff k j,
)

pub zero_counts-Distinct :
    (xs : List Text) (m : Map Text ℕ)
    → Distinct xs
    → ((b : Text) → contains b xs ≡ true → contains b (keys m) ≡ false)
    → Distinct (keys m)
    → Distinct (keys (zero_counts xs m))
unfolding zero_counts
zero_counts-Distinct [] m dx f d = d
zero_counts-Distinct (x ∷ xs) m dx f d =
    zero_counts-Distinct xs (put x 0 m) dx.1
      (λ b h. ground (arith, contains-keys-put b x 0 m, f b, ==_iff b x))
      (put-Distinct x 0 m (f x (contains_head x xs)) d)

pub All-from_get :
    (P : ℕ → Type 0) (m : Map Text ℕ)
    → Distinct (keys m)
    → ((k : Text) (v : ℕ) → get k m ≡ some v → P v)
    → All (λ entry. P entry.1) m
unfolding get
All-from_get P [] d h = tt
All-from_get P ((k, v) ∷ m) d h = (
  h k v (rw (==_refl k)),
  All-from_get P m d.1 (λ j w e. h j w (ground (arith, ==_iff j k, contains-keys k m))),
)

pub check_counts_complete :
    (m : Map Text ℕ) → All (λ entry. entry.1 ≡ 1) m → check_counts partition m ≡ done
unfolding check_counts
check_counts_complete [] h = refl
check_counts_complete ((k, v) ∷ m) h = ground (arith, check_counts_complete m h.1)

module _ {J : Type 0} (groups : Map Text Text) (universe : List Text) where
  check_fold_complete :
      (st : FoldState) (fold : FoldAssignment J)
      → IsFold universe groups fold
      → contains fold.fold_id st.fold_ids ≡ false
      → (st' : FoldState) × (check_fold groups universe st fold ≡ ok st')
        × ((b : Text) → contains b st'.fold_ids ≡ (b == fold.fold_id || contains b st.fold_ids))
        × (keys st'.validation_counts ≡ keys st.validation_counts)
  unfolding check_fold
  check_fold_complete st fold f fresh =
      let (train, et) =
        unique_samples_total (train_label fold.fold_id) fold.train_sample_ids f.train_distinct in
      let (held_out, ev) =
        unique_samples_total (held_out_label fold.fold_id) fold.validation_sample_ids
          f.held_out_distinct in
      let same = (unique_samples_sound _ _ _ et).1 in
      let same' = (unique_samples_sound _ _ _ ev).1 in
      let nonempty = nonempty_of held_out fold.validation_sample_ids same' f.held_out_nonempty in
      let known =
        known_complete fold.fold_id universe (train ++ held_out)
          (λ s m. f.inside s (sym (contains-append s train held_out ∙ rw (same s, same' s)) ∙ m)) in
      let apart =
        overlap_complete fold.fold_id train held_out
          (λ s m. same' s ∙ f.disjoint s (sym (same s) ∙ m)) in
      let grouped =
        validate_group_boundary_complete fold.fold_id train held_out groups (λ s t g ms mt gs gt.
          f.groups_apart s t g (sym (same s) ∙ ms) (sym (same' t) ∙ mt) gs gt) in
      (
        record {
          fold_ids = insert fold.fold_id st.fold_ids;
          validation_counts = count_each held_out st.validation_counts;
        },
        ground (arith, f.named),
        λ b. contains-insert b fold.fold_id st.fold_ids,
        keys-count_each held_out st.validation_counts,
      )

  pub check_folds_complete :
      (st : FoldState) (folds : List (FoldAssignment J))
      → All (IsFold universe groups) folds
      → Distinct (ids_of folds)
      → ((b : Text) → contains b (ids_of folds) ≡ true → contains b st.fold_ids ≡ false)
      → (st' : FoldState) × (check_folds groups universe st folds ≡ ok st')
        × (keys st'.validation_counts ≡ keys st.validation_counts)
  unfolding check_folds
  check_folds_complete st [] each distinct fresh = (st, refl, refl)
  check_folds_complete st (fold ∷ folds) each distinct fresh =
      let (mid, first, ids, same) =
        check_fold_complete st fold each.0
          (fresh fold.fold_id (contains_head fold.fold_id (ids_of folds))) in
      let (st', rest, same') =
        check_folds_complete mid folds each.1 distinct.1
          (λ b m. ground (arith, ids b, fresh b, ==_iff b fold.fold_id, distinct.0)) in
      (st', rw (first, check_folds) rest, same' ∙ same)
