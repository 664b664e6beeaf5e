-- ===== src/Relation/Folds/Rounds.antt =====
-- What the loops of `FoldSet::validate` guarantee when they succeed.
use dag_ml_data.Relation.Folds.Spec.{one_if, times, IsFold, ids_of}
use dag_ml_data.Relation.Folds.Counts.{count_each-get}
use dag_ml_data.Common.{
  subst, Bool-cases, ◌+◌, sym, some, All, ap, ℕ, Option-cases, ◌≡◌, ◌∙◌, inl, inr, true, false,
  List, [], ◌∷◌, ◌++◌, arith, is_empty, find,
}
use dag_ml_data.Order.{◌==◌, ==_iff, ==_refl, nat_ord, list_ord}
use dag_ml_data.Text.{Text, is_blank}
use dag_ml_data.Collections.{
  contains-insert, contains-append, get, contains_head, find-eq-none, All_at, Map, contains,
  Distinct, insert, collect, contains-collect,
}
use dag_ml_data.Error.{>>=-eq-ok, ok, done, for_each, for_each_iff}
use dag_ml_data.Relation.{partition, FoldAssignment, unique_samples, validate_group_boundary}
use dag_ml_data.Relation.Boundary.{
  unique_samples-set, contains-false, validate_group_boundary_sound, unique_samples_sound,
}
use dag_ml_data.Relation.Folds.{
  check_counts, check_folds, quote, FoldState, check_known, check_overlap, check_fold, count_each,
}

known_sound :
    (fold_id : Text) (universe members : List Text)
    → for_each (check_known fold_id universe) (collect members) ≡ done
    → (s : Text) → contains s members ≡ true
    → contains s universe ≡ true
known_sound fold_id universe members h s m =
    let at =
      All_at (λ t. check_known fold_id universe t ≡ done) (collect members)
        ((for_each_iff (check_known fold_id universe) (collect members)).0 h) s
        (contains-collect s members ∙ m) in
    unfold check_known in ground arith

overlap_sound :
    (fold_id : Text) (train held_out : List Text)
    → check_overlap fold_id train held_out ≡ done
    → (s : Text) → contains s train ≡ true
    → contains s held_out ≡ false
unfolding check_overlap
overlap_sound fold_id train held_out h =
    elim (Option-cases (find (λ s. contains s held_out) train)) [
      | inl e ↦ find-eq-none (λ s. contains s held_out) train e
      | inr (s, e) ↦ cc
    ]

abbrev pub train_label : Text → Text
train_label id = quote "fold `" id "` train_sample_ids"

abbrev pub held_out_label : Text → Text
held_out_label id = quote "fold `" id "` validation_sample_ids"

is_empty_nil :
    (held_out xs : List Text)
    → is_empty held_out ≡ false
    → ((b : Text) → contains b held_out ≡ contains b xs)
    → xs ≡ []
    → ⊥
is_empty_nil [] xs e same nil = cc
is_empty_nil (x ∷ held_out) xs e same nil =
    ground (arith, contains_head x held_out, same x, ap (contains x) nil)

module _ {J : Type 0} (groups : Map Text Text) (universe : List Text) where
  -- The parts of a successful round.
  record Round (st st' : FoldState) (fold : FoldAssignment J) : Type 0 where
    train : List Text
    held_out : List Text
    unique_train : unique_samples (train_label fold.fold_id) fold.train_sample_ids ≡ ok train
    unique_held_out :
        unique_samples (held_out_label fold.fold_id) fold.validation_sample_ids ≡ ok held_out
    named : is_blank fold.fold_id ≡ false
    fresh : contains fold.fold_id st.fold_ids ≡ false
    nonempty : is_empty held_out ≡ false
    known : for_each (check_known fold.fold_id universe) (collect (train ++ held_out)) ≡ done
    apart : check_overlap fold.fold_id train held_out ≡ done
    grouped : validate_group_boundary fold.fold_id train held_out groups ≡ done
    ids : st'.fold_ids ≡ insert fold.fold_id st.fold_ids
    counts : st'.validation_counts ≡ count_each held_out st.validation_counts

  check_fold-Round :
      (st st' : FoldState) (fold : FoldAssignment J)
      → check_fold groups universe st fold ≡ ok st'
      → Round st st' fold
  unfolding check_fold
  check_fold-Round st st' fold h = ground arith

  Round-IsFold :
      (st st' : FoldState) (fold : FoldAssignment J)
      → Round st st' fold
      → IsFold universe groups fold
  Round-IsFold st st' fold r =
      let (dt, mt) = unique_samples_sound _ _ _ r.unique_train in
      let (dv, mv) = unique_samples_sound _ _ _ r.unique_held_out in
      record {
        named = r.named;
        train_distinct = dt;
        held_out_distinct = dv;
        held_out_nonempty = is_empty_nil r.held_out fold.validation_sample_ids r.nonempty mv;
        inside = λ s m.
            known_sound fold.fold_id universe (r.train ++ r.held_out) r.known s
              (contains-append s r.train r.held_out ∙ rw (mt s, mv s) m);
        disjoint =
            λ s m. sym (mv s) ∙ overlap_sound fold.fold_id r.train r.held_out r.apart s (mt s ∙ m);
        groups_apart = λ s t g ms mv' gs gt.
            validate_group_boundary_sound fold.fold_id r.train r.held_out groups r.grouped s t g
              (mt s ∙ ms) (mv t ∙ mv') gs gt;
      }

  Round-counts :
      (st st' : FoldState) (fold : FoldAssignment J)
      → Round st st' fold
      → (s : Text) (n : ℕ) → get s st.validation_counts ≡ some n
      → get s st'.validation_counts ≡ some (n + one_if (contains s fold.validation_sample_ids))
  Round-counts st st' fold r s n e =
      let (dv, mv) = unique_samples_sound _ _ _ r.unique_held_out in
      rw r.counts (
        count_each-get r.held_out st.validation_counts s n
          (unique_samples-set _ _ _ r.unique_held_out) e
        ∙ ap (λ b. some (n + one_if b)) (mv s))

  pub check_folds_sound :
      (st st' : FoldState) (folds : List (FoldAssignment J))
      → check_folds groups universe st folds ≡ ok st'
      → All (IsFold universe groups) folds
        × Distinct (ids_of folds)
        × ((b : Text) → contains b (ids_of folds) ≡ true → contains b st.fold_ids ≡ false)
        × ((s : Text) (n : ℕ)
            → get s st.validation_counts ≡ some n
            → get s st'.validation_counts ≡ some (n + times s folds))
  unfolding check_folds
  check_folds_sound st st' [] h = (tt, tt, λ b m. cc, λ s n e. ground arith)
  check_folds_sound st st' (fold ∷ folds) h =
      let (mid, first, rest) =
        >>=-eq-ok (check_fold groups universe st fold) (λ m. check_folds groups universe m folds)
          h in
      let r = check_fold-Round st mid fold first in
      let (each, distinct, fresh, counts) = check_folds_sound mid st' folds rest in
      let inserted =
        λ (b : Text). ap (contains b) r.ids ∙ contains-insert b fold.fold_id st.fold_ids in
      (
        (Round-IsFold st mid fold r, each),
        (
          contains-false fold.fold_id (ids_of folds) (λ m.
              ground (arith, fresh fold.fold_id m, inserted fold.fold_id, ==_refl fold.fold_id)),
          distinct,
        ),
        λ b m. ground (arith, fresh b, inserted b, ==_iff b fold.fold_id, r.fresh),
        λ s n e.
            counts s (n + one_if (contains s fold.validation_sample_ids))
              (Round-counts st mid fold r s n e)
            ∙ ground arith,
      )

-- The last loop: what is counted for a sample is 1.
All_get :
    (P : ℕ → Type 0) (m : Map Text ℕ) (s : Text) (n : ℕ)
    → All (λ entry. P entry.1) m
    → get s m ≡ some n
    → P n
unfolding get
All_get P [] s n h e = cc
All_get P ((k, v) ∷ m) s n h e = elim (Bool-cases (s == k)) [
  | inl same ↦ subst P (ground arith) h.0
  | inr other ↦ All_get P m s n h.1 (ground arith)
]

check_counts_each :
    (m : Map Text ℕ) → check_counts partition m ≡ done → All (λ entry. entry.1 ≡ 1) m
unfolding check_counts
check_counts_each [] h = tt
check_counts_each ((k, v) ∷ m) h = (ground arith, check_counts_each m (ground arith))

pub check_counts_sound :
    (m : Map Text ℕ) (s : Text) (n : ℕ) → check_counts partition m ≡ done → get s m ≡ some n → n ≡ 1
check_counts_sound m s n h e = All_get (λ k. k ≡ 1) m s n (check_counts_each m h) e
