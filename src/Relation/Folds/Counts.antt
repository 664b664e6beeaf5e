-- ===== src/Relation/Folds/Counts.antt =====
-- How often the loops of `FoldSet::validate` count a sample.
use dag_ml_data.Common.{
  ℕ, suc, ◌+◌, ◌≡◌, refl, sym, ◌∙◌, subst, inl, inr, false, some, List, [], ◌∷◌, arith,
  if◌then◌else◌, Bool-cases,
}
use dag_ml_data.Order.{◌==◌, ==_iff, nat_ord, list_ord}
use dag_ml_data.Text.{Text}
use dag_ml_data.Collections.{Map, put, get, modify, get-put, get-modify, contains, Distinct}
use dag_ml_data.Relation.Folds.Spec.{one_if}
use dag_ml_data.Relation.Folds.{zero_counts, count_each}

pub zero_counts-get :
    (xs : List Text) (m : Map Text ℕ) (s : Text)
    → get s (zero_counts xs m) ≡ (if contains s xs then some 0 else get s m)
unfolding zero_counts
zero_counts-get [] m s = refl
zero_counts-get (x ∷ xs) m s = ground (arith, zero_counts-get xs (put x 0 m) s, get-put s x 0 m)

pub count_each-get :
    (xs : List Text) (m : Map Text ℕ) (s : Text) (n : ℕ)
    → Distinct xs
    → get s m ≡ some n
    → get s (count_each xs m) ≡ some (n + one_if (contains s xs))
unfolding count_each
count_each-get [] m s n d e = ground arith
count_each-get (x ∷ xs) m s n d e = elim (Bool-cases (s == x)) [
  | inl same ↦
      let absent = subst (λ t. contains t xs ≡ false) (sym ((==_iff s x).0 same)) d.0 in
      count_each-get xs (modify x suc m) s (suc n) d.1 (get-modify s x suc m ∙ rw (same, e))
      ∙ rw (same, absent) (ground arith)
  | inr other ↦
      count_each-get xs (modify x suc m) s n d.1 (get-modify s x suc m ∙ rw other e) ∙ rw other
]
