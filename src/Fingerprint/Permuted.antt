-- ===== src/Fingerprint/Permuted.antt =====
-- crates/dag-ml-data-core/src/fingerprint.rs: fingerprints do not depend on the order of the rows.
use dag_ml_data.Common.Permuting.{Spread, IsOrder, sort_by-permuted, differs}
use dag_ml_data.Relation.Table.Sound.{validate_table_sound}
use dag_ml_data.Relation.Table.{validate_table}
use dag_ml_data.Relation.Boundary.{observations}
use dag_ml_data.Fingerprint.{Codec}
use dag_ml_data.Relation.{SampleRelationTable, SampleRelation}
use dag_ml_data.Fingerprint.Artifacts.{cmp_row, sample_relation_fingerprint}
use dag_ml_data.Common.{
  Ordering, ◌≡◌, refl, true, false, Option, none, some, List, [], ◌∷◌, arith, All,
}
use dag_ml_data.Order.{cmp_list-eq_iff, cmp_option, nat_ord, list_ord}
use dag_ml_data.Text.{Text}
use dag_ml_data.Collections.{contains, Distinct}
use dag_ml_data.Error.{done}
use dag_ml_data.Order.{pair_ord, cmp_list}
use mathlib.Core.List.{Permᴰ}

cmp_list-flip :
    (a b : Text)
    → (cmp_list a b ≡ Ordering.lt → cmp_list b a ≡ Ordering.gt)
      × (cmp_list a b ≡ Ordering.gt → cmp_list b a ≡ Ordering.lt)
unfolding cmp_list
cmp_list-flip [] [] = (λ e. cc, λ e. cc)
cmp_list-flip [] (y ∷ b) = (λ e. refl, λ e. cc)
cmp_list-flip (x ∷ a) [] = (λ e. cc, λ e. refl)
cmp_list-flip (x ∷ a) (y ∷ b) =
    let (lt, gt) = cmp_list-flip a b in (λ e. ground (arith, lt, gt), λ e. ground (arith, lt, gt))

cmp_list_trans :
    (a b c : Text)
    → cmp_list a b ≡ Ordering.lt
    → cmp_list b c ≡ Ordering.lt
    → cmp_list a c ≡ Ordering.lt
unfolding cmp_list
cmp_list_trans [] [] c h k = cc
cmp_list_trans (x ∷ a) [] c h k = cc
cmp_list_trans [] (y ∷ b) [] h k = cc
cmp_list_trans [] (y ∷ b) (z ∷ c) h k = refl
cmp_list_trans (x ∷ a) (y ∷ b) [] h k = cc
cmp_list_trans (x ∷ a) (y ∷ b) (z ∷ c) h k = ground (arith, cmp_list_trans a b c)

cmp_option-flip :
    (a b : Option Text)
    → (cmp_option a b ≡ Ordering.lt → cmp_option b a ≡ Ordering.gt)
      × (cmp_option a b ≡ Ordering.gt → cmp_option b a ≡ Ordering.lt)
unfolding cmp_option
cmp_option-flip none none = (λ e. cc, λ e. cc)
cmp_option-flip none (some b) = (λ e. refl, λ e. cc)
cmp_option-flip (some a) none = (λ e. cc, λ e. refl)
cmp_option-flip (some a) (some b) = cmp_list-flip a b

cmp_option_trans :
    (a b c : Option Text)
    → cmp_option a b ≡ Ordering.lt
    → cmp_option b c ≡ Ordering.lt
    → cmp_option a c ≡ Ordering.lt
unfolding cmp_option
cmp_option_trans none none c h k = cc
cmp_option_trans (some a) none c h k = cc
cmp_option_trans none (some b) none h k = cc
cmp_option_trans none (some b) (some c) h k = refl
cmp_option_trans (some a) (some b) none h k = cc
cmp_option_trans (some a) (some b) (some c) h k = cmp_list_trans a b c h k

module _ {J : Type 0} where
  row_order : IsOrder (cmp_row {J = J})
  row_order = record {
    flip_lt = λ x y h. ground (
      arith,
      cmp_list-flip x.observation_id y.observation_id,
      cmp_list-flip x.sample_id y.sample_id,
      cmp_option-flip x.source_id y.source_id,
      cmp_list-eq_iff x.observation_id y.observation_id,
      cmp_list-eq_iff y.observation_id x.observation_id,
      cmp_list-eq_iff x.sample_id y.sample_id,
      cmp_list-eq_iff y.sample_id x.sample_id,
    );
    flip_gt = λ x y h. ground (
      arith,
      cmp_list-flip x.observation_id y.observation_id,
      cmp_list-flip x.sample_id y.sample_id,
      cmp_option-flip x.source_id y.source_id,
      cmp_list-eq_iff x.observation_id y.observation_id,
      cmp_list-eq_iff y.observation_id x.observation_id,
      cmp_list-eq_iff x.sample_id y.sample_id,
      cmp_list-eq_iff y.sample_id x.sample_id,
    );
    trans_lt = λ x y z h k. ground (
      arith,
      cmp_list_trans x.observation_id y.observation_id z.observation_id,
      cmp_list_trans x.sample_id y.sample_id z.sample_id,
      cmp_option_trans x.source_id y.source_id z.source_id,
      cmp_list-eq_iff x.observation_id y.observation_id,
      cmp_list-eq_iff y.observation_id z.observation_id,
      cmp_list-eq_iff x.observation_id z.observation_id,
      cmp_list-eq_iff x.sample_id y.sample_id,
      cmp_list-eq_iff y.sample_id z.sample_id,
      cmp_list-eq_iff x.sample_id z.sample_id,
    );
  }

  absent_differs :
      (row : SampleRelation J) (rows : List (SampleRelation J))
      → contains row.observation_id (observations rows) ≡ false
      → All (λ other. differs (cmp_row row other) ≡ true) rows
  absent_differs row [] absent = tt
  absent_differs row (other ∷ rows) absent = (ground arith, absent_differs row rows (ground arith))

  Distinct-Spread :
      (rows : List (SampleRelation J))
      → Distinct (observations rows)
      → Spread cmp_row row_order rows
  Distinct-Spread [] d = tt
  Distinct-Spread (row ∷ rows) d = (absent_differs row rows d.0, Distinct-Spread rows d.1)

  -- Two valid tables with the same rows, in whatever order, have the same fingerprint.
  pub sample_relation_fingerprint_permuted :
      (codec : Codec J (SampleRelationTable J)) (table other : SampleRelationTable J)
      → validate_table table ≡ done
      → validate_table other ≡ done
      → Permᴰ table.rows other.rows
      → sample_relation_fingerprint codec table ≡ sample_relation_fingerprint codec other
  unfolding sample_relation_fingerprint
  sample_relation_fingerprint_permuted codec table other valid also same =
      let sorted =
        sort_by-permuted cmp_row row_order same
          (Distinct-Spread table.rows (validate_table_sound table valid).distinct) in
      rw (valid, also, sorted)
