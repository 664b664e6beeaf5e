-- ===== src/Tests/Cohorts.antt =====
-- An external test of one sample, apart from the training relations.
use dag_ml_data.ContentHash.{hex}
use dag_ml_data.Coordinator.Disjoint.{validate_disjoint-Apart, Apart}
use dag_ml_data.Fingerprint.{typed_fingerprint, Codec}
use dag_ml_data.Coordinator.Relations.{
  CanonicalRecord, new_relation, CoordinatorRelationSet, CoordinatorRelation,
}
use dag_ml_data.Coordinator.Cohort.{
  external_test, PredictCohort, FingerprintInput, validate_disjoint,
}
use dag_ml_data.Common.{ℕ, ◌≡◌, refl, some, List, [], ◌∷◌, All}
use dag_ml_data.Order.{nat_ord, list_ord}
use dag_ml_data.Text.{text, is_blank, byte_len}
use dag_ml_data.Collections.{collect}
use dag_ml_data.Error.{ok, done}
use dag_ml_data.Order.{pair_ord, cmp_list}
use dag_ml_data.Tests.Values.{Value, hundredths}
use dag_ml_data.Tests.Handles.{two_relations, refusing, zero_digest}

abbrev held_out : CoordinatorRelation Value ℕ
held_out = new_relation (text "o9") (text "s9")

abbrev held_out_relations : CoordinatorRelationSet Value ℕ
held_out_relations = record { records = held_out ∷ [] }

abbrev relation_codec : Codec Value (List (CanonicalRecord Value ℕ))
relation_codec = record refusing { from_value = λ value. ok [] }

abbrev held_out_input : FingerprintInput Value ℕ
held_out_input = record {
  role = external_test;
  physical_sample_ids = text "s9" ∷ [];
  origin_sample_ids = text "s9" ∷ [];
  target_names = text "protein" ∷ [];
  relation_fingerprint = zero_digest;
  relations = held_out_relations;
  data_content_fingerprint = zero_digest;
  target_content_fingerprint = some zero_digest;
}

abbrev cohort_codec : Codec Value (FingerprintInput Value ℕ)
cohort_codec = record refusing { from_value = λ value. ok held_out_input }

abbrev held_out_cohort : PredictCohort Value ℕ
held_out_cohort = record {
  role = external_test;
  physical_sample_ids = text "s9" ∷ [];
  origin_sample_ids = text "s9" ∷ [];
  target_names = text "protein" ∷ [];
  relation_fingerprint = zero_digest;
  relations = held_out_relations;
  data_content_fingerprint = zero_digest;
  target_content_fingerprint = some zero_digest;
  cohort_fingerprint = zero_digest;
}

run_disjoint :
    validate_disjoint hundredths relation_codec cohort_codec held_out_cohort two_relations ≡ done
unfolding validate_disjoint byte_len text collect is_blank new_relation typed_fingerprint cmp_list
    hex
run_disjoint = refl

validate_disjoint-Apart_example :
    All (λ row. All (Apart row) two_relations.records) held_out_cohort.relations.records
validate_disjoint-Apart_example =
    validate_disjoint-Apart hundredths relation_codec cohort_codec held_out_cohort two_relations
      refl run_disjoint
