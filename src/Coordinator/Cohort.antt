-- ===== src/Coordinator/Cohort.antt =====
-- crates/dag-ml-data-core/src/predict_cohort.rs: the identity of a cohort for prediction.
use dag_ml_data.Common.{
  ℕ, Bool, true, false, not, ◌&&◌, ◌||◌, Option, none, some, List, [], ◌∷◌, ◌++◌, leb, nat_eq,
  is_some, is_empty, all, any, map,
}
use dag_ml_data.Order.{◌==◌, nat_ord, list_ord}
use dag_ml_data.Text.{Text, text, is_blank, byte_len}
use dag_ml_data.Collections.{contains, collect}
use dag_ml_data.Error.{validation, Result, ok, ◌>>=◌, ◌>>◌, done, refuse, for_each}
use dag_ml_data.Order.{pair_ord, cmp_list}
use dag_ml_data.Common.{Ordering}
use dag_ml_data.Float.{Float}
use dag_ml_data.Fingerprint.{Codec, typed_fingerprint}
use dag_ml_data.Schema.Dataset.{repeats}
use dag_ml_data.Coordinator.Relations.{
  CoordinatorRelation, CoordinatorRelationSet, CanonicalRecord, validate_relations,
  relation_set_fingerprint,
}

pub data PredictCohortRole : Type 0 where
  external_test inference : PredictCohortRole

pub record PredictCohort (J F : Type 0) : Type 0 where
  pub role : PredictCohortRole
  pub physical_sample_ids : List Text
  pub origin_sample_ids : List Text
  pub target_names : List Text
  pub relation_fingerprint : Text
  pub relations : CoordinatorRelationSet J F
  pub data_content_fingerprint : Text
  pub target_content_fingerprint : Option Text
  pub cohort_fingerprint : Text

pub record FingerprintInput (J F : Type 0) : Type 0 where
  pub role : PredictCohortRole
  pub physical_sample_ids : List Text
  pub origin_sample_ids : List Text
  pub target_names : List Text
  pub relation_fingerprint : Text
  pub relations : CoordinatorRelationSet J F
  pub data_content_fingerprint : Text
  pub target_content_fingerprint : Option Text

abbrev pub is_hex_digit : ℕ → Bool
is_hex_digit c =
    (leb b'0' c && leb c b'9') || (leb b'a' c && leb c b'f') || (leb b'A' c && leb c b'F')

-- `validate_fingerprint` of coordinator.rs: a byte beyond ASCII is no hexadecimal digit.
unfoldable pub validate_fingerprint : Text → Text → Result (Unit {0})
validate_fingerprint label value =
    refuse (not (nat_eq (byte_len value) 64) || not (all is_hex_digit value))
      (validation (label ++ text " fingerprint must be a 64-character hex digest"))

abbrev pub is_less : Ordering → Bool
is_less Ordering.lt = true
is_less _ = false

-- `ids.windows(2).any(|pair| pair[0] >= pair[1])`.
unfoldable pub descends : List Text → Bool
descends [] = false
descends (a ∷ []) = false
descends (a ∷ b ∷ ids) = let rest = descends (b ∷ ids) in not (is_less (cmp_list a b)) || rest

unfoldable pub check_ids : Text × List Text → Result (Unit {0})
unfolding descends
check_ids (label, ids) = refuse (is_empty ids || descends ids) (
    validation
      (text "predict cohort " ++ (label ++ text " IDs must be nonempty, sorted and unique")))

abbrev pub is_external : PredictCohortRole → Bool
is_external external_test = true
is_external inference = false

abbrev pub same_bool : Bool → Bool → Bool
same_bool true b = b
same_bool false b = not b

unfoldable pub check_optional : Text → Option Text → Result (Unit {0})
unfolding validate_fingerprint
check_optional label none = done
check_optional label (some value) = validate_fingerprint label value

module _ {J F : Type 0} where
  abbrev pub physical_of : List (CoordinatorRelation J F) → List Text
  physical_of records = collect (map (λ row. row.sample_id) records)

  abbrev pub origin_of : CoordinatorRelation J F → Text
  origin_of row = elim row.origin_sample_id [ none ↦ row.sample_id | some origin ↦ origin ]

  abbrev pub origins_of : List (CoordinatorRelation J F) → List Text
  origins_of records = collect (map origin_of records)

  abbrev pub identities : CoordinatorRelation J F → List Text
  identities row = elim row.origin_sample_id [
    | none ↦ row.sample_id ∷ []
    | some origin ↦ row.sample_id ∷ origin ∷ []
  ]

  unfoldable pub training_ids : List (CoordinatorRelation J F) → List Text
  training_ids [] = []
  training_ids (row ∷ rows) = identities row ++ training_ids rows

module _ {J F : Type 0} (f64 : Float F) (relation_codec : Codec J (List (CanonicalRecord J F)))
    (cohort_codec : Codec J (FingerprintInput J F)) where
  unfoldable pub validate_members : PredictCohort J F → Result (Unit {0})
  unfolding check_ids repeats check_optional relation_set_fingerprint
  validate_members cohort = do
    for_each check_ids (
        (text "physical", cohort.physical_sample_ids)
        ∷ (text "origin", cohort.origin_sample_ids)
        ∷ [])
    refuse
        (is_empty cohort.target_names
          || repeats cohort.target_names
          || any is_blank cohort.target_names)
        (validation (text "predict cohort target names must be nonempty and unique"))
    validate_fingerprint (text "predict cohort data content") cohort.data_content_fingerprint
    check_optional (text "predict cohort target content") cohort.target_content_fingerprint
    refuse (not (same_bool (is_external cohort.role) (is_some cohort.target_content_fingerprint)))
        (validation (text "external_test requires target content; inference forbids it"))
    validate_relations f64 cohort.relations
    actual ← relation_set_fingerprint f64 relation_codec cohort.relations
    refuse (not (cohort.relation_fingerprint == actual))
        (validation (text "predict cohort relation fingerprint does not match relations"))
    refuse
        (not (physical_of cohort.relations.records == collect cohort.physical_sample_ids)
          || not (origins_of cohort.relations.records == collect cohort.origin_sample_ids))
        (validation (text "predict cohort IDs do not cover exactly its relations"))

  -- `PredictCohort::fingerprint`.
  unfoldable pub cohort_fingerprint_of : PredictCohort J F → Result Text
  unfolding validate_members
  cohort_fingerprint_of cohort = do
    validate_members cohort
    typed_fingerprint cohort_codec (record {
      role = cohort.role;
      physical_sample_ids = cohort.physical_sample_ids;
      origin_sample_ids = cohort.origin_sample_ids;
      target_names = cohort.target_names;
      relation_fingerprint = cohort.relation_fingerprint;
      relations = cohort.relations;
      data_content_fingerprint = cohort.data_content_fingerprint;
      target_content_fingerprint = cohort.target_content_fingerprint;
    })

  -- `PredictCohort::from_relations`.
  unfoldable pub from_relations :
      PredictCohortRole
      → CoordinatorRelationSet J F
      → List Text
      → Text
      → Option Text
      → Result (PredictCohort J F)
  unfolding cohort_fingerprint_of
  from_relations role relations target_names data_content_fingerprint target_content_fingerprint =
      do
        relation_fingerprint ← relation_set_fingerprint f64 relation_codec relations
        let cohort : PredictCohort J F = record {
          role = role;
          physical_sample_ids = physical_of relations.records;
          origin_sample_ids = origins_of relations.records;
          target_names = target_names;
          relation_fingerprint = relation_fingerprint;
          relations = relations;
          data_content_fingerprint = data_content_fingerprint;
          target_content_fingerprint = target_content_fingerprint;
          cohort_fingerprint = [];
        }
        fingerprint ← cohort_fingerprint_of cohort
        ok (record cohort { cohort_fingerprint = fingerprint })

  -- `PredictCohort::validate`.
  unfoldable pub validate_cohort : PredictCohort J F → Result (Unit {0})
  unfolding cohort_fingerprint_of
  validate_cohort cohort = do
    validate_fingerprint (text "predict cohort") cohort.cohort_fingerprint
    actual ← cohort_fingerprint_of cohort
    refuse (not (cohort.cohort_fingerprint == actual))
        (validation (text "predict cohort fingerprint does not match content"))

  unfoldable pub refuse_overlap :
      PredictCohort J F → List (CoordinatorRelation J F) → PredictCohortRole → Result (Unit {0})
  unfolding training_ids
  refuse_overlap cohort records inference = done
  refuse_overlap cohort records external_test =
      let training = collect (training_ids records) in
      refuse
        (any (λ id. contains id training) (cohort.physical_sample_ids ++ cohort.origin_sample_ids))
        (validation (text "external_test cohort overlaps training physical/origin identities"))

  -- `PredictCohort::validate_disjoint`.
  unfoldable pub validate_disjoint :
      PredictCohort J F → CoordinatorRelationSet J F → Result (Unit {0})
  unfolding validate_cohort refuse_overlap
  validate_disjoint cohort training_relations = do
    validate_cohort cohort
    validate_relations f64 training_relations
    refuse_overlap cohort training_relations.records cohort.role
