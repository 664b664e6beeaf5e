-- ===== src/Coordinator/Envelope.antt =====
-- crates/dag-ml-data-core/src/coordinator.rs: the envelope of a data plan, and the relations of the
-- coordinator for a table of sample relations.
use dag_ml_data.Common.{
  ℕ, Bool, false, not, ◌&&◌, ◌||◌, Option, none, some, List, [], ◌∷◌, ◌++◌, nat_eq, if◌then◌else◌,
  is_some, any, find,
}
use dag_ml_data.Order.{◌==◌, nat_ord, list_ord}
use dag_ml_data.Text.{Text, text, decimal}
use dag_ml_data.Collections.{Map, put, get, contains_key, contains}
use dag_ml_data.Error.{
  transpose, fingerprint_mismatch, validation, Result, ok, ◌>>=◌, ◌>>◌, done, refuse, for_each,
  ok_or,
}
use dag_ml_data.Order.{pair_ord, cmp_list}
use dag_ml_data.Relation.Folds.{quote}
use dag_ml_data.Common.Sorting.{sort_by}
use dag_ml_data.Json.{Json, as_str, as_array}
use dag_ml_data.Float.{Float}
use dag_ml_data.Fingerprint.{Codec}
use dag_ml_data.Plan.{DataPlan, DataPlanStep}
use dag_ml_data.Plan.Validate.{validate_data_plan}
use dag_ml_data.Relation.{SampleRelation, SampleRelationTable}
use dag_ml_data.Relation.Table.{validate_table}
use dag_ml_data.Schema.Representations.{SourceDescriptor}
use dag_ml_data.Schema.Dataset.{DatasetSchema, validate_schema}
use dag_ml_data.Coordinator.Relations.{
  CoordinatorRelation, CoordinatorRelationSet, CanonicalRecord, validate_relations, observation,
}
use dag_ml_data.Coordinator.Cohort.{
  PredictCohort, FingerprintInput, validate_cohort, validate_disjoint, validate_fingerprint,
  check_optional, is_external,
}
use dag_ml_data.Fingerprint.Artifacts.{
  schema_fingerprint, data_plan_fingerprint, sample_relation_fingerprint,
}

pub record CoordinatorDataPlanEnvelope (J F : Type 0) : Type 0 where
  pub schema_version : ℕ
  pub schema_fingerprint : Text
  pub plan_fingerprint : Text
  pub relation_fingerprint : Option Text
  pub data_content_fingerprint : Option Text
  pub target_content_fingerprint : Option Text
  pub plan : DataPlan J
  pub coordinator_relations : Option (CoordinatorRelationSet J F)
  pub predict_cohort : Option (PredictCohort J F)
  pub metadata : Map Text J

-- The serialized forms that the code hashes.
pub record Codecs (J F : Type 0) : Type 0 where
  pub of_relations : Codec J (List (CanonicalRecord J F))
  pub of_cohort : Codec J (FingerprintInput J F)
  pub of_plan : Codec J (DataPlan J)
  pub of_schema : Codec J (DatasetSchema J F)
  pub of_table : Codec J (SampleRelationTable J)

module _ {J F : Type 0} (json : Json J) (f64 : Float F) (codecs : Codecs J F) where
  abbrev pub validate_with_cohort : PredictCohort J F → Result (Unit {0})
  validate_with_cohort cohort = validate_cohort f64 codecs.of_relations codecs.of_cohort cohort

  unfoldable pub check_cohort :
      PredictCohort J F → Option (CoordinatorRelationSet J F) → Result (Unit {0})
  check_cohort cohort relations = do
    validate_with_cohort cohort
    if is_external cohort.role
        then (do
          cv ← ok_or relations (validation (text "external_test requires coordinator_relations"))
          validate_disjoint f64 codecs.of_relations codecs.of_cohort cohort cv)
        else done

  -- The match on the version and the cohort.
  unfoldable pub check_version :
      ℕ → Option (PredictCohort J F) → Option (CoordinatorRelationSet J F) → Result (Unit {0})
  unfolding check_cohort
  check_version version none relations =
      refuse (nat_eq version 2) (validation (text "envelope V2 requires predict_cohort"))
  check_version version (some cohort) relations = do
    refuse (nat_eq version 1) (validation (text "envelope V1 cannot carry predict_cohort"))
    check_cohort cohort relations

  abbrev pub check_relations : Option (CoordinatorRelationSet J F) → Result (Unit {0})
  check_relations none = done
  check_relations (some relations) = validate_relations f64 relations

  unfoldable pub check_relation_fingerprint :
      Option Text → Option (CoordinatorRelationSet J F) → Result (Unit {0})
  check_relation_fingerprint none relations = done
  check_relation_fingerprint (some fingerprint) relations = do
    validate_fingerprint (text "relation") fingerprint
    refuse (not (is_some relations))
        (validation (text "relation_fingerprint requires coordinator_relations"))

  -- `CoordinatorDataPlanEnvelope::validate`.
  unfoldable pub validate_envelope : CoordinatorDataPlanEnvelope J F → Result (Unit {0})
  unfolding check_version check_relations check_relation_fingerprint
  validate_envelope envelope = do
    refuse (not (nat_eq envelope.schema_version 1 || nat_eq envelope.schema_version 2)) (
        validation (
          text "coordinator data-plan envelope uses unsupported schema_version "
          ++ (decimal envelope.schema_version ++ text ", expected 1")))
    check_version envelope.schema_version envelope.predict_cohort envelope.coordinator_relations
    validate_fingerprint (text "schema") envelope.schema_fingerprint
    validate_fingerprint (text "plan") envelope.plan_fingerprint
    validate_data_plan (as_str json) (as_array json) envelope.plan
    actual_plan ← data_plan_fingerprint json codecs.of_plan envelope.plan
    refuse (not (actual_plan == envelope.plan_fingerprint))
        (fingerprint_mismatch (text "plan") envelope.plan_fingerprint actual_plan)
    check_relations envelope.coordinator_relations
    check_relation_fingerprint envelope.relation_fingerprint envelope.coordinator_relations
    check_optional (text "data content") envelope.data_content_fingerprint
    check_optional (text "target content") envelope.target_content_fingerprint

-- `observation_to_sample`.
unfoldable pub sample_by_observation :
    {J : Type 0} → List (SampleRelation J) → Map Text Text → Map Text Text
sample_by_observation [] found = found
sample_by_observation (row ∷ rows) found =
    sample_by_observation rows (put row.observation_id row.sample_id found)

unfoldable pub origin_sample : Map Text Text → Option Text → Result (Option Text)
origin_sample samples none = ok none
origin_sample samples (some origin_id) = do
  sample_id ←
      ok_or (get origin_id samples)
        (validation (quote "origin `" origin_id "` is not present as an observation"))
  ok (some sample_id)

abbrev pub shown_source : Option Text → Text
shown_source none = []
shown_source (some source) = source

abbrev pub find_origin :
    {J : Type 0} → List (SampleRelation J) → Option Text → Option (SampleRelation J)
find_origin rows none = none
find_origin rows (some id) = find (λ base. base.observation_id == id) rows

module _ {J F : Type 0} where
  unfoldable pub to_relation : Map Text Text → SampleRelation J → Result (CoordinatorRelation J F)
  unfolding origin_sample
  to_relation samples row = do
    origin_sample_id ← origin_sample samples row.origin_id
    ok (record {
      unit_level = observation;
      unit_id = none;
      rep_id = row.repetition_id;
      derived_unit_id = none;
      component_observation_ids = [];
      sample_influence_weight = none;
      quality_flag = none;
      observation_id = row.observation_id;
      sample_id = row.sample_id;
      target_id = row.target_id;
      group_id = row.group_id;
      origin_sample_id = origin_sample_id;
      source_id = row.source_id;
      is_augmented = row.augmented;
      excluded = row.excluded;
      metadata = row.metadata;
      tags = row.tags;
    })

  unfoldable pub to_relations :
      Map Text Text → List (SampleRelation J) → Result (List (CoordinatorRelation J F))
  unfolding to_relation
  to_relations samples [] = ok []
  to_relations samples (row ∷ rows) = do
    relation ← to_relation samples row
    rest ← to_relations samples rows
    ok (relation ∷ rest)

  unfoldable pub coordinator_relations_from_sample_table :
      Float F → SampleRelationTable J → Result (CoordinatorRelationSet J F)
  unfolding sample_by_observation to_relations
  coordinator_relations_from_sample_table f64 table = do
    validate_table table
    records ← to_relations (sample_by_observation table.rows []) table.rows
    let converted : CoordinatorRelationSet J F = record {
      records = sort_by (λ left right. cmp_list left.observation_id right.observation_id) records;
    }
    validate_relations f64 converted
    ok converted

  -- A source that is given and that the schema does not declare.
  abbrev pub undeclared : List (SourceDescriptor J F) → Option Text → Bool
  undeclared sources none = false
  undeclared sources (some source) = not (any (λ declared. declared.id == source) sources)

  unfoldable pub check_step_source : DatasetSchema J F → DataPlanStep J → Result (Unit {0})
  check_step_source schema step =
      refuse (undeclared schema.sources step.source_id)
        (validation (quote "plan references undeclared source `" (shown_source step.source_id) "`"))

  abbrev pub unknown_target : DatasetSchema J F → Option Text → Bool
  unknown_target schema none = false
  unknown_target schema (some target) = not (contains_key target schema.targets)

  -- `origin.is_some_and(…)`: the row that the origin names is there, and its sample is of the schema.
  abbrev pub origin_declared : DatasetSchema J F → Option (SampleRelation J) → Bool
  origin_declared schema none = false
  origin_declared schema (some base) = contains base.sample_id schema.sample_ids

  unfoldable pub check_row_declared :
      DatasetSchema J F → List (SampleRelation J) → SampleRelation J → Result (Unit {0})
  check_row_declared schema rows row = do
    refuse (not (contains row.sample_id schema.sample_ids) && not row.augmented)
        (validation (quote "relation references undeclared sample `" row.sample_id "`"))
    refuse (undeclared schema.sources row.source_id || unknown_target schema row.target_id)
        (validation (text "relation references undeclared source or target"))
    refuse (row.augmented && not (origin_declared schema (find_origin rows row.origin_id)))
        (validation (text "augmented relation origin is outside the schema"))

  unfoldable pub check_table_declared :
      DatasetSchema J F → Option (SampleRelationTable J) → Result (Unit {0})
  unfolding check_row_declared
  check_table_declared schema none = done
  check_table_declared schema (some table) = do
    validate_table table
    for_each (check_row_declared schema table.rows) table.rows

module _ {J F : Type 0} (json : Json J) (f64 : Float F) (as_f64 : J → Option F)
    (codecs : Codecs J F) where
  -- `CoordinatorDataPlanEnvelope::from_parts`.
  unfoldable pub from_parts :
      DatasetSchema J F
      → DataPlan J
      → Option (SampleRelationTable J)
      → Result (CoordinatorDataPlanEnvelope J F)
  unfolding check_step_source check_table_declared coordinator_relations_from_sample_table
      validate_envelope
  from_parts schema plan relations = do
    validate_schema json f64 as_f64 schema
    for_each (check_step_source schema) plan.steps
    check_table_declared schema relations
    schema_key ← schema_fingerprint json f64 as_f64 codecs.of_schema schema
    plan_key ← data_plan_fingerprint json codecs.of_plan plan
    relation_key ← transpose (sample_relation_fingerprint codecs.of_table) relations
    coordinator_relations ← transpose (coordinator_relations_from_sample_table f64) relations
    let envelope : CoordinatorDataPlanEnvelope J F = record {
      schema_version = 1;
      schema_fingerprint = schema_key;
      plan_fingerprint = plan_key;
      relation_fingerprint = relation_key;
      data_content_fingerprint = none;
      target_content_fingerprint = none;
      plan = plan;
      coordinator_relations = coordinator_relations;
      predict_cohort = none;
      metadata = [];
    }
    validate_envelope json f64 codecs envelope
    ok envelope
