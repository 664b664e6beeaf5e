-- ===== src/Handle/Requests.antt =====
-- crates/dag-ml-data-core/src/handle.rs: handles, their records, and the requests that make them; with
-- `DataView` of model.rs.
use dag_ml_data.Common.{
  ℕ, ◌+◌, Bool, true, false, not, ◌&&◌, ◌||◌, Option, none, some, List, [], ◌++◌, leb,
  if◌then◌else◌, is_some, is_empty, filter, filter_map, map,
}
use dag_ml_data.Order.{◌==◌, nat_ord, list_ord}
use dag_ml_data.Text.{Text, text, is_blank}
use dag_ml_data.Collections.{Map, contains, collect}
use dag_ml_data.Error.{
  fingerprint_mismatch, validation, Result, ok, ◌>>=◌, ◌>>◌, done, refuse, for_each,
}
use dag_ml_data.Order.{pair_ord}
use dag_ml_data.Relation.Folds.{quote}
use dag_ml_data.Order.{option_ord}
use dag_ml_data.Json.{Json}
use dag_ml_data.Float.{Float}
use dag_ml_data.Schema.Dataset.{repeats}
use dag_ml_data.Plan.{DataPlanStep}
use dag_ml_data.Coordinator.Relations.{
  CoordinatorRelation, CoordinatorRelationSet, validate_relations,
}
use dag_ml_data.Coordinator.Branches.{CoordinatorBranchView}
use dag_ml_data.Coordinator.Cohort.{PredictCohort, validate_fingerprint, is_external}
use dag_ml_data.Coordinator.Same.{same_cohort}
use dag_ml_data.Coordinator.Envelope.{CoordinatorDataPlanEnvelope, Codecs, validate_with_cohort}

pub data CoordinatorHandleKind : Type 0 where
  data_handle view_handle : CoordinatorHandleKind

pub record CoordinatorHandleRef : Type 0 where
  pub handle : ℕ
  pub kind : CoordinatorHandleKind
  pub owner_controller : Text

pub record CoordinatorDataMaterializationRequest (J F : Type 0) : Type 0 where
  pub run_id : Text
  pub node_id : Text
  pub input_name : Text
  pub phase : Text
  pub variant_id : Option Text
  pub fold_id : Option Text
  pub request_id : Text
  pub schema_fingerprint : Text
  pub plan_fingerprint : Text
  pub relation_fingerprint : Option Text
  pub output_representation : Text
  pub source_ids : List Text
  pub require_relations : Bool
  pub predict_cohort : Option (PredictCohort J F)

pub record CoordinatorDataHandleRecord : Type 0 where
  pub handle : CoordinatorHandleRef
  pub run_id : Text
  pub node_id : Text
  pub input_name : Text
  pub phase : Text
  pub variant_id : Option Text
  pub fold_id : Option Text
  pub request_id : Text
  pub schema_fingerprint : Text
  pub plan_fingerprint : Text
  pub relation_fingerprint : Option Text
  pub plan_id : Text
  pub output_representation : Text
  pub source_ids : List Text
  pub sample_count : Option ℕ
  pub relation_record_count : Option ℕ

pub record DataView (J : Type 0) : Type 0 where
  pub sample_ids : Option (List Text)
  pub part : Option Text
  pub fold_id : Option Text
  pub source_ids : Option (List Text)
  pub columns : Option (List Text)
  pub include_augmented : Bool
  pub include_excluded : Bool
  pub branch_view : Option (CoordinatorBranchView J)
  pub extra : Map Text J

pub record CoordinatorDataViewRecord (J : Type 0) : Type 0 where
  pub handle : CoordinatorHandleRef
  pub parent_handle : CoordinatorHandleRef
  pub view : DataView J
  pub sample_count : ℕ
  pub relation_record_count : ℕ

-- `DataView::default`.
abbrev pub default_view : {J : Type 0} → DataView J
default_view = record {
  sample_ids = none;
  part = none;
  fold_id = none;
  source_ids = none;
  columns = none;
  include_augmented = true;
  include_excluded = false;
  branch_view = none;
  extra = [];
}

unfoldable pub validate_non_empty : Text → Text → Result (Unit {0})
validate_non_empty label value =
    refuse (is_blank value) (validation (label ++ text " must not be empty"))

-- `u8::to_ascii_lowercase` and `str::eq_ignore_ascii_case`.
abbrev pub to_ascii_lower : ℕ → ℕ
to_ascii_lower c = if leb b'A' c && leb c b'Z' then c + 32 else c

unfoldable pub eq_ignore_ascii_case : Text → Text → Bool
eq_ignore_ascii_case a b = map to_ascii_lower a == map to_ascii_lower b

-- Where the input of a request is to go.
abbrev pub request_label : {J F : Type 0} → CoordinatorDataMaterializationRequest J F → Text
request_label request =
    quote "materialization request `" request.input_name "` on `" ++ (request.node_id ++ text "` ")

abbrev pub shown_text : Option Text → Text
shown_text none = text "<none>"
shown_text (some value) = value

abbrev pub or_else {ℓ} : {T : Type ℓ} → Option T → Option T → Option T
or_else none other = other
or_else (some value) other = some value

module _ {J F : Type 0} where
  unfoldable pub check_request_relation :
      CoordinatorDataMaterializationRequest J F → Option Text → Result (Unit {0})
  check_request_relation request none = refuse request.require_relations (
      validation
        (request_label request ++ text "requires relations but has no relation_fingerprint"))
  check_request_relation request (some fingerprint) =
      validate_fingerprint (text "relation") fingerprint

  -- `CoordinatorDataMaterializationRequest::validate`.
  unfoldable pub validate_request : CoordinatorDataMaterializationRequest J F → Result (Unit {0})
  unfolding validate_non_empty check_request_relation repeats
  validate_request request = do
    validate_non_empty (text "run_id") request.run_id
    validate_non_empty (text "node_id") request.node_id
    validate_non_empty (text "input_name") request.input_name
    validate_non_empty (text "phase") request.phase
    validate_non_empty (text "request_id") request.request_id
    validate_fingerprint (text "schema") request.schema_fingerprint
    validate_fingerprint (text "plan") request.plan_fingerprint
    check_request_relation request request.relation_fingerprint
    refuse (repeats request.source_ids)
        (validation (request_label request ++ text "contains duplicate source ids"))

  unfoldable pub is_prediction : CoordinatorDataMaterializationRequest J F → Bool
  unfolding eq_ignore_ascii_case
  is_prediction request =
      eq_ignore_ascii_case request.phase (text "predict")
      || eq_ignore_ascii_case request.phase (text "explain")

  unfoldable pub is_companion : CoordinatorDataMaterializationRequest J F → Bool
  unfolding eq_ignore_ascii_case
  is_companion request =
      eq_ignore_ascii_case request.phase (text "fit_cv")
      || eq_ignore_ascii_case request.phase (text "refit")

  abbrev pub cohort_relations : Option (PredictCohort J F) → Option (CoordinatorRelationSet J F)
  cohort_relations none = none
  cohort_relations (some cohort) = some cohort.relations

module _ {J F : Type 0} (json : Json J) (f64 : Float F) (codecs : Codecs J F) where
  -- `envelope.predict_cohort.as_ref() != Some(cohort)`.
  abbrev pub is_authority : Option (PredictCohort J F) → PredictCohort J F → Bool
  is_authority none cohort = false
  is_authority (some authority) cohort = same_cohort json f64 authority cohort

  unfoldable pub relations_for :
      CoordinatorDataPlanEnvelope J F
      → CoordinatorDataMaterializationRequest J F
      → Option (PredictCohort J F)
      → Result (Option (CoordinatorRelationSet J F))
  relations_for envelope request none =
      if is_prediction request
      then ok (or_else (cohort_relations envelope.predict_cohort) envelope.coordinator_relations)
      else ok envelope.coordinator_relations
  relations_for envelope request (some cohort) = do
    validate_with_cohort json f64 codecs cohort
    refuse (not (is_authority envelope.predict_cohort cohort))
        (validation (text "request predict_cohort does not match envelope authority"))
    refuse (not (is_prediction request || (is_companion request && is_external cohort.role)))
        (validation (text "request phase cannot read this predict cohort"))
    ok (cohort_relations envelope.predict_cohort)

  unfoldable pub materialization_relations :
      CoordinatorDataPlanEnvelope J F
      → CoordinatorDataMaterializationRequest J F
      → Result (Option (CoordinatorRelationSet J F))
  unfolding relations_for
  materialization_relations envelope request = relations_for envelope request request.predict_cohort

  unfoldable pub check_required :
      CoordinatorDataPlanEnvelope J F
      → CoordinatorDataMaterializationRequest J F
      → Bool
      → Result (Unit {0})
  unfolding materialization_relations
  check_required envelope request false = done
  check_required envelope request true = do
    relations ← materialization_relations envelope request
    refuse (not (is_some relations))
        (validation (request_label request ++ text "requires coordinator relations"))

  abbrev pub plan_sources : List (DataPlanStep J) → List Text
  plan_sources steps = collect (filter_map (λ step. step.source_id) steps)

  unfoldable pub validate_request_against_envelope :
      CoordinatorDataPlanEnvelope J F
      → CoordinatorDataMaterializationRequest J F
      → Result (Unit {0})
  unfolding check_required
  validate_request_against_envelope envelope request = do
    refuse (not (request.schema_fingerprint == envelope.schema_fingerprint)) (
        fingerprint_mismatch (text "schema") envelope.schema_fingerprint request.schema_fingerprint)
    refuse (not (request.plan_fingerprint == envelope.plan_fingerprint))
        (fingerprint_mismatch (text "plan") envelope.plan_fingerprint request.plan_fingerprint)
    refuse (not (request.relation_fingerprint == envelope.relation_fingerprint)) (
        fingerprint_mismatch (text "relation") (shown_text envelope.relation_fingerprint)
          (shown_text request.relation_fingerprint))
    check_required envelope request request.require_relations
    refuse (not (request.output_representation == envelope.plan.output_representation)) (
        validation (
          request_label request
          ++ (quote "output representation `" request.output_representation
                "` does not match plan output `"
              ++ (envelope.plan.output_representation ++ text "`"))))
    for_each
        (λ source_id. refuse (not (contains source_id (plan_sources envelope.plan.steps))) (
          validation (
            request_label request
            ++ (quote "source `" source_id "` is not present in data plan `"
                ++ (envelope.plan.id ++ text "`")))))
        request.source_ids

  -- The relation has a source, which is in the filter.
  abbrev pub has_source : List Text → CoordinatorRelation J F → Bool
  has_source sources relation = elim relation.source_id [
    | none ↦ false
    | some source_id ↦ contains source_id sources
  ]

  unfoldable pub scoped_relations_for_materialization :
      CoordinatorRelationSet J F
      → CoordinatorDataMaterializationRequest J F
      → Result (CoordinatorRelationSet J F)
  scoped_relations_for_materialization relations request = do
    validate_relations f64 relations
    if is_empty request.source_ids then ok relations else (do
      let scoped : List (CoordinatorRelation J F) =
          filter (has_source (collect request.source_ids)) relations.records
      refuse (is_empty scoped) (
          validation (
            request_label request
            ++ text "selected no coordinator relations for requested source ids"))
      validate_relations f64 (record { records = scoped })
      ok (record { records = scoped }))
