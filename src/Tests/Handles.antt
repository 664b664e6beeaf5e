-- ===== src/Tests/Handles.antt =====
-- An arena with a data handle of two relations and a view of it.
use dag_ml_data.Handle.Unknown.{no_call, released_stays_unknown}
use dag_ml_data.Handle.Selection.{filter_relations-IsSelection, IsSelection}
use dag_ml_data.Handle.Live.{Reachable-IsWellFormed}
use dag_ml_data.Handle.Reach.{started, viewed, materialized, called, Reachable}
use dag_ml_data.Handle.Invariant.{IsWellFormed}
use dag_ml_data.Handle.Release.{release_handle-IsReleased, IsReleased}
use dag_ml_data.Common.Sorting.{sort_by}
use dag_ml_data.Handle.Views.{
  branch_filters, BranchFilters, filter_relations, resolved_view_labels, validate_view,
}
use dag_ml_data.ContentHash.{hex}
use dag_ml_data.Fingerprint.Artifacts.{data_plan_fingerprint}
use dag_ml_data.Plan.Validate.{validate_data_plan}
use dag_ml_data.Coordinator.Cohort.{check_optional, validate_fingerprint, validate_fingerprint}
use dag_ml_data.Plan.{DataPlanStepKind, FitScope, DataPlan}
use dag_ml_data.Fingerprint.{typed_fingerprint, Codec}
use dag_ml_data.Coordinator.Envelope.{CoordinatorDataPlanEnvelope, validate_envelope, Codecs}
use dag_ml_data.Handle.Arena.{
  view_identity, data_identity, new_arena, release_handle, view_record_of, handle_record_of,
  insert_data, viewed_relations, checked_relations, insert_view, make_view, materialize,
  CoordinatorHandleArena,
}
use dag_ml_data.Handle.Requests.{
  validate_non_empty, is_prediction, default_view, DataView, CoordinatorDataViewRecord,
  CoordinatorDataHandleRecord, materialization_relations, validate_request_against_envelope,
  validate_request, CoordinatorDataMaterializationRequest, scoped_relations_for_materialization,
}
use dag_ml_data.Coordinator.Relations.{
  validate_relations, validate_relations, CoordinatorRelation, new_relation, CoordinatorRelationSet,
}
use dag_ml_data.Common.{ℕ, zero, suc, ◌≡◌, refl, true, false, none, some, List, [], ◌∷◌, arith}
use dag_ml_data.Order.{cmp_option, nat_ord, list_ord}
use dag_ml_data.Text.{Text, text, is_blank, byte_len}
use dag_ml_data.Collections.{put, get, insert, collect}
use dag_ml_data.Error.{unknown_handle, serialization, ok, err, done}
use dag_ml_data.Order.{pair_ord, cmp_list}
use dag_ml_data.Tests.Values.{null_value, Value, values_json, hundredths, no_native}

abbrev pub first_relation : CoordinatorRelation Value ℕ
unfolding new_relation
first_relation = record (new_relation (text "o1") (text "s1")) { source_id = some (text "nir") }

abbrev pub second_relation : CoordinatorRelation Value ℕ
unfolding new_relation
second_relation = record (new_relation (text "o2") (text "s2")) { source_id = some (text "mir") }

abbrev pub two_relations : CoordinatorRelationSet Value ℕ
two_relations = record { records = first_relation ∷ second_relation ∷ [] }

abbrev pub empty_arena : CoordinatorHandleArena Value ℕ
empty_arena = record {
  owner_controller = text "host";
  next_handle = 1;
  records = [];
  data_relations = [];
  view_records = [];
  view_relations = [];
}

abbrev pub one_step : DataPlan Value
one_step = record {
  id = text "p";
  steps =
      record {
        kind = DataPlanStepKind.materialize;
        source_id = some (text "nir");
        adapter_id = none;
        input_representation = none;
        output_representation = some (text "signal");
        fit_scope = FitScope.stateless;
        requires_user_choice = false;
        metadata = [];
      }
      ∷ [];
  output_representation = text "signal";
  issues = [];
}

abbrev pub zeros : ℕ → List ℕ
zeros zero = []
zeros (suc n) = 0 ∷ zeros n

-- Codecs that read back one value, with one digest for all.
abbrev pub refusing : {T : Type 0} → Codec Value T
refusing = record {
  to_value = λ value. ok null_value;
  sort_all_objects = λ value. value;
  from_value = λ value. err (serialization (text "unreadable"));
  to_vec = λ value. ok [];
  digest = λ bytes. zeros 32;
}

abbrev pub plan_codecs : Codecs Value ℕ
plan_codecs = record {
  of_relations = refusing;
  of_cohort = refusing;
  of_plan = record refusing { from_value = λ value. ok one_step };
  of_schema = refusing;
  of_table = refusing;
}

abbrev pub zero_digest : Text
zero_digest = text "0000000000000000000000000000000000000000000000000000000000000000"

abbrev pub one_envelope : CoordinatorDataPlanEnvelope Value ℕ
one_envelope = record {
  schema_version = 1;
  schema_fingerprint = zero_digest;
  plan_fingerprint = zero_digest;
  relation_fingerprint = none;
  data_content_fingerprint = none;
  target_content_fingerprint = none;
  plan = one_step;
  coordinator_relations = some two_relations;
  predict_cohort = none;
  metadata = [];
}

abbrev pub one_request : CoordinatorDataMaterializationRequest Value ℕ
one_request = record {
  run_id = text "r";
  node_id = text "n";
  input_name = text "x";
  phase = text "FIT_CV";
  variant_id = none;
  fold_id = none;
  request_id = text "q";
  schema_fingerprint = zero_digest;
  plan_fingerprint = zero_digest;
  relation_fingerprint = none;
  output_representation = text "signal";
  source_ids = [];
  require_relations = false;
  predict_cohort = none;
}

run_envelope : validate_envelope values_json hundredths plan_codecs one_envelope ≡ done
unfolding validate_envelope validate_fingerprint byte_len text validate_data_plan is_blank get
    cmp_list data_plan_fingerprint typed_fingerprint hex validate_relations first_relation insert
    check_optional
run_envelope = refl

run_request : validate_request one_request ≡ done
unfolding validate_request is_blank text validate_fingerprint byte_len collect
run_request = refl

run_against :
    validate_request_against_envelope values_json hundredths plan_codecs one_envelope one_request
    ≡ done
unfolding validate_request_against_envelope cmp_list text cmp_option
run_against = refl

run_relations :
    materialization_relations values_json hundredths plan_codecs one_envelope one_request
    ≡ ok (some two_relations)
unfolding materialization_relations is_prediction text cmp_list
run_relations = refl

run_scoped :
    scoped_relations_for_materialization values_json hundredths plan_codecs two_relations
      one_request
    ≡ ok two_relations
unfolding scoped_relations_for_materialization validate_relations first_relation insert cmp_list
    text
run_scoped = refl

abbrev pub data_record : CoordinatorDataHandleRecord
data_record = handle_record_of empty_arena one_envelope one_request (some two_relations)

abbrev pub data_arena : CoordinatorHandleArena Value ℕ
data_arena = insert_data empty_arena data_record (some two_relations)

run_checked :
    checked_relations values_json hundredths plan_codecs one_envelope one_request
    ≡ ok (some two_relations)
unfolding checked_relations
run_checked = rw (run_envelope, run_request, run_against, run_relations, run_scoped)

run_materialize :
    materialize values_json hundredths plan_codecs empty_arena one_envelope one_request
    ≡ ok (data_arena, data_record)
unfolding materialize
run_materialize = rw run_checked

-- The two samples, in the other order.
abbrev pub turned_view : DataView Value
turned_view = record default_view { sample_ids = some (text "s2" ∷ text "s1" ∷ []) }

abbrev pub turned : List (CoordinatorRelation Value ℕ)
turned = second_relation ∷ first_relation ∷ []

abbrev pub view_record : CoordinatorDataViewRecord Value
view_record = view_record_of data_arena turned_view data_record turned

abbrev pub view_arena : CoordinatorHandleArena Value ℕ
view_arena = insert_view data_arena view_record turned

run_viewed :
    viewed_relations values_json no_native data_arena 1 turned_view ≡ ok (data_record, turned)
unfolding viewed_relations validate_view collect cmp_list text get insert_data put
    resolved_view_labels filter_relations first_relation sort_by
run_viewed = refl

run_view : make_view values_json no_native data_arena 1 turned_view ≡ ok (view_arena, view_record)
unfolding make_view
run_view = rw run_viewed

started_arena : Reachable values_json hundredths plan_codecs no_native empty_arena
unfolding new_arena validate_non_empty is_blank text
started_arena = started (text "host") empty_arena refl

with_data : Reachable values_json hundredths plan_codecs no_native data_arena
with_data =
    called empty_arena data_arena started_arena
      (materialized one_envelope one_request data_arena data_record (ground arith) run_materialize)

with_view : Reachable values_json hundredths plan_codecs no_native view_arena
unfolding insert_data
with_view =
    called data_arena view_arena with_data
      (viewed 1 turned_view view_arena view_record (ground arith) run_view)

Reachable-IsWellFormed_example : IsWellFormed view_arena
Reachable-IsWellFormed_example =
    Reachable-IsWellFormed values_json hundredths plan_codecs no_native view_arena with_view

release_handle-IsReleased_example :
    IsReleased view_arena 1 (release_handle view_arena 1).0 (release_handle view_arena 1).1
release_handle-IsReleased_example =
    release_handle-IsReleased view_arena
      (Reachable-IsWellFormed values_json hundredths plan_codecs no_native view_arena with_view) 1

run_release : (release_handle view_arena 1).1 ≡ true
unfolding release_handle get insert_view put insert_data
run_release = refl

released_stays_unknown_example :
    (data_identity (release_handle view_arena 1).0 1 ≡ err (unknown_handle (text "data") 1))
    × (view_identity (release_handle view_arena 1).0 1 ≡ err (unknown_handle (text "view") 1))
released_stays_unknown_example =
    released_stays_unknown values_json hundredths plan_codecs no_native view_arena
      (release_handle view_arena 1).0 1 with_view run_release no_call

run_filter : filter_relations values_json no_native two_relations.records turned_view ≡ ok turned
unfolding filter_relations collect cmp_list text first_relation sort_by get put
run_filter = refl

filter_relations-IsSelection_example :
    (branch : BranchFilters Value) × (branch_filters values_json no_native turned_view.branch_view
      ≡ ok branch)
    × IsSelection values_json no_native turned_view branch two_relations.records turned
filter_relations-IsSelection_example =
    filter_relations-IsSelection values_json no_native two_relations.records turned_view turned
      run_filter
