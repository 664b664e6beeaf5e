-- ===== src/Tests/Plans.antt =====
-- A plan of two steps, aggregation policies and size contracts. A JSON value is a text here.
use dag_ml_data.Float.{Float}
use dag_ml_data.Order.{cmp_list}
use dag_ml_data.Aggregation.Accepts.{validate_for_task_iff, fits}
use dag_ml_data.Plan.Sound.{IsDataPlan, validate_data_plan_sound}
use dag_ml_data.Plan.Validate.{
  is_duplicate, record_output, output_of, check_input, strings, inputs_of, input_of, check_kind,
  check_step, check_steps, validate_data_plan,
}
use dag_ml_data.Aggregation.{vote, robust_mean, regression, AggregationPolicy, validate_for_task}
use dag_ml_data.Shape.{
  require_signal_type_match_iff, validate_axis_iff, unknown, accepts, absorbance, validate_axis,
  AxisSizeContract, require_signal_type_match,
}
use dag_ml_data.Common.{
  compare, nat_eq, ℕ, ◌≡◌, refl, ◌≢◌, ◌↔◌, ◌⊎◌, true, false, Option, none, some, List, [], ◌∷◌, ltb,
  leb,
}
use dag_ml_data.Order.{cmp_list, nat_ord, list_ord}
use dag_ml_data.Text.{Text, text, is_blank, decimal}
use dag_ml_data.Collections.{put, get}
use dag_ml_data.Error.{done}
use dag_ml_data.Plan.{adapt, materialize, DataPlan, DataPlanStep, FitScope}
use dag_ml_data.Text.{is_whitespace}

as_text : Text → Option Text
as_text value = some value

as_list : Text → Option (List Text)
as_list value = none

abbrev first_step : DataPlanStep Text
first_step = record {
  kind = materialize;
  source_id = some (text "nir");
  adapter_id = none;
  input_representation = none;
  output_representation = some (text "signal");
  fit_scope = FitScope.stateless;
  requires_user_choice = false;
  metadata = [];
}

abbrev second_step : DataPlanStep Text
second_step = record {
  kind = adapt;
  source_id = none;
  adapter_id = some (text "snv");
  input_representation = some (text "signal");
  output_representation = some (text "tabular");
  fit_scope = FitScope.stateless;
  requires_user_choice = false;
  metadata = (text "input", text "src:nir") ∷ [];
}

abbrev two_steps : DataPlan Text
two_steps = record {
  id = text "p";
  steps = first_step ∷ second_step ∷ [];
  output_representation = text "tabular";
  issues = [];
}

two_steps-valid : validate_data_plan as_text as_list two_steps ≡ done
unfolding as_text as_list validate_data_plan check_steps check_step check_kind input_of inputs_of
    strings check_input output_of record_output is_duplicate is_blank is_whitespace put get cmp_list
    text
two_steps-valid = refl

validate_data_plan_sound_example : IsDataPlan as_text as_list two_steps
validate_data_plan_sound_example =
    validate_data_plan_sound as_text as_list two_steps two_steps-valid

-- Numbers for `f64`, in hundredths.
abbrev hundredths : Float ℕ
hundredths = record {
  is_finite = λ x. true;
  le = leb;
  lt = ltb;
  same = nat_eq;
  partial_cmp = λ a b. some (compare a b);
  zero_f = 0;
  half_f = 50;
  one_f = 100;
  display = decimal;
}

abbrev trimmed : AggregationPolicy ℕ
trimmed = record {
  reducer = robust_mean;
  trim_fraction = some 20;
  threshold = none;
  weight_column = none;
  custom_reducer_id = none;
}

validate_for_task_iff_example : (validate_for_task hundredths trimmed regression ≡ done) ↔ (
    (fits hundredths robust_mean trimmed ≡ true)
    × ¬ ((robust_mean ≡ vote) × (regression ≡ regression)))
validate_for_task_iff_example = validate_for_task_iff hundredths trimmed regression

abbrev between : AxisSizeContract
between = record { exact = none; min = some 2; max = some 5 }

validate_axis_iff_example :
    (validate_axis (text "w") between ≡ done)
    ↔ ((true ≡ true) × ((size : ℕ) × (accepts between size ≡ true)))
validate_axis_iff_example = validate_axis_iff (text "w") between

require_signal_type_match_iff_example :
    (require_signal_type_match absorbance unknown true ≡ done) ↔ (
      ((absorbance ≡ unknown) × (absorbance ≢ unknown))
      ⊎ (((absorbance ≡ unknown) ⊎ (unknown ≡ unknown)) × (true ≡ true)))
require_signal_type_match_iff_example = require_signal_type_match_iff absorbance unknown true
