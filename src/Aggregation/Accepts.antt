-- ===== src/Aggregation/Accepts.antt =====
-- Which aggregation policies `AggregationPolicy::validate_for_task` accepts.
use dag_ml_data.Aggregation.{
  regression, vote, median, mean, check_custom, check_weight, check_threshold, weighted_mean,
  is_vote_regression, exclude_outliers, check_trim, PredictionTaskKind, robust_mean,
  check_parameter, reject_unexpected, validate_policy, AggregationPolicy, validate_for_task,
  AggregationReducerName, canonical_aggregation_reducers, allowed, is_clean_label, Float,
}
use dag_ml_data.Common.{
  ◌≡◌, refl, ◌↔◌, Bool, true, false, not, ◌&&◌, ◌||◌, Option, none, some, [], arith, is_some,
}
use dag_ml_data.Order.{◌==◌, nat_ord, list_ord}
use dag_ml_data.Text.{Text, text}
use dag_ml_data.Collections.{contains}
use dag_ml_data.Error.{Result, ◌>>◌, done}

is_clean_label-nil : is_clean_label [] ≡ false
unfolding is_clean_label
is_clean_label-nil = refl

module _ {F : Type 0} (f64 : Float F) where
  in_trim_range : Option F → Bool
  in_trim_range none = true
  in_trim_range (some trim) = f64.is_finite trim && f64.le f64.zero_f trim && f64.lt trim f64.half_f

  in_threshold_range : Option F → Bool
  in_threshold_range none = true
  in_threshold_range (some threshold) =
      f64.is_finite threshold
      && not (f64.le threshold f64.zero_f)
      && not (f64.le f64.one_f threshold)

  is_label : Option Text → Bool
  is_label none = false
  is_label (some label) = is_clean_label label

  is_reserved : Option Text → Bool
  is_reserved none = false
  is_reserved (some id) = contains id canonical_aggregation_reducers || id == text "custom"

  absent : {A : Type 0} → Option A → Bool
  absent value = not (is_some value)

  -- The parameter of the reducer is right, and the others are absent.
  unfoldable pub fits : AggregationReducerName → AggregationPolicy F → Bool
  unfolding in_trim_range in_threshold_range is_label is_reserved absent
  fits robust_mean policy =
      in_trim_range policy.trim_fraction
      && absent policy.threshold
      && absent policy.weight_column
      && absent policy.custom_reducer_id
  fits exclude_outliers policy =
      absent policy.trim_fraction
      && in_threshold_range policy.threshold
      && absent policy.weight_column
      && absent policy.custom_reducer_id
  fits weighted_mean policy =
      absent policy.trim_fraction
      && absent policy.threshold
      && is_label policy.weight_column
      && absent policy.custom_reducer_id
  fits AggregationReducerName.custom policy =
      absent policy.trim_fraction
      && absent policy.threshold
      && absent policy.weight_column
      && (is_label policy.custom_reducer_id && not (is_reserved policy.custom_reducer_id))
  fits _ policy =
      absent policy.trim_fraction
      && absent policy.threshold
      && absent policy.weight_column
      && absent policy.custom_reducer_id

  -- What `validate` does for a reducer.
  run : AggregationReducerName → AggregationPolicy F → Result (Unit {0})
  run reducer policy =
      reject_unexpected reducer (text "trim_fraction") (is_some policy.trim_fraction)
        (allowed reducer).trim
      >> (reject_unexpected reducer (text "threshold") (is_some policy.threshold)
            (allowed reducer).threshold
          >> (reject_unexpected reducer (text "weight_column") (is_some policy.weight_column)
                (allowed reducer).weight
              >> (reject_unexpected reducer (text "custom_reducer_id")
                    (is_some policy.custom_reducer_id) (allowed reducer).custom
                  >> check_parameter f64 reducer policy)))

  run_iff :
      (reducer : AggregationReducerName) (policy : AggregationPolicy F)
      → (run reducer policy ≡ done) ↔ (fits reducer policy ≡ true)
  unfolding run fits allowed reject_unexpected check_parameter check_trim check_threshold
      check_weight check_custom in_trim_range in_threshold_range is_label is_reserved absent
  run_iff mean policy = ground arith
  run_iff median policy = ground arith
  run_iff vote policy = ground arith
  run_iff robust_mean policy = ground arith
  run_iff exclude_outliers policy = ground arith
  run_iff weighted_mean policy = ground (arith, is_clean_label-nil)
  run_iff AggregationReducerName.custom policy = ground (arith, is_clean_label-nil)

  is_vote_regression_iff :
      (reducer : AggregationReducerName) (task : PredictionTaskKind)
      → (is_vote_regression f64 reducer task ≡ false) ↔ ¬ ((reducer ≡ vote) × (task ≡ regression))
  is_vote_regression_iff reducer task = ground arith

  -- A policy is accepted for a task exactly when the parameter of its reducer is right (a
  -- `trim_fraction` that is absent or in [0, 0.5), a `threshold` that is absent or in (0, 1), a clean
  -- `weight_column`, a clean `custom_reducer_id` that is no reserved name), the parameters of the other
  -- reducers are absent, and it is not a vote on a regression.
  pub validate_for_task_iff :
      (policy : AggregationPolicy F) (task : PredictionTaskKind)
      → (validate_for_task f64 policy task ≡ done)
        ↔ ((fits policy.reducer policy ≡ true) × ¬ ((policy.reducer ≡ vote) × (task ≡ regression)))
  unfolding validate_for_task validate_policy run
  validate_for_task_iff policy task =
      ground (arith, run_iff policy.reducer policy, is_vote_regression_iff policy.reducer task)
