-- ===== src/Aggregation.antt =====
-- crates/dag-ml-data-core/src/aggregation.rs: the reducers of predictions and their parameters. `F` is
-- `f64`, with the operations of the standard library that the code calls.
pub mod Accepts
use dag_ml_data.Float.{Float}
use dag_ml_data.Common.{
  ℕ, Bool, true, false, not, ◌&&◌, ◌||◌, Option, none, some, List, [], ◌∷◌, ◌++◌, leb,
  if◌then◌else◌, is_some, is_empty, any,
}
use dag_ml_data.Order.{◌==◌, nat_ord, list_ord}
use dag_ml_data.Text.{Text, text}
use dag_ml_data.Collections.{contains}
use dag_ml_data.Error.{validation, Result, ◌>>◌, done, refuse}
use dag_ml_data.Text.{is_whitespace}
use dag_ml_data.Relation.Folds.{quote}
use dag_ml_data.Error.{incompatible_reducer}

pub data AggregationReducerName : Type 0 where
  mean weighted_mean median vote robust_mean exclude_outliers custom : AggregationReducerName

pub data PredictionTaskKind : Type 0 where
  regression classification : PredictionTaskKind

pub record AggregationPolicy (F : Type 0) : Type 0 where
  pub reducer : AggregationReducerName
  pub trim_fraction : Option F
  pub threshold : Option F
  pub weight_column : Option Text
  pub custom_reducer_id : Option Text

-- `AggregationReducerName::as_str`.
unfoldable pub reducer_name : AggregationReducerName → Text
reducer_name mean = text "mean"
reducer_name weighted_mean = text "weighted_mean"
reducer_name median = text "median"
reducer_name vote = text "vote"
reducer_name robust_mean = text "robust_mean"
reducer_name exclude_outliers = text "exclude_outliers"
reducer_name custom = text "custom"

-- `CANONICAL_AGGREGATION_REDUCERS`.
abbrev pub canonical_aggregation_reducers : List Text
canonical_aggregation_reducers =
    text "mean"
    ∷ text "weighted_mean"
    ∷ text "median"
    ∷ text "vote"
    ∷ text "robust_mean"
    ∷ text "exclude_outliers"
    ∷ []

-- `str::trim`.
unfoldable pub trim_start : Text → Text
trim_start [] = []
trim_start (c ∷ s) = let rest = trim_start s in if is_whitespace c then rest else c ∷ s

unfoldable pub trim_end : Text → Text
trim_end [] = []
trim_end (c ∷ s) =
    let rest = trim_end s in if is_whitespace c && is_empty rest then [] else c ∷ rest

-- `char::is_control`: the general category Cc.
unfoldable pub is_control : ℕ → Bool
is_control c = leb c 0x1f || (leb 0x7f c && leb c 0x9f)

unfoldable pub is_clean_label : Text → Bool
unfolding trim_start trim_end is_control
is_clean_label value =
    not (is_empty value) && value == trim_end (trim_start value) && not (any is_control value)

-- `o.as_deref().unwrap_or_default()`.
abbrev pub or_default : Option Text → Text
or_default none = []
or_default (some value) = value

-- The parameters that a reducer takes: `trim_fraction`, `threshold`, `weight_column` and
-- `custom_reducer_id`.
pub record Allowed : Type 0 where
  pub trim : Bool
  pub threshold : Bool
  pub weight : Bool
  pub custom : Bool

abbrev pub no_parameter : Allowed
no_parameter = record { trim = false; threshold = false; weight = false; custom = false }

unfoldable pub allowed : AggregationReducerName → Allowed
allowed robust_mean = record no_parameter { trim = true }
allowed exclude_outliers = record no_parameter { threshold = true }
allowed weighted_mean = record no_parameter { weight = true }
allowed AggregationReducerName.custom = record no_parameter { custom = true }
allowed _ = no_parameter

unfoldable pub reject_unexpected : AggregationReducerName → Text → Bool → Bool → Result (Unit {0})
reject_unexpected reducer param present permitted = refuse (present && not permitted) (
    validation (
      quote "aggregation reducer `" (reducer_name reducer) "` does not accept parameter `"
      ++ (param ++ text "`")))

module _ {F : Type 0} (f64 : Float F) where
  unfoldable pub check_trim : Option F → Result (Unit {0})
  check_trim none = done
  check_trim (some trim) =
      refuse (not (f64.is_finite trim) || not (f64.le f64.zero_f trim && f64.lt trim f64.half_f)) (
        validation (
          text "aggregation reducer `robust_mean` trim_fraction must be in [0.0, 0.5), got "
          ++ f64.display trim))

  unfoldable pub check_threshold : Option F → Result (Unit {0})
  check_threshold none = done
  check_threshold (some threshold) =
      refuse
        (not (f64.is_finite threshold) || f64.le threshold f64.zero_f || f64.le f64.one_f threshold)
        (validation (
          text "aggregation reducer `exclude_outliers` threshold must be in (0.0, 1.0), got "
          ++ f64.display threshold))

  unfoldable pub check_weight : Text → Result (Unit {0})
  check_weight column = refuse (not (is_clean_label column)) (
      validation (
        text
          "aggregation reducer `weighted_mean` requires a non-empty weight_column with no surrounding whitespace or control characters"))

  unfoldable pub check_custom : Text → Result (Unit {0})
  check_custom id = do
    refuse (not (is_clean_label id)) (
        validation (
          text
            "aggregation reducer `custom` requires a non-empty custom_reducer_id with no surrounding whitespace or control characters"))
    refuse (contains id canonical_aggregation_reducers || id == text "custom")
        (validation (quote "custom_reducer_id `" id "` collides with a reserved reducer name"))

  unfoldable pub check_parameter : AggregationReducerName → AggregationPolicy F → Result (Unit {0})
  unfolding check_trim check_threshold check_weight check_custom
  check_parameter robust_mean policy = check_trim policy.trim_fraction
  check_parameter exclude_outliers policy = check_threshold policy.threshold
  check_parameter weighted_mean policy = check_weight (or_default policy.weight_column)
  check_parameter AggregationReducerName.custom policy =
      check_custom (or_default policy.custom_reducer_id)
  check_parameter _ policy = done

  -- `AggregationPolicy::validate`.
  unfoldable pub validate_policy : AggregationPolicy F → Result (Unit {0})
  unfolding allowed reject_unexpected check_parameter
  validate_policy policy = do
    let permitted = allowed policy.reducer
    reject_unexpected policy.reducer (text "trim_fraction") (is_some policy.trim_fraction)
        permitted.trim
    reject_unexpected policy.reducer (text "threshold") (is_some policy.threshold)
        permitted.threshold
    reject_unexpected policy.reducer (text "weight_column") (is_some policy.weight_column)
        permitted.weight
    reject_unexpected policy.reducer (text "custom_reducer_id") (is_some policy.custom_reducer_id)
        permitted.custom
    check_parameter policy.reducer policy

  abbrev pub is_vote_regression : AggregationReducerName → PredictionTaskKind → Bool
  is_vote_regression vote regression = true
  is_vote_regression _ _ = false

  unfoldable pub validate_for_task : AggregationPolicy F → PredictionTaskKind → Result (Unit {0})
  unfolding validate_policy
  validate_for_task policy task = do
    validate_policy policy
    refuse (is_vote_regression policy.reducer task)
        (incompatible_reducer (text "vote") (text "regression"))
