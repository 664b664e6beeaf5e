-- ===== src/Shape.antt =====
-- crates/dag-ml-data-core/src/model.rs: the contracts on the sizes of axes and on shapes, and the
-- match of signal types.
use dag_ml_data.Common.{
  ℕ, ◌≡◌, ◌≢◌, ◌↔◌, ◌⊎◌, Bool, true, false, not, ◌&&◌, ◌||◌, Option, none, some, [], ◌∷◌, ◌++◌,
  arith, ltb, nat_eq, if◌then◌else◌, is_some, is_empty,
}
use dag_ml_data.Order.{nat_ord, list_ord}
use dag_ml_data.Text.{Text, text, is_blank, decimal}
use dag_ml_data.Collections.{Map}
use dag_ml_data.Error.{DataError, validation, Result, ◌>>◌, done, refuse}
use dag_ml_data.Relation.Folds.{quote}
use dag_ml_data.Error.{signal_type_mismatch}

pub data SignalKind : Type 0 where
  absorbance reflectance transmittance log_reflectance preprocessed unknown : SignalKind

-- `SignalKind::as_str`.
unfoldable pub signal_name : SignalKind → Text
signal_name absorbance = text "absorbance"
signal_name reflectance = text "reflectance"
signal_name transmittance = text "transmittance"
signal_name log_reflectance = text "log_reflectance"
signal_name preprocessed = text "preprocessed"
signal_name unknown = text "unknown"

abbrev pub is_unknown : SignalKind → Bool
is_unknown unknown = true
is_unknown _ = false

-- The derived equality.
unfoldable pub same_signal : SignalKind → SignalKind → Bool
same_signal absorbance absorbance = true
same_signal reflectance reflectance = true
same_signal transmittance transmittance = true
same_signal log_reflectance log_reflectance = true
same_signal preprocessed preprocessed = true
same_signal unknown unknown = true
same_signal _ _ = false

unfoldable pub require_signal_type_match : SignalKind → SignalKind → Bool → Result (Unit {0})
unfolding same_signal
require_signal_type_match expected actual allow_unknown =
    let mismatched : DataError = signal_type_mismatch (signal_name expected) (signal_name actual) in
    if is_unknown expected || is_unknown actual
    then refuse (not allow_unknown) mismatched
    else refuse (not (same_signal expected actual)) mismatched

pub record AxisSizeContract : Type 0 where
  pub exact : Option ℕ
  pub min : Option ℕ
  pub max : Option ℕ

-- `o.is_some_and(|bound| test(bound))`.
abbrev pub is_some_and : (ℕ → Bool) → Option ℕ → Bool
is_some_and test none = false
is_some_and test (some bound) = test bound

abbrev pub shown_size : Option ℕ → Text
shown_size none = []
shown_size (some size) = decimal size

-- `min > max` where both are given.
abbrev pub is_above : Option ℕ → Option ℕ → Bool
is_above (some a) (some b) = ltb b a
is_above _ _ = false

-- `AxisSizeContract::validate`.
unfoldable pub validate_axis : Text → AxisSizeContract → Result (Unit {0})
validate_axis axis_name contract = do
  refuse (not (is_some contract.exact) && not (is_some contract.min) && not (is_some contract.max))
      (validation (quote "shape contract for axis `" axis_name "` does not constrain the size"))
  refuse (is_above contract.min contract.max) (
      validation (
        quote "shape contract for axis `" axis_name "` has min "
        ++ (shown_size contract.min ++ (text " greater than max " ++ shown_size contract.max))))
  refuse (is_above contract.min contract.exact) (
      validation (
        quote "shape contract for axis `" axis_name "` exact size "
        ++ (shown_size contract.exact ++ (text " is below min " ++ shown_size contract.min))))
  refuse (is_above contract.exact contract.max) (
      validation (
        quote "shape contract for axis `" axis_name "` exact size "
        ++ (shown_size contract.exact ++ (text " is above max " ++ shown_size contract.max))))

-- `AxisSizeContract::accepts`.
unfoldable pub accepts : AxisSizeContract → ℕ → Bool
accepts contract size =
    not (is_some_and (λ exact. not (nat_eq size exact)) contract.exact)
    && not (is_some_and (λ min. ltb size min) contract.min)
    && not (is_some_and (λ max. ltb max size) contract.max)

pub record ShapeContract : Type 0 where
  pub rank : Option ℕ
  pub axis_sizes : Map Text AxisSizeContract
  pub allow_ragged : Bool

unfoldable pub check_axes : Map Text AxisSizeContract → Result (Unit {0})
unfolding validate_axis
check_axes [] = done
check_axes ((axis_name, contract) ∷ axes) = do
  refuse (is_blank axis_name) (validation (text "shape contract contains an empty axis name"))
  validate_axis axis_name contract
  check_axes axes

-- `ShapeContract::validate`.
unfoldable pub validate_shape : ShapeContract → Result (Unit {0})
unfolding check_axes
validate_shape shape = do
  refuse (not (is_some shape.rank) && is_empty shape.axis_sizes)
      (validation (text "shape contract must constrain rank or at least one axis"))
  check_axes shape.axis_sizes

-- A size that a contract asks for: the exact one, or a bound.
some_size : AxisSizeContract → ℕ
some_size contract = elim contract.exact [
  | some exact ↦ exact
  | none ↦ elim contract.min [
    | some min ↦ min
    | none ↦ elim contract.max [ some max ↦ max | none ↦ 0 ]
  ]
]

accepts-some_size :
    (axis_name : Text) (contract : AxisSizeContract)
    → validate_axis axis_name contract ≡ done
    → accepts contract (some_size contract) ≡ true
unfolding validate_axis accepts some_size
accepts-some_size axis_name contract valid = ground arith

constrains :
    (axis_name : Text) (contract : AxisSizeContract)
    → validate_axis axis_name contract ≡ done
    → (is_some contract.exact || is_some contract.min || is_some contract.max) ≡ true
unfolding validate_axis
constrains axis_name contract valid = ground arith

accepts-validate_axis :
    (axis_name : Text) (contract : AxisSizeContract) (size : ℕ)
    → (is_some contract.exact || is_some contract.min || is_some contract.max) ≡ true
    → accepts contract size ≡ true
    → validate_axis axis_name contract ≡ done
unfolding validate_axis accepts
accepts-validate_axis axis_name contract size given accepted = ground arith

-- `AxisSizeContract::validate` passes a contract exactly when it constrains the size and accepts some
-- size.
pub validate_axis_iff :
    (axis_name : Text) (contract : AxisSizeContract)
    → (validate_axis axis_name contract ≡ done) ↔ (
        ((is_some contract.exact || is_some contract.min || is_some contract.max) ≡ true)
        × ((size : ℕ) × (accepts contract size ≡ true)))
validate_axis_iff axis_name contract = (
  λ valid. (
    constrains axis_name contract valid,
    (some_size contract, accepts-some_size axis_name contract valid),
  ),
  λ h. accepts-validate_axis axis_name contract h.1.0 h.0 h.1.1,
)

-- Two signal types match exactly when they are the same known type, or one of them is unknown and that
-- is allowed.
pub require_signal_type_match_iff :
    (expected actual : SignalKind) (allow_unknown : Bool)
    → (require_signal_type_match expected actual allow_unknown ≡ done) ↔ (
        ((expected ≡ actual) × (expected ≢ unknown))
        ⊎ (((expected ≡ unknown) ⊎ (actual ≡ unknown)) × (allow_unknown ≡ true)))
unfolding require_signal_type_match same_signal
require_signal_type_match_iff expected actual allow_unknown = ground arith
