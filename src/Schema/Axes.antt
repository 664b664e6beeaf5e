-- ===== src/Schema/Axes.antt =====
-- crates/dag-ml-data-core/src/model.rs: axes and their coordinates. `J` is `serde_json::Value`, `F` is
-- `f64`, and `as_f64` is the method of `serde_json::Value`.
use dag_ml_data.Common.{
  String, ◌%◌, get_elem?, ℕ, ◌+◌, ◌-◌, ◌*◌, Bool, true, false, not, ◌&&◌, ◌||◌, Option, none, some,
  List, [], ◌∷◌, ◌++◌, leb, nat_eq, if◌then◌else◌, is_some, length, is_empty, any,
}
use dag_ml_data.Order.{nat_ord, list_ord}
use dag_ml_data.Text.{Text, text, is_blank, byte_len, decimal}
use dag_ml_data.Collections.{values, contains, insert}
use dag_ml_data.Error.{DataError, validation, Result, ok, ◌>>=◌, ◌>>◌, done, refuse, ok_or}
use dag_ml_data.Order.{pair_ord, cmp_list}
use dag_ml_data.Relation.Folds.{quote}
use dag_ml_data.Common.{Ordering}
use dag_ml_data.Json.{Json, as_str}
use dag_ml_data.Float.{Float}

pub data AxisKind : Type 0 where
  sample feature processing time height width channel node edge variant token target wavelength
        wavenumber frequency depth :
      AxisKind

pub data CoordinateDtype : Type 0 where
  numeric categorical datetime : CoordinateDtype

pub data CoordinateValues (J F : Type 0) : Type 0 where
  explicit : List J → CoordinateValues J F
  regular_grid : (start step : F) → CoordinateValues J F

pub record CoordinateSpec (J F : Type 0) : Type 0 where
  pub dtype : CoordinateDtype
  pub ordered : Bool
  pub coordinates : CoordinateValues J F

pub record AxisSpec (J F : Type 0) : Type 0 where
  pub name : Text
  pub kind : AxisKind
  pub unit : Option Text
  pub size : Option ℕ
  pub variable : Bool
  pub coordinate : Option (CoordinateSpec J F)

-- An error of an axis: its name, and what is wrong.
abbrev pub axis_error : Text → String → DataError
axis_error axis_name problem = validation (quote "axis `" axis_name problem)

-- The derived equality of `Ordering`.
abbrev pub same_ordering : Ordering → Ordering → Bool
same_ordering Ordering.lt Ordering.lt = true
same_ordering Ordering.eq Ordering.eq = true
same_ordering Ordering.gt Ordering.gt = true
same_ordering _ _ = false

module _ {T : Type 0} (axis_name : Text) (compare : T → T → Option Ordering) where
  -- The loop over `values.windows(2)`, from the first value of a window.
  unfoldable pub check_windows : Ordering → T → List T → Result (Unit {0})
  check_windows first left [] = done
  check_windows first left (right ∷ values) = do
    ordering ←
        ok_or (compare right left) (axis_error axis_name "` ordered coordinates are not comparable")
    refuse (not (same_ordering ordering first))
        (axis_error axis_name "` ordered coordinates must be strictly monotonic")
    check_windows first right values

  unfoldable pub require_strictly_monotonic : List T → Result (Unit {0})
  unfolding check_windows
  require_strictly_monotonic [] = done
  require_strictly_monotonic (left ∷ []) = done
  require_strictly_monotonic (left ∷ right ∷ values) = do
    first ←
        ok_or (compare right left) (axis_error axis_name "` ordered coordinates are not comparable")
    refuse (same_ordering first Ordering.eq)
        (axis_error axis_name "` ordered coordinates must be strictly monotonic")
    check_windows first left (right ∷ values)

-- A code point at a position, and 0 past the end. A text of 20 bytes with a character beyond ASCII has
-- fewer than 20 characters, and then the last position is past its end.
abbrev pub at : Text → ℕ → ℕ
at value position = elim (get_elem? value position) [ none ↦ 0 | some c ↦ c ]

abbrev pub is_digit : ℕ → Bool
is_digit c = leb b'0' c && leb c b'9'

-- `value[start..end].parse::<u32>()`, of digits.
unfoldable pub field : Text → ℕ → List ℕ → ℕ
field value sum [] = sum
field value sum (position ∷ positions) =
    field value (10 * sum + (at value position - b'0')) positions

unfoldable pub is_leap : ℕ → Bool
is_leap year = nat_eq (year % 4) 0 && (not (nat_eq (year % 100) 0) || nat_eq (year % 400) 0)

unfoldable pub days_in_month : ℕ → ℕ → ℕ
unfolding is_leap
days_in_month year month =
    if nat_eq month 2
    then (if is_leap year then 29 else 28)
    else if nat_eq month 4 || nat_eq month 6 || nat_eq month 9 || nat_eq month 11
    then 30
    else 31

abbrev pub digit_positions : List ℕ
digit_positions = 0 ∷ 1 ∷ 2 ∷ 3 ∷ 5 ∷ 6 ∷ 8 ∷ 9 ∷ 11 ∷ 12 ∷ 14 ∷ 15 ∷ 17 ∷ 18 ∷ []

unfoldable pub is_rfc3339_utc_seconds : Text → Bool
unfolding field days_in_month
is_rfc3339_utc_seconds value =
    let year = field value 0 (0 ∷ 1 ∷ 2 ∷ 3 ∷ []) in
    let month = field value 0 (5 ∷ 6 ∷ []) in
    let day = field value 0 (8 ∷ 9 ∷ []) in
    let hour = field value 0 (11 ∷ 12 ∷ []) in
    let minute = field value 0 (14 ∷ 15 ∷ []) in
    let second = field value 0 (17 ∷ 18 ∷ []) in
    nat_eq (byte_len value) 20
    && not (any (λ position. not (is_digit (at value position))) digit_positions)
    && nat_eq (at value 4) b'-'
    && nat_eq (at value 7) b'-'
    && nat_eq (at value 10) b'T'
    && nat_eq (at value 13) b':'
    && nat_eq (at value 16) b':'
    && nat_eq (at value 19) b'Z'
    && leb 1 month
    && leb month 12
    && leb hour 23
    && leb minute 59
    && leb second 59
    && leb 1 day
    && leb day (days_in_month year month)

abbrev pub keep_label : Option Text → Option Text
keep_label none = none
keep_label (some label) = if is_empty label then none else some label

module _ {J F : Type 0} (json : Json J) (f64 : Float F) (as_f64 : J → Option F)
    (axis_name : Text) where
  abbrev pub finite : Option F → Option F
  finite none = none
  finite (some number) = if f64.is_finite number then some number else none

  unfoldable pub numbers_of : List J → Result (List F)
  numbers_of [] = ok []
  numbers_of (value ∷ values) = do
    number ← ok_or (finite (as_f64 value)) (
        validation (
          quote "axis `" axis_name "` numeric coordinate `"
          ++ (json.display value ++ text "` is not a finite number")))
    numbers ← numbers_of values
    ok (number ∷ numbers)

  unfoldable pub check_labels : List Text → List J → Result (Unit {0})
  check_labels seen [] = done
  check_labels seen (value ∷ values) = do
    label ← ok_or (keep_label (as_str json value)) (
        validation (
          quote "axis `" axis_name "` categorical coordinate `"
          ++ (json.display value ++ text "` is not a non-empty string")))
    refuse (contains label seen) (
        validation (
          quote "axis `" axis_name "` categorical coordinate `"
          ++ (label ++ text "` is duplicated")))
    check_labels (insert label seen) values

  unfoldable pub stamps_of : List J → Result (List Text)
  unfolding is_rfc3339_utc_seconds
  stamps_of [] = ok []
  stamps_of (value ∷ values) = do
    stamp ← ok_or (as_str json value) (
        validation (
          quote "axis `" axis_name "` datetime coordinate `"
          ++ (json.display value ++ text "` is not a string")))
    refuse (not (is_rfc3339_utc_seconds stamp)) (
        validation (
          quote "axis `" axis_name "` datetime coordinate `"
          ++ (stamp ++ text "` is not canonical RFC 3339 UTC seconds (YYYY-MM-DDThh:mm:ssZ)")))
    stamps ← stamps_of values
    ok (stamp ∷ stamps)

  -- `CoordinateSpec::validate_explicit`, of the type and the order of the spec.
  unfoldable pub validate_explicit : CoordinateDtype → Bool → List J → Result (Unit {0})
  unfolding numbers_of check_labels stamps_of require_strictly_monotonic
  validate_explicit numeric ordered values = do
    numbers ← numbers_of values
    if ordered then require_strictly_monotonic axis_name f64.partial_cmp numbers else done
  validate_explicit categorical ordered values = check_labels [] values
  validate_explicit datetime ordered values = do
    stamps ← stamps_of values
    if ordered
        then require_strictly_monotonic axis_name (λ left right. some (cmp_list left right)) stamps
        else done

  abbrev pub is_numeric : CoordinateDtype → Bool
  is_numeric numeric = true
  is_numeric _ = false

  -- A size that is given and is not the number of the values.
  abbrev pub wrong_size : ℕ → Option ℕ → Bool
  wrong_size count none = false
  wrong_size count (some size) = not (nat_eq count size)

  abbrev pub shown_option : Option ℕ → Text
  shown_option none = []
  shown_option (some size) = decimal size

  unfoldable pub validate_values :
      CoordinateDtype → Bool → Option ℕ → CoordinateValues J F → Result (Unit {0})
  unfolding validate_explicit
  validate_values dtype ordered size (explicit values) = do
    refuse (is_empty values) (axis_error axis_name "` has empty explicit coordinates")
    refuse (wrong_size (length values) size) (
        validation (
          quote "axis `" axis_name "` has "
          ++ (decimal (length values) ++ (text " coordinates for size " ++ shown_option size))))
    validate_explicit dtype ordered values
  validate_values dtype ordered size (regular_grid start step) = do
    refuse (not (is_numeric dtype))
        (axis_error axis_name "` regular-grid coordinates require numeric dtype")
    refuse (not (is_some size))
        (axis_error axis_name "` regular-grid coordinates require a known axis size")
    refuse (not (f64.is_finite start) || not (f64.is_finite step))
        (axis_error axis_name "` regular-grid start/step must be finite")
    refuse (f64.same step f64.zero_f) (axis_error axis_name "` regular-grid step must be non-zero")
    refuse (not ordered)
        (axis_error axis_name "` regular-grid coordinates are inherently ordered; set ordered=true")

  -- `CoordinateSpec::validate`.
  unfoldable pub validate_coordinate : CoordinateSpec J F → Option ℕ → Bool → Result (Unit {0})
  unfolding validate_values
  validate_coordinate spec size variable = do
    refuse variable (axis_error axis_name "` cannot carry coordinates while variable")
    validate_values spec.dtype spec.ordered size spec.coordinates

abbrev pub blank_option : Option Text → Bool
blank_option none = false
blank_option (some value) = is_blank value

module _ {J F : Type 0} (json : Json J) (f64 : Float F) (as_f64 : J → Option F) where
  unfoldable pub check_coordinate : AxisSpec J F → Option (CoordinateSpec J F) → Result (Unit {0})
  unfolding validate_coordinate
  check_coordinate axis none = done
  check_coordinate axis (some coordinate) =
      validate_coordinate json f64 as_f64 axis.name coordinate axis.size axis.variable

  -- `AxisSpec::validate`.
  unfoldable pub validate_axis_spec : AxisSpec J F → Result (Unit {0})
  unfolding check_coordinate
  validate_axis_spec axis = do
    refuse (is_blank axis.name) (validation (text "axis name is empty"))
    refuse (axis.variable && is_some axis.size)
        (axis_error axis.name "` cannot be both variable and sized")
    refuse (blank_option axis.unit) (axis_error axis.name "` has an empty unit")
    check_coordinate axis axis.coordinate
