-- ===== src/Schema/Representations.antt =====
-- crates/dag-ml-data-core/src/model.rs: representations, the sources that have them, and the fields of
-- metadata.
use dag_ml_data.Common.{
  ℕ, Bool, true, false, not, ◌&&◌, Option, none, some, List, [], ◌++◌, nat_eq, is_some, length,
  is_empty, any, find,
}
use dag_ml_data.Order.{◌==◌, nat_ord, list_ord}
use dag_ml_data.Text.{Text, text, is_blank, decimal}
use dag_ml_data.Collections.{Map}
use dag_ml_data.Error.{validation, Result, ◌>>=◌, ◌>>◌, done, refuse, for_each, ok_or}
use dag_ml_data.Order.{pair_ord}
use dag_ml_data.Relation.Folds.{quote}
use dag_ml_data.Json.{Json}
use dag_ml_data.Float.{Float}
use dag_ml_data.Shape.{SignalKind, ShapeContract, AxisSizeContract, validate_shape, accepts}
use dag_ml_data.Schema.Axes.{AxisKind, AxisSpec, validate_axis_spec, blank_option}

pub record RepresentationSpec (J F : Type 0) : Type 0 where
  pub id : Text
  pub type_id : Text
  pub rank : Option ℕ
  pub axes : List (AxisSpec J F)
  pub container : Text
  pub dtype : Option Text
  pub sparse : Bool
  pub ragged : Bool
  pub signal_type : Option SignalKind

pub data SourceGranularity : Type 0 where
  per_sample per_sample_repeated per_sample_sequence per_sample_set per_group per_target :
      SourceGranularity

pub record SourceDescriptor (J F : Type 0) : Type 0 where
  pub id : Text
  pub name : Text
  pub type_id : Text
  pub modality : Text
  pub native_representation : RepresentationSpec J F
  pub sample_key : Text
  pub granularity : SourceGranularity
  pub schema : Map Text J
  pub tags : Map Text J
  pub shape_contract : Option ShapeContract

pub data MetadataValueKind : Type 0 where
  string_kind number_kind integer_kind boolean_kind date_kind datetime_kind categorical_kind
        json_kind :
      MetadataValueKind

pub record MetadataFieldSpec (J : Type 0) : Type 0 where
  pub kind : MetadataValueKind
  pub required : Bool
  pub unit : Option Text
  pub allowed_values : List J
  pub description : Option Text

pub record MetadataSchema (J : Type 0) : Type 0 where
  pub fields : Map Text (MetadataFieldSpec J)

abbrev pub is_sample_axis : AxisKind → Bool
is_sample_axis AxisKind.sample = true
is_sample_axis _ = false

-- `axes.len() != rank`, where the rank is given.
abbrev pub wrong_rank : ℕ → Option ℕ → Bool
wrong_rank count none = false
wrong_rank count (some rank) = not (nat_eq count rank)

-- `{:?}` of an optional number.
abbrev pub debug_option : Option ℕ → Text
debug_option none = text "None"
debug_option (some n) = quote "Some(" (decimal n) ")"

abbrev pub shown_rank : Option ℕ → Text
shown_rank none = []
shown_rank (some rank) = decimal rank

-- `representation.rank != Some(expected)`, where the expectation is given.
abbrev pub unexpected_rank : Option ℕ → Option ℕ → Bool
unexpected_rank none rank = false
unexpected_rank (some expected) none = true
unexpected_rank (some expected) (some rank) = not (nat_eq rank expected)

module _ {J F : Type 0} (json : Json J) (f64 : Float F) (as_f64 : J → Option F) where
  -- `RepresentationSpec::validate`.
  unfoldable pub validate_spec : RepresentationSpec J F → Result (Unit {0})
  unfolding validate_axis_spec
  validate_spec spec = do
    refuse (is_blank spec.container)
        (validation (quote "representation `" spec.id "` has an empty container"))
    refuse (not (is_some spec.rank) && not spec.ragged)
        (validation (quote "representation `" spec.id "` with no rank must be ragged"))
    refuse (wrong_rank (length spec.axes) spec.rank) (
        validation (
          quote "representation `" spec.id "` has rank "
          ++ (shown_rank spec.rank
              ++ (text " but " ++ (decimal (length spec.axes) ++ text " axes")))))
    for_each (validate_axis_spec json f64 as_f64) spec.axes
    refuse
        (not (spec.container == text "graph_batch")
          && not (any (λ axis. is_sample_axis axis.kind) spec.axes))
        (validation (quote "representation `" spec.id "` has no sample axis"))

  unfoldable pub check_size : Text → Text → AxisSizeContract → Bool → Option ℕ → Result (Unit {0})
  check_size source_id axis_name contract variable (some size) =
      refuse (not (accepts contract size)) (
        validation (
          quote "source `" source_id "` axis `"
          ++ (axis_name ++ quote "` size " (decimal size) " violates shape contract")))
  check_size source_id axis_name contract variable none = refuse (not variable) (
      validation (
        quote "source `" source_id "` axis `"
        ++ (axis_name ++ text "` has no concrete size for shape contract")))

  unfoldable pub check_axis_size :
      Text → RepresentationSpec J F → Text × AxisSizeContract → Result (Unit {0})
  unfolding check_size
  check_axis_size source_id spec (axis_name, contract) = do
    axis ← ok_or (find (λ axis. axis.name == axis_name) spec.axes) (
        validation (
          quote "source `" source_id "` shape contract references missing axis `"
          ++ (axis_name ++ text "`")))
    check_size source_id axis_name contract axis.variable axis.size

  -- `ShapeContract::validate_representation`.
  unfoldable pub validate_representation :
      ShapeContract → Text → RepresentationSpec J F → Result (Unit {0})
  unfolding check_axis_size
  validate_representation contract source_id spec = do
    validate_shape contract
    refuse (unexpected_rank contract.rank spec.rank) (
        validation (
          quote "source `" source_id "` shape contract expects rank "
          ++ (shown_rank contract.rank
              ++ (quote " but representation `" spec.id "` has " ++ debug_option spec.rank))))
    refuse (spec.ragged && not contract.allow_ragged) (
        validation (
          quote "source `" source_id "` shape contract does not allow ragged representation `"
          ++ (spec.id ++ text "`")))
    for_each (check_axis_size source_id spec) contract.axis_sizes

  abbrev pub check_contract : SourceDescriptor J F → Option ShapeContract → Result (Unit {0})
  check_contract source none = done
  check_contract source (some contract) =
      validate_representation contract source.id source.native_representation

  -- `SourceDescriptor::validate`.
  unfoldable pub validate_source : SourceDescriptor J F → Result (Unit {0})
  unfolding validate_spec validate_representation
  validate_source source = do
    refuse (is_blank source.name) (validation (quote "source `" source.id "` has an empty name"))
    refuse (is_blank source.sample_key)
        (validation (quote "source `" source.id "` has an empty sample key"))
    validate_spec source.native_representation
    check_contract source source.shape_contract

abbrev pub is_categorical : MetadataValueKind → Bool
is_categorical categorical_kind = true
is_categorical _ = false

module _ {J : Type 0} where
  -- `MetadataFieldSpec::validate`.
  unfoldable pub validate_field : Text → MetadataFieldSpec J → Result (Unit {0})
  validate_field field_name field = do
    refuse (is_categorical field.kind && is_empty field.allowed_values) (
        validation
          (quote "metadata field `" field_name "` is categorical but declares no allowed_values"))
    refuse (blank_option field.unit)
        (validation (quote "metadata field `" field_name "` has an empty unit"))

  unfoldable pub check_field : Text × MetadataFieldSpec J → Result (Unit {0})
  unfolding validate_field
  check_field (field_name, field) = do
    refuse (is_blank field_name) (validation (text "metadata schema contains an empty field name"))
    validate_field field_name field

  -- `MetadataSchema::validate`.
  unfoldable pub validate_metadata : MetadataSchema J → Result (Unit {0})
  unfolding check_field
  validate_metadata schema = do
    refuse (is_empty schema.fields) (validation (text "metadata schema declares no fields"))
    for_each check_field schema.fields
