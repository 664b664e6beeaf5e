-- ===== src/Fingerprint/Artifacts.antt =====
-- crates/dag-ml-data-core/src/fingerprint.rs: the fingerprints of schemas, plans and sample tables, each
-- of the valid artifact with its lists sorted.
use dag_ml_data.Fingerprint.{typed_fingerprint, Codec}
use dag_ml_data.Common.{Option}
use dag_ml_data.Order.{nat_ord, list_ord, then}
use dag_ml_data.Text.{Text}
use dag_ml_data.Error.{Result, ◌>>◌}
use dag_ml_data.Order.{pair_ord, cmp_list}
use dag_ml_data.Common.{Ordering}
use dag_ml_data.Common.Sorting.{sort_by}
use dag_ml_data.Json.{Json, as_str, as_array}
use dag_ml_data.Float.{Float}
use dag_ml_data.Plan.{DataPlan}
use dag_ml_data.Plan.Validate.{validate_data_plan}
use dag_ml_data.Relation.{SampleRelation, SampleRelationTable}
use dag_ml_data.Relation.Table.{validate_table}
use dag_ml_data.Schema.Dataset.{DatasetSchema, validate_schema}
use dag_ml_data.Order.{cmp_option}

-- The schema that is hashed.
unfoldable pub canonical_schema : {J F : Type 0} → DatasetSchema J F → DatasetSchema J F
canonical_schema schema = record schema {
  sample_ids = sort_by cmp_list schema.sample_ids;
  sources = sort_by (λ left right. cmp_list left.id right.id) schema.sources;
  groups = sort_by (λ left right. cmp_list left.id right.id) schema.groups;
  folds = sort_by (λ left right. cmp_list left.id right.id) schema.folds;
}

abbrev pub cmp_row : {J : Type 0} → SampleRelation J → SampleRelation J → Ordering
cmp_row left right =
    (then) (cmp_list left.observation_id right.observation_id)
      ((then) (cmp_list left.sample_id right.sample_id) (cmp_option left.source_id right.source_id))

module _ {J F : Type 0} (json : Json J) (f64 : Float F) (as_f64 : J → Option F) where
  unfoldable pub schema_fingerprint : Codec J (DatasetSchema J F) → DatasetSchema J F → Result Text
  unfolding canonical_schema
  schema_fingerprint codec schema = do
    validate_schema json f64 as_f64 schema
    typed_fingerprint codec (canonical_schema schema)

module _ {J : Type 0} (json : Json J) where
  unfoldable pub data_plan_fingerprint : Codec J (DataPlan J) → DataPlan J → Result Text
  data_plan_fingerprint codec plan = do
    validate_data_plan (as_str json) (as_array json) plan
    typed_fingerprint codec plan

module _ {J : Type 0} where
  unfoldable pub sample_relation_fingerprint :
      Codec J (SampleRelationTable J) → SampleRelationTable J → Result Text
  sample_relation_fingerprint codec table = do
    validate_table table
    typed_fingerprint codec (record table { rows = sort_by cmp_row table.rows })
