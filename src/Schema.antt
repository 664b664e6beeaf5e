-- ===== src/Schema.antt =====
-- crates/dag-ml-data-core/src/model.rs: the dataset schema, from its axes upwards.
pub mod Axes
pub mod Representations
pub mod Dataset
