-- ===== src/Coordinator.antt =====
-- crates/dag-ml-data-core/src/coordinator.rs and predict_cohort.rs: what the coordinator and the data
-- provider exchange.
pub mod Relations
pub mod Branches
pub mod Cohort
pub mod Disjoint
pub mod Sets
pub mod Envelope
pub mod Same
