-- ===== src/Handle.antt =====
-- crates/dag-ml-data-core/src/handle.rs: the handles of materialized data and of views of them.
pub mod Requests
pub mod Views
pub mod Filters
pub mod Selected
pub mod Places
pub mod Selection
pub mod Tables
pub mod Arena
pub mod Invariant
pub mod Release
pub mod Reach
pub mod Made
pub mod Live
pub mod Unknown
pub mod Targets
pub mod Features
pub mod Blocks
pub mod Columns
pub mod Cells
pub mod FeatureLoop
pub mod Projection
pub mod Served
pub mod Values
