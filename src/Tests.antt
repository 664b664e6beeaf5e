-- ===== src/Tests.antt =====
-- Runs of the definitions at concrete inputs, and the theorems applied to them.
pub mod Relations
pub mod Alignments
pub mod Hashes
pub mod Errors
pub mod Adapters
pub mod Plans
pub mod Values
pub mod Handles
pub mod Prints
pub mod Combos
pub mod Blocks
pub mod Cohorts
