-- ===== src/Lib.antt =====
-- dag-ml-data: the data-contract and planning core of the crate `dag-ml-data-core`
-- (crates/dag-ml-data-core/src).
--
-- The parts, and the files that model them:
-- * Error models error.rs: `DataError`, with the message of a validation error as the source formats
--   it, `Result` with `?` as `>>=`, and in Error.Taxonomy the categories, codes and packed numbers.
-- * Ids models ids.rs: the grammar of identifiers. An identifier is the text that it wraps.
-- * ContentHash models content_hash.rs, the streaming SHA-256 hasher with its scratch buffer.
--   `Sha256` is a parameter: the `sha2` crate, of which only the law of streaming is used.
--   Bytes are numbers, strings are their UTF-8 bytes and an `f64` is its 64-bit pattern.
-- * Relation models relation.rs: sample relations, fold sets, their validation, and the checks that
--   keep groups and augmentation origins on one side of a fold (`unique_samples`,
--   `validate_group_boundary` and `validate_origin_boundary` in Relation; `FoldSet::validate` in
--   Relation.Folds; `SampleRelationTable` in Relation.Table). Each loop of the source is a function over
--   the state that it carries.
-- * Alignment models alignment.rs: which samples several sources are joined on, and the masks of
--   presence (`PresenceMask` of model.rs).
-- * Plan models plan.rs: the steps of a data plan and `DataPlan::validate` (Plan.Validate). The methods
--   `as_str` and `as_array` of `serde_json::Value` are parameters.
-- * Adapter models adapter.rs: ports, adapters and the registry; Adapter.Search is the best-first search
--   of `AdapterRegistry::find_path`, Adapter.Paths the rest of it. The `BinaryHeap` is the list of its
--   states, the greatest first. The loop takes fuel: a search over n adapters is given `weight n n` rounds
--   and one more, where `weight n k` bounds the states that can still come of a state with k adapters
--   unused (Adapter.Fuel), and Adapter.Terminates shows that this is enough.
-- * Aggregation models aggregation.rs.
-- * Shape models the size and shape contracts and the signal types of model.rs, Schema its axes with
--   coordinates, representations, sources and metadata (Schema.Axes, Schema.Representations), groups,
--   folds and the dataset schema (Schema.Dataset).
-- * Fingerprint models fingerprint.rs. A `Codec` stands for the calls of `serde_json` and `sha2` on a type.
-- * Coordinator models coordinator.rs and predict_cohort.rs: relations, branch views, cohorts and
--   envelopes, and the conversion of a sample table into relations (Coordinator.Envelope).
-- * Handle models handle.rs: requests, views and tables, and the arena (Handle.Arena). A method that
--   changes the arena returns the new one; `RefCell` borrows are not modelled, since no borrow outlives its
--   statement. The counter of the handles is a `u64` that wraps, as in a release build. Handle.Reach has
--   the calls as a step relation, in which the counter does not wrap. `none` is the result of
--   `feature_values` where the source would index out of range. Handle.Filters and Handle.Places say what
--   a view asks for and in which order apart from the code's tests and positions; Handle.Columns and
--   Handle.Cells read a table by the names of its columns, Handle.Served the samples of a target.
--
-- Shared: Common (library names, tests, lists), Order (keys with a comparison, as `Ord`), Text (strings
-- as their Unicode scalar values) and Collections (`BTreeSet` and `BTreeMap` as sorted lists, with the
-- order of iteration that decides which error is reported first).
--
-- Numbers are natural numbers; a `usize` that only counts elements of a list in memory does not overflow,
-- and what the source checks (a length that must fit `u64`) is checked in the model. A set of references is
-- a set of the texts that they refer to. `serde_json::Value` is a type parameter where it is only carried,
-- and has the interface of Json where it is read. `f64` has the interface of Float.
--
-- An envelope carries a plan, relations and a cohort (Plan, Coordinator); the arena validates it when a
-- request is materialized, keeps the relations that the request scopes, and selects those of a view from
-- them. A plan's steps name adapters by their ids; the planner that builds plans from the search
-- (planner.rs) is not modelled.
--
-- Not modelled: parsing and printing of JSON (serde), the fingerprint of fold sets, which edits JSON,
-- the planner, feature fusion, collation, tensors and buffers, fitted adapters, files, Arrow export,
-- the C ABI and the language bindings, and the numeric payloads.
pub mod Common
pub mod Order
pub mod Text
pub mod Collections
pub mod Error
pub mod ContentHash
pub mod Ids
pub mod Json
pub mod Float
pub mod Relation
pub mod Alignment
pub mod Plan
pub mod Adapter
pub mod Aggregation
pub mod Shape
pub mod Schema
pub mod Fingerprint
pub mod Coordinator
pub mod Handle
pub mod Tests
