-- ===== src/Collections.antt =====
-- `BTreeSet` and `BTreeMap` of the standard library as sorted lists.
mod Sets
mod Maps
unfoldable pub use Sets.*
unfoldable pub use Maps.*
