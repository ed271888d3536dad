-- ===== src/Store/Vector.antt =====
-- crates/store/src/vector: which events are embedded, the truncation of their text, the index and its
-- search, and the task that fills it.
pub mod Selector
pub mod Truncate
pub mod TopK
pub mod Index
pub mod Search
