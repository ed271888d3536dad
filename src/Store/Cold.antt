-- ===== src/Store/Cold.antt =====
-- crates/store/src/cold: the SQLite store, its queries, cursors and the writer task. Tables are lists
-- of rows; each SQL statement of the source is a function on them.
pub mod Rows
pub mod Append
pub mod Window
pub mod Cursor
pub mod Lookup
pub mod Sweep
pub mod Day
