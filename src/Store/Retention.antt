-- ===== src/Store/Retention.antt =====
-- crates/store/src/retention: which policy applies to a source and kind, and the sweeper.
pub mod Policy
pub mod Sweeper
