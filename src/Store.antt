-- ===== src/Store.antt =====
-- The crate `percept-store` (crates/store/src): hot rings, cold store, retention, vectors.
pub mod HotRing
pub mod Retention
pub mod Cold
pub mod Vector
