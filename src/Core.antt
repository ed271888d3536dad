-- ===== src/Core.antt =====
-- The crate `percept-core` (crates/core/src): kind references, descriptors and events.
pub mod Json
pub mod Event
pub mod KindRef
pub mod Descriptor
