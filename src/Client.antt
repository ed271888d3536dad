-- ===== src/Client.antt =====
-- The crate `percept-client` (crates/client/src): the events that a producer sends, and sending them.
pub mod Event
pub mod Send
