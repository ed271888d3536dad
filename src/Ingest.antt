-- ===== src/Ingest.antt =====
-- The crate `percept-ingest` (crates/ingest/src): authentication, the HTTP and WebSocket front doors,
-- MQTT routing, schema lookup and the normalizer.
pub mod Metrics
pub mod Wire
pub mod Bus
pub mod Auth
pub mod Http
pub mod Ws
pub mod Normalizer
pub mod Schema
pub mod Mqtt
