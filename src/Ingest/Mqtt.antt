-- ===== src/Ingest/Mqtt.antt =====
-- crates/ingest/src/mqtt: the bridge from MQTT topics to events.
pub mod Topic
pub mod Render
pub mod Decode
pub mod Router
pub mod Subscriber
