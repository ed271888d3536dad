-- ===== src/Config.antt =====
-- crates/percept/src/config: the configuration, from its files to the descriptors and policies.
pub mod Entries
pub mod Schema
pub mod Duration
pub mod Secrets
pub mod Validate
pub mod Descriptors
pub mod Load
