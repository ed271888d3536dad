-- ===== src/Examples.antt =====
-- The theorems of the other modules at concrete inputs, and the tests of the source.
mod Data
mod Core
mod Store
mod Ingest
mod Tasks
mod Config
mod Mcp
mod Mqtt
