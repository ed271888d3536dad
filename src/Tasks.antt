-- ===== src/Tasks.antt =====
-- The background tasks that collect what they receive and flush it in batches: crates/client's batcher,
-- the cold writer, the embedder task and the forwarder.
pub mod Loop
pub mod ColdWriter
pub mod Forwarder
pub mod Batcher
pub mod Embedder
