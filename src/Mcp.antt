-- ===== src/Mcp.antt =====
-- crates/percept/src/mcp: the tools that a client of the MCP endpoint calls, and the endpoint itself.
pub mod Values
pub mod Registry
pub mod Window
pub mod Peer
pub mod Sources
pub mod Search
pub mod Protocol
pub mod Schemas
pub mod Router
pub mod State
