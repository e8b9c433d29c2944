-- ===== src/Mcp.antt =====
-- mcp-server: a registry of resources and tools behind JSON-RPC.
pub mod Registry
pub mod Server
pub mod Http
pub mod Samples
pub mod Command
mod Examples
