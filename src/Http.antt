-- ===== src/Http.antt =====
-- The HTTP API and the MCP server in front of it.
pub mod Endpoint
pub mod Server
pub mod Strings
pub mod Proxy
pub mod Mcp
mod Tests
