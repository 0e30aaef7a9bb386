-- ===== src/Transport/Mcp.antt =====
-- transport/mcpauth: the adapter to the MCP SDK.
pub mod Gate
pub mod Tokens
pub mod Challenge
pub mod Middleware
mod Tests
