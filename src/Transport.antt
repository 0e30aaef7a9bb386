-- ===== src/Transport.antt =====
-- transport: the HTTP middleware and the MCP adapter.
pub mod Wire
pub mod Http
pub mod Mcp
