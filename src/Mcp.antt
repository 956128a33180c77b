-- ===== src/Mcp.antt =====
-- src/mcp: the binding to MCP. Here its round tokens and headers, the declaration of the extension, and
-- the answers that a retry brings.
pub mod Affinity
pub mod Declaration
pub mod Responses
mod Tests
