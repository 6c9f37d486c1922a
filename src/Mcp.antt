-- ===== src/Mcp.antt =====
-- The MCP server of devops_mcp/.
pub mod Auth
