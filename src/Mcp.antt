-- ===== src/Mcp.antt =====
-- The server of the model context protocol, crates/tagents-core/src/mcp.
pub mod Framer
pub mod Registry
