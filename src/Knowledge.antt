-- ===== src/Knowledge.antt =====
-- The shared knowledge server, crates/tagents-core/src/knowledge.
pub mod Join
