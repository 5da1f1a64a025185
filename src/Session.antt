-- ===== src/Session.antt =====
-- A turn of a session, crates/tagents-core/src/session.
pub mod Stream
pub mod Outcome
