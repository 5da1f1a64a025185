-- ===== src/Notify.antt =====
-- The notification daemon, crates/tagents-core/src/notify.
pub mod Event
pub mod Kinds
pub mod Deadlines
pub mod Options
pub mod Rows
pub mod Phrases
pub mod Compose
pub mod Screen
pub mod Notifier
pub mod Engine
pub mod Follower
pub mod Lock
