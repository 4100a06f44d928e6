-- ===== src/Subs.antt =====
-- subs/: topics and subscriptions.
pub mod Topic
pub mod Subscriptions
pub mod Combinations
