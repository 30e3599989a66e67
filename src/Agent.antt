-- ===== src/Agent.antt =====
-- The agent beside the editor in a session's container: ide-agent/src/activity.rs and
-- ide-agent/src/main.rs.
pub mod Activity
pub mod Durable
