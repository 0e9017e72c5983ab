-- ===== src/Logs.antt =====
-- The stream of log entries.
pub mod Broadcaster
mod Tests
