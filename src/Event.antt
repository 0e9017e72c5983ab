-- ===== src/Event.antt =====
-- The event bus (src/event), and the tasks and triggers that stand on it (src/task, src/trigger).
pub mod Bus
pub mod Trigger
mod Tests
