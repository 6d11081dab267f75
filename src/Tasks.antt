-- ===== src/Tasks.antt =====
-- src/honeywatch/tasks: the worker between the queue and the table.
pub mod Worker
pub mod Classify
pub mod Stored
pub mod Lifecycle
mod Tests
