-- ===== src/Scheduler/Registry.antt =====
-- crates/tiny-mite-scheduler/src/task_registry.rs: the durable task registry.
pub mod Task
pub mod Lifecycle
pub mod Row
pub mod Table
pub mod Operations
pub mod Marks
pub mod Transitions
pub mod Consistency
pub mod Writes
pub mod Races
pub mod Recovery
