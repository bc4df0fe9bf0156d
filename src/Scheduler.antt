-- ===== src/Scheduler.antt =====
-- crates/tiny-mite-scheduler: the task registry, cancellation and the scheduler.
pub mod Registry
pub mod Cancellation
pub mod Manager
pub mod Resources
pub mod Queue
