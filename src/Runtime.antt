-- ===== src/Runtime.antt =====
-- crates/tiny-mite-runtime: the caches, and reliability.
pub mod Cache
pub mod Reliability
pub mod Compaction
pub mod Context
pub mod Router
pub mod Pressure
