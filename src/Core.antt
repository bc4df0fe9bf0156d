-- ===== src/Core.antt =====
-- crates/tiny-mite-core: the lifecycle of the runtime.
pub mod Lifecycle
