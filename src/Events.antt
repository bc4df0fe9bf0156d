-- ===== src/Events.antt =====
-- crates/tiny-mite-events: the event envelope, the bus and the event store.
pub mod Envelope
pub mod Bus
pub mod Store
