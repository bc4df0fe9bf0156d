-- ===== src/Events/Envelope.antt =====
-- crates/tiny-mite-events/src/envelope.rs: the event envelope, and the bus as its publishers see it.
use tiny_mite.Crates.{Crates}
use tiny_mite.Domain.Values.{Priority, SecurityContext}
use tiny_mite.Prelude.{ℕ, String, Option}

pub record EventEnvelope (X : Crates) : Type 0 where
  pub id : X.Uuid
  pub event_type : String
  pub version : ℕ
  pub timestamp : X.Time
  pub correlation_id : Option X.Uuid
  pub causation_id : Option X.Uuid
  pub source : String
  pub priority : Priority
  pub security : SecurityContext
  pub payload : X.Json
  pub payload_type : String

-- `EventEnvelope::with_priority`.
unfoldable pub with_priority : (X : Crates) → EventEnvelope X → Priority → EventEnvelope X
with_priority X e p = record e { priority = p }

-- The event bus as the task registry and the cancellation manager use it: both ignore what
-- `publish` returns.
pub record Publisher (X : Crates) : Type 1 where
  pub Bus : Type 0
  pub publish : EventEnvelope X → Bus → Bus
