-- ===== src/Examples/Buses.antt =====
-- The theorem on the event bus at concrete channels.
use tiny_mite.Domain.Values.{Priority, default_security}
use tiny_mite.Events.Bus.{Sent, Mpsc, OverflowPolicy, EventBus, publish}
use tiny_mite.Events.Bus.Delivery.{Delivers, publish-Delivers}
use tiny_mite.Events.Envelope.{EventEnvelope}
use tiny_mite.Examples.Crates.{texts}
use tiny_mite.Prelude.{
  ℕ, ◌≡◌, ◌≢◌, refl, false, none, some, Option, List, [], ◌∷◌, ◌++◌, arith, length, ltb,
  if◌then◌else◌,
}

abbrev Envelope : Type 0
Envelope = EventEnvelope texts

-- A channel of a capacity with a receiver that takes nothing.
abbrev send : Envelope → ℕ × List Envelope → Sent × (ℕ × List Envelope)
send e c = if ltb (length c.1) c.0 then (Sent.delivered, (c.0, c.1 ++ e ∷ [])) else (Sent.full, c)

abbrev open_channel : ℕ → Option (ℕ × List Envelope)
open_channel n = if ltb 0 n then some (n, []) else none

queued-send :
    (e : Envelope) (c : ℕ × List Envelope)
    → (send e c).0 ≡ Sent.delivered
    → (send e c).1.1 ≡ c.1 ++ e ∷ []
queued-send e c h = ground arith

send-lost :
    (e : Envelope) (c : ℕ × List Envelope) → (send e c).0 ≢ Sent.delivered → (send e c).1 ≡ c
send-lost e c h = ground arith

abbrev lists : Mpsc Envelope
lists = record {
  Chan = ℕ × List Envelope;
  channel = open_channel;
  try_send = send;
  queued = λ c. c.1;
  queued-try_send = queued-send;
  try_send-lost = send-lost;
}

abbrev event : Envelope
event = record {
  id = "e";
  event_type = "task.created";
  version = 1;
  timestamp = "n";
  correlation_id = none;
  causation_id = none;
  source = "test";
  priority = Priority.normal;
  security = default_security;
  payload = "{}";
  payload_type = "test";
}

abbrev bus : EventBus texts lists
bus = record {
  subscribers =
      (
        0,
        record {
          tx = (1, []);
          prefix = "task.";
          capacity = 1;
          overflow = OverflowPolicy.drop_newest;
        },
      )
      ∷ (
        1,
        record {
          tx = (1, event ∷ []);
          prefix = "task.";
          capacity = 1;
          overflow = OverflowPolicy.drop_oldest;
        },
      )
      ∷ [];
  next_id = 2;
  shutdown = false;
}

publish_example :
    (n : ℕ) × ((publish texts lists bus event).0 ≡ some n)
    × Delivers texts lists event bus.subscribers (publish texts lists bus event).1.subscribers n
publish_example = (publish-Delivers texts lists bus event).1 refl
