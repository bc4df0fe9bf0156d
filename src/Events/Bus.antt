-- ===== src/Events/Bus.antt =====
-- crates/tiny-mite-events/src/bus.rs: the event bus.
pub mod Delivery
use tiny_mite.Crates.{Crates}
use tiny_mite.Domain.Errors.{ErrorCategory, DomainError, domain_error}
use tiny_mite.Events.Envelope.{EventEnvelope}
use tiny_mite.Prelude.{
  ℕ, ◌+◌, ◌≡◌, ◌≢◌, Bool, true, false, not, String, Option, none, some, Result, ok, err, List, [],
  ◌∷◌, ◌++◌, has_prefix, length, insert, nat_eq, if◌then◌else◌,
}

-- What `tokio::sync::mpsc::Sender::try_send` reports.
pub data Sent : Type 0 where
  delivered full closed : Sent

-- `tokio::sync::mpsc`: a channel with what its receiver has still to take, the oldest first. A send
-- that is not delivered leaves it as it was. `channel` panics on a capacity of zero: `none`.
pub record Mpsc (E : Type 0) : Type 1 where
  pub Chan : Type 0
  pub channel : ℕ → Option Chan
  pub try_send : E → Chan → Sent × Chan
  pub queued : Chan → List E
  pub queued-try_send :
      (e : E) (c : Chan)
      → (try_send e c).0 ≡ Sent.delivered
      → queued (try_send e c).1 ≡ queued c ++ e ∷ []
  pub try_send-lost : (e : E) (c : Chan) → (try_send e c).0 ≢ Sent.delivered → (try_send e c).1 ≡ c

pub data OverflowPolicy : Type 0 where
  drop_oldest drop_newest : OverflowPolicy

module _ (X : Crates) (Q : Mpsc (EventEnvelope X)) where
  pub record SubEntry : Type 0 where
    pub tx : Q.Chan
    pub prefix : String
    pub capacity : ℕ
    pub overflow : OverflowPolicy

  pub record EventBus : Type 0 where
    pub subscribers : List (ℕ × SubEntry)
    pub next_id : ℕ
    pub shutdown : Bool

  unfoldable pub new_bus : EventBus
  new_bus = record { subscribers = []; next_id = 0; shutdown = false }

  -- `subscribe`; `none` is the panic of `channel`.
  unfoldable pub subscribe :
      EventBus
      → String
      → ℕ
      → OverflowPolicy
      → Option (Result (DomainError X.Uuid (Unit {0})) Q.Chan × EventBus)
  subscribe b prefix capacity overflow =
      if b.shutdown
      then some (
        err (domain_error ErrorCategory.cancelled "Cannot subscribe to a shut-down event bus"),
        b,
      )
      else elim (Q.channel capacity) [
        | none ↦ none
        | some c ↦ some (
          ok c,
          record b {
            subscribers =
                insert b.next_id
                  (record { tx = c; prefix = prefix; capacity = capacity; overflow = overflow })
                  b.subscribers;
            next_id = b.next_id + 1;
          },
        )
      ]

  count : Sent → ℕ → ℕ
  count Sent.delivered n = n + 1
  count _ n = n

  -- The loop of `publish`: both overflow policies only log the loss.
  unfoldable pub deliver : EventEnvelope X → List (ℕ × SubEntry) → ℕ × List (ℕ × SubEntry)
  unfolding count
  deliver e [] = (0, [])
  deliver e ((i, s) ∷ ss) =
      let (n, rest) = deliver e ss in
      if not (has_prefix s.prefix e.event_type)
      then (n, (i, s) ∷ rest)
      else (count (Q.try_send e s.tx).0 n, (i, record s { tx = (Q.try_send e s.tx).1 }) ∷ rest)

  unfoldable pub publish : EventBus → EventEnvelope X → Option ℕ × EventBus
  publish b e =
      if b.shutdown
      then (none, b)
      else (let (n, ss) = deliver e b.subscribers in (some n, record b { subscribers = ss }))

  unfoldable pub shut_bus : EventBus → EventBus
  shut_bus b = if b.shutdown then b else record b { shutdown = true; subscribers = [] }

  unfoldable pub subscriber_count : EventBus → ℕ
  subscriber_count b = length b.subscribers
