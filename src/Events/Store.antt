-- ===== src/Events/Store.antt =====
-- crates/tiny-mite-events/src/store.rs: the types of the event store, and the two tables of its
-- database as SQLite keeps them.
pub mod Row
pub mod Statement
pub mod Selection
pub mod Tables
pub mod Operations
pub mod Appending
pub mod Checkpoints
pub mod Queries
use tiny_mite.Crates.{Crates}
use tiny_mite.Prelude.{ℕ, String, Option}

-- `StoreError`, less the third-party errors that it wraps.
pub data StoreError : Type 0 where
  database serde : StoreError
  incompatible_version : (expected actual : ℕ) → StoreError
  missing_migration : ℕ → StoreError
  closed : StoreError

-- `Checkpoint`.
pub record Checkpoint (X : Crates) : Type 0 where
  pub last_event_id : String
  pub last_timestamp : X.Time
  pub updated_at : X.Time

-- `QueryFilter`.
pub record QueryFilter (X : Crates) : Type 0 where
  pub event_type : Option String
  pub correlation_id : Option X.Uuid
  pub causation_id : Option X.Uuid
  pub source : Option String
  pub from_timestamp : Option X.Time
  pub to_timestamp : Option X.Time
  pub limit : Option ℕ
  pub offset : Option ℕ

-- `ReplayFilter`.
pub record ReplayFilter (X : Crates) : Type 0 where
  pub after_checkpoint : Option (Checkpoint X)
  pub after_event_id : Option X.Uuid
  pub event_type : Option String
  pub from_timestamp : Option X.Time
  pub to_timestamp : Option X.Time
  pub limit : Option ℕ

-- `PruneFilter`.
pub record PruneFilter (X : Crates) : Type 0 where
  pub before_timestamp : X.Time
  pub event_type : Option String

-- A row of the table `events`, less `persisted_at`, which the program does not read.
pub record EventRow : Type 0 where
  pub id : String
  pub event_type : String
  pub version : ℕ
  pub timestamp : String
  pub correlation_id : Option String
  pub causation_id : Option String
  pub source : String
  pub priority : String
  pub security_subject : String
  pub security_scope : String
  pub payload_json : String
  pub payload_type : String

-- A row of the table `checkpoints`, which has the consumer's identifier as its key.
pub record CheckpointRow : Type 0 where
  pub last_event_id : String
  pub last_timestamp : String
  pub updated_at : String
