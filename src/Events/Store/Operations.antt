-- ===== src/Events/Store/Operations.antt =====
-- crates/tiny-mite-events/src/store.rs: the operations of `SqliteEventStore`. Each returns its
-- result and the database after it; the connection's lock is held throughout.
use tiny_mite.Crates.{Crates}
use tiny_mite.Events.Envelope.{EventEnvelope}
use tiny_mite.Events.Store.{
  StoreError, Checkpoint, QueryFilter, ReplayFilter, PruneFilter, EventRow, CheckpointRow,
}
use tiny_mite.Events.Store.Row.{event_text, envelope_to_row, row_to_envelope, read_time}
use tiny_mite.Events.Store.Statement.Building.{prefix_pattern, build_query_sql, build_replay}
use tiny_mite.Events.Store.Tables.{EventTables}
use mathlib.Core.Option
use tiny_mite.Prelude.{
  ℕ, Bool, true, ◌&&◌, String, Option, some, none, Result, ok, err, ◌>>=◌, ok_or, List, [], ◌∷◌,
  unwrap_or,
}

module _ (X : Crates) (S : EventTables) where
  abbrev pub Outcome : Type 0 → Type 0
  Outcome A = Result StoreError A × S.Db

  -- The statement of `append`: a payload without a text is an error, and so is a failed statement.
  unfoldable pub insert_event : EventEnvelope X → S.Db → Result StoreError S.Db
  insert_event e d = do
    r ← ok_or (envelope_to_row X e) StoreError.serde
    ok_or (S.insert_or_ignore d r) StoreError.database

  unfoldable pub append : S.Db → EventEnvelope X → Outcome (Unit {0})
  append d e = elim (insert_event e d) [ err x ↦ (err x, d) | ok d' ↦ (ok tt, d') ]

  -- The closure of `append_batch`: the first error, and the database at that point.
  unfoldable pub append_each : List (EventEnvelope X) → S.Db → Outcome (Unit {0})
  append_each [] d = (ok tt, d)
  append_each (e ∷ es) d = elim (insert_event e d) [
    | err x ↦ (err x, d)
    | ok d' ↦ append_each es d'
  ]

  -- COMMIT after success and ROLLBACK after an error; if one of them fails, the transaction stays
  -- open.
  unfoldable pub finish_batch : Outcome (Unit {0}) → Outcome (Unit {0})
  finish_batch (ok u, d) = elim (S.commit_batch d) [
    | none ↦ (err StoreError.database, d)
    | some d' ↦ (ok tt, d')
  ]
  finish_batch (err x, d) = elim (S.rollback d) [
    | none ↦ (err StoreError.database, d)
    | some d' ↦ (err x, d')
  ]

  unfoldable pub append_batch : S.Db → List (EventEnvelope X) → Outcome (Unit {0})
  append_batch d [] = (ok tt, d)
  append_batch d (e ∷ es) = elim (S.begin d) [
    | none ↦ (err StoreError.database, d)
    | some d' ↦ finish_batch (append_each (e ∷ es) d')
  ]

  unfoldable pub get : X.Time → S.Db → X.Uuid → Result StoreError (Option (EventEnvelope X))
  get now d id = elim (S.event d (event_text X id)) [
    | none ↦ ok none
    | some r ↦ row_to_envelope X now r >>= λ e. ok (some e)
  ]

  -- `for row in rows { events.push(row?) }`.
  unfoldable pub read_rows : X.Time → List EventRow → Result StoreError (List (EventEnvelope X))
  read_rows now [] = ok []
  read_rows now (r ∷ rs) = do e ← row_to_envelope X now r; es ← read_rows now rs; ok (e ∷ es)

  unfoldable pub query : X.Time → S.Db → QueryFilter X → Result StoreError (List (EventEnvelope X))
  query now d f = do
    rows ← ok_or (S.run d (build_query_sql X f)) StoreError.database
    read_rows now rows

  -- Where `replay` starts: at the checkpoint, else at the stored event, else at the beginning.
  unfoldable pub position : S.Db → ReplayFilter X → Option (String × String)
  position d f = elim f.after_checkpoint [
    | some c ↦ some (X.time_text c.last_timestamp, c.last_event_id)
    | none ↦ elim f.after_event_id [
      | none ↦ none
      | some id ↦
          let key = event_text X id in
          Option.map (λ (r : EventRow). (r.timestamp, key)) (S.event d key)
    ]
  ]

  unfoldable pub replay :
      X.Time → S.Db → ReplayFilter X → Result StoreError (List (EventEnvelope X))
  replay now d f = do
    rows ← ok_or (S.run d (build_replay X (position d f) f)) StoreError.database
    read_rows now rows

  -- The row that `mark_processed` writes; it reads the clock twice, and the first time stands in for
  -- the timestamp of an event that is not stored.
  unfoldable pub checkpoint_row : X.Time → X.Time → S.Db → X.Uuid → CheckpointRow
  checkpoint_row clock now d id = record {
    last_event_id = event_text X id;
    last_timestamp =
        unwrap_or (Option.map (λ (r : EventRow). r.timestamp) (S.event d (event_text X id)))
          (X.time_text clock);
    updated_at = X.time_text now;
  }

  unfoldable pub mark_processed : X.Time → X.Time → S.Db → String → X.Uuid → Outcome (Unit {0})
  mark_processed clock now d consumer id =
      elim (S.upsert_checkpoint d consumer (checkpoint_row clock now d id)) [
        | none ↦ (err StoreError.database, d)
        | some d' ↦ (ok tt, d')
      ]

  unfoldable pub get_checkpoint : X.Time → S.Db → String → Option (Checkpoint X)
  get_checkpoint now d consumer = elim (S.checkpoint d consumer) [
    | none ↦ none
    | some p ↦ some (record {
      last_event_id = p.last_event_id;
      last_timestamp = read_time X now p.last_timestamp;
      updated_at = read_time X now p.updated_at;
    })
  ]

  -- The WHERE clause of the DELETE statement.
  unfoldable pub prunes : PruneFilter X → EventRow → Bool
  prunes f r =
      S.text_before r.timestamp (X.time_text f.before_timestamp)
      && elim f.event_type [ none ↦ true | some t ↦ S.like (prefix_pattern t) r.event_type ]

  unfoldable pub prune : S.Db → PruneFilter X → Outcome ℕ
  prune d f = elim (S.delete_where d (prunes f)) [
    | none ↦ (err StoreError.database, d)
    | some (n, d') ↦ (ok n, d')
  ]
