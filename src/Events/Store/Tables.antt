-- ===== src/Events/Store/Tables.antt =====
-- The tables `events` and `checkpoints` as SQLite keeps them: the statements that the event store
-- executes, and their documented effect on the rows that a SELECT by key returns.
use tiny_mite.Events.Store.{EventRow, CheckpointRow}
use tiny_mite.Events.Store.Statement.{Order, Statement, is_after}
use tiny_mite.Events.Store.Statement.Meaning.{satisfied}
use tiny_mite.Prelude.{
  ℕ, ◌≡◌, ◌⊎◌, Bool, true, false, String, Option, some, none, List, IsIn, is_some, if◌then◌else◌,
  ◌===◌, string_eq, or_else,
}

pub record EventTables : Type 1 where
  pub Db : Type 0
  -- `LIKE`, the pattern first, and the order of texts, which is irreflexive.
  pub like : String → String → Bool
  pub text_before : String → String → Bool
  pub text_before-irreflexive : (s : String) → text_before s s ≡ false
  -- SELECT … WHERE id = ?, and WHERE consumer_id = ?.
  pub event : Db → String → Option EventRow
  pub checkpoint : Db → String → Option CheckpointRow
  -- The database as it was when the open transaction began.
  pub saved : Db → Option Db
  -- A statement that fails is `none`, and changes nothing.
  pub insert_or_ignore : Db → EventRow → Option Db
  pub upsert_checkpoint : Db → String → CheckpointRow → Option Db
  pub delete_where : Db → (EventRow → Bool) → Option (ℕ × Db)
  pub begin : Db → Option Db
  pub commit_batch : Db → Option Db
  pub rollback : Db → Option Db
  -- A SELECT with its parameters; `none` if the statement has a syntax error.
  pub run : Db → Statement → Option (List EventRow)
  pub event-insert_or_ignore :
      (d d' : Db) (r : EventRow)
      → insert_or_ignore d r ≡ some d'
      → (k : String) → event d' k ≡ or_else (event d k) (if r.id === k then some r else none)
  pub saved-insert_or_ignore :
      (d d' : Db) (r : EventRow) → insert_or_ignore d r ≡ some d' → saved d' ≡ saved d
  pub checkpoint-insert_or_ignore :
      (d d' : Db) (r : EventRow)
      → insert_or_ignore d r ≡ some d'
      → (c : String) → checkpoint d' c ≡ checkpoint d c
  pub checkpoint-upsert :
      (d d' : Db) (c : String) (p : CheckpointRow)
      → upsert_checkpoint d c p ≡ some d'
      → (b : String) → checkpoint d' b ≡ (if c === b then some p else checkpoint d b)
  pub event-upsert :
      (d d' : Db) (c : String) (p : CheckpointRow)
      → upsert_checkpoint d c p ≡ some d'
      → (k : String) → event d' k ≡ event d k
  pub event-delete_where :
      (d d' : Db) (p : EventRow → Bool) (n : ℕ)
      → delete_where d p ≡ some (n, d')
      → (k : String) (r : EventRow) → event d k ≡ some r
      → event d' k ≡ (if p r then none else some r)
  pub event-delete_where-none :
      (d d' : Db) (p : EventRow → Bool) (n : ℕ)
      → delete_where d p ≡ some (n, d')
      → (k : String) → event d k ≡ none
      → event d' k ≡ none
  pub event-begin : (d d' : Db) → begin d ≡ some d' → (k : String) → event d' k ≡ event d k
  pub saved-begin : (d d' : Db) → begin d ≡ some d' → saved d' ≡ some d
  pub event-commit : (d d' : Db) → commit_batch d ≡ some d' → (k : String) → event d' k ≡ event d k
  pub rollback-saved : (d d' s : Db) → rollback d ≡ some d' → saved d ≡ some s → d' ≡ s
  -- An event is found by its own identifier.
  pub event-id : (d : Db) (k : String) (r : EventRow) → event d k ≡ some r → r.id ≡ k
  -- OFFSET needs a LIMIT in SQLite's grammar.
  pub run-syntax :
      (d : Db) (s : Statement) → s.limit ≡ none → is_some s.offset ≡ true → run d s ≡ none
  -- The rows of the answer are rows of the table that satisfy the clause.
  pub run-sound :
      (d : Db) (s : Statement) (rows : List EventRow) (r : EventRow)
      → run d s ≡ some rows
      → IsIn r rows
      → (event d r.id ≡ some r) × (satisfied like text_before s r ≡ true)
  -- Without a limit, every such row is in the answer.
  pub run-complete :
      (d : Db) (s : Statement) (rows : List EventRow) (r : EventRow)
      → run d s ≡ some rows
      → s.limit ≡ none
      → event d r.id ≡ some r
      → satisfied like text_before s r ≡ true
      → IsIn r rows
  -- In the order by timestamp and identifier, a row that a limit cuts off comes after every row of
  -- the answer.
  pub run-first :
      (d : Db) (s : Statement) (rows : List EventRow) (q r : EventRow)
      → run d s ≡ some rows
      → s.order ≡ Order.by_time_and_id
      → s.offset ≡ none
      → IsIn q rows
      → event d r.id ≡ some r
      → satisfied like text_before s r ≡ true
      → IsIn r rows ⊎ (is_after like text_before q.timestamp q.id r ≡ true)
