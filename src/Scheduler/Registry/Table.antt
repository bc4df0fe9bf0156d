-- ===== src/Scheduler/Registry/Table.antt =====
-- The table `tasks` as SQLite keeps it: the statements that the registry executes on a healthy
-- connection, with their documented effect on the rows that a SELECT by primary key returns.
use tiny_mite.Scheduler.Registry.Row.{Row}
use tiny_mite.Prelude.{
  ◌≡◌, ◌↔◌, Bool, true, String, Option, some, none, List, IsIn, is_some, if◌then◌else◌, ◌===◌,
  string_eq,
}
use mathlib.Core.Option

pub record TaskTable : Type 1 where
  pub Db : Type 0
  -- SELECT * FROM tasks WHERE id = ?
  pub select : Db → String → Option Row
  -- INSERT INTO tasks; `none` is a violation of the primary key.
  pub insert_row : Db → Row → Option Db
  -- UPDATE tasks SET … WHERE id = ? AND …
  pub update_where : Db → String → (Row → Bool) → (Row → Row) → Db
  -- DELETE FROM tasks WHERE id = ?
  pub delete_row : Db → String → Db
  -- SELECT * FROM tasks WHERE …, in the order that the statement asks for.
  pub query_rows : Db → (Row → Bool) → List Row
  pub insert_row-none_iff :
      (d : Db) (r : Row) → (insert_row d r ≡ none) ↔ (is_some (select d r.id) ≡ true)
  pub select-insert_row :
      (d d' : Db) (r : Row)
      → insert_row d r ≡ some d'
      → (k : String) → select d' k ≡ (if r.id === k then some r else select d k)
  pub select-update_where :
      (d : Db) (k : String) (p : Row → Bool) (f : Row → Row)
      → ((r : Row) → (f r).id ≡ r.id)
      → (j : String)
      → select (update_where d k p f) j
        ≡ (if k === j then Option.map (λ r. if p r then f r else r) (select d j) else select d j)
  pub select-delete_row :
      (d : Db) (k j : String) → select (delete_row d k) j ≡ (if k === j then none else select d j)
  pub query_rows_iff :
      (d : Db) (p : Row → Bool) (r : Row)
      → IsIn r (query_rows d p) ↔ ((select d r.id ≡ some r) × (p r ≡ true))
