-- ===== src/Examples/Tables.antt =====
-- A table of rows and a map of tokens as association lists.
use tiny_mite.Examples.Crates.{texts}
use tiny_mite.Examples.Rows.{visible, visible-all_iff}
use tiny_mite.Scheduler.Manager.{TokenMap}
use tiny_mite.Scheduler.Registry.Row.{Row}
use tiny_mite.Scheduler.Registry.Table.{TaskTable}
use mathlib.Core.Option
use tiny_mite.Prelude.{
  ℕ, ◌≡◌, ◌↔◌, refl, Bool, true, String, Option, some, none, List, [], ◌∷◌, map, arith, string_eq,
  nat_eq, ◌===◌, ==_iff, if◌then◌else◌, is_some, contains, lookup, insert, remove, adjust,
  lookup-insert, lookup-remove, lookup-adjust,
}

abbrev pub Rows : Type 0
Rows = List (String × Row)

abbrev pub add_row : Rows → Row → Option Rows
add_row d r = if is_some (lookup r.id d) then none else some (insert r.id r d)

abbrev pub change_row : Rows → String → (Row → Bool) → (Row → Row) → Rows
change_row d k p f = adjust k (λ r. if p r then f r else r) d

pub add_row-none_iff :
    (d : Rows) (r : Row) → (add_row d r ≡ none) ↔ (is_some (lookup r.id d) ≡ true)
add_row-none_iff d r = ground arith

pub lookup-add_row :
    (d d' : Rows) (r : Row)
    → add_row d r ≡ some d'
    → (k : String) → lookup k d' ≡ (if r.id === k then some r else lookup k d)
lookup-add_row d d' r h k = ground (arith, lookup-insert r.id k r d)

pub lookup-change_row :
    (d : Rows) (k : String) (p : Row → Bool) (f : Row → Row)
    → ((r : Row) → (f r).id ≡ r.id)
    → (j : String)
    → lookup j (change_row d k p f)
      ≡ (if k === j then Option.map (λ r. if p r then f r else r) (lookup j d) else lookup j d)
lookup-change_row d k p f keep j = ground (arith, lookup-adjust k j (λ r. if p r then f r else r) d)

abbrev pub row_table : TaskTable
row_table = record {
  Db = Rows;
  select = λ d k. lookup k d;
  insert_row = add_row;
  update_where = change_row;
  delete_row = λ d k. remove k d;
  query_rows = λ d p. visible (λ (r : Row). r.id) [] p d;
  insert_row-none_iff = add_row-none_iff;
  select-insert_row = lookup-add_row;
  select-update_where = lookup-change_row;
  select-delete_row = λ d k j. lookup-remove k j d;
  query_rows_iff = visible-all_iff (λ (r : Row). r.id);
}

pub lookup-contains :
    (k : String) (v : ℕ) (m : List (String × ℕ))
    → lookup k m ≡ some v
    → contains (map (λ e. e.1) m) v ≡ true
unfolding lookup
lookup-contains k v [] h = ground arith
lookup-contains k v ((j, w) ∷ m) h = ground (arith, lookup-contains k v m, ==_iff w v)

pub lookup-nil : (k : String) → lookup {V = ℕ} k [] ≡ none
unfolding lookup
lookup-nil k = refl

abbrev pub token_map : TokenMap texts
token_map = record {
  Map = List (String × ℕ);
  no_tokens = [];
  get = λ k m. lookup k m;
  put = λ k v m. insert k v m;
  drop_key = λ k m. remove k m;
  entries = λ m. m;
  get-no_tokens = lookup-nil;
  get-put = λ k j v m. lookup-insert k j v m;
  get-drop_key = λ k j m. lookup-remove k j m;
  entries-complete = lookup-contains;
}
