-- ===== src/Examples/Databases.antt =====
-- A concrete database of the event store: association lists, and a copy of them while a transaction
-- is open. It refuses a statement with a limit.
use tiny_mite.Events.Store.{EventRow, CheckpointRow}
use tiny_mite.Events.Store.Statement.{Statement}
use tiny_mite.Events.Store.Statement.Meaning.{satisfied}
use tiny_mite.Events.Store.Tables.{EventTables}
use tiny_mite.Examples.Rows.{visible, visible-all_iff}
use Prim.Native.Char.{code}
use tiny_mite.Prelude.{
  ℕ, ◌≡◌, refl, Bool, true, false, String, Option, some, none, List, [], ◌∷◌, sym, ◌-◌, arith,
  string_eq, ◌===◌, ◌==◌, eq_iff, if◌then◌else◌, is_some, lookup, insert, lookup-insert, remove,
  lookup-remove, inl, IsIn, ltb, text_length, length, or_else,
}

abbrev pub like_text : String → String → Bool
like_text String.[] String.[] = true
like_text String.[] (String.◌∷◌ d t) = false
like_text (String.◌∷◌ c p) String.[] = code c == 37
like_text (String.◌∷◌ c p) (String.◌∷◌ d t) =
    let rest = like_text p t in
    if code c == 37 then true else if code c == code d then rest else false

abbrev row_key : EventRow → String
row_key r = r.id

-- Texts are ordered by their length.
abbrev pub shorter : String → String → Bool
shorter a b = ltb (text_length a) (text_length b)

pub record StoreDb : Type 0 where
  pub events : List (String × EventRow)
  pub checkpoints : List (String × CheckpointRow)
  pub before : Option (List (String × EventRow) × List (String × CheckpointRow))

abbrev pub saved_db : StoreDb → Option StoreDb
saved_db d = elim d.before [
  | none ↦ none
  | some b ↦ some (record { events = b.0; checkpoints = b.1; before = none })
]

-- A row is found by its key only if the key is its identifier.
abbrev pub find_event : StoreDb → String → Option EventRow
find_event d k = elim (lookup k d.events) [
  | none ↦ none
  | some r ↦ if r.id === k then some r else none
]

abbrev pub keep_first : StoreDb → EventRow → Option StoreDb
keep_first d r =
    some (if is_some (find_event d r.id) then d else record d { events = insert r.id r d.events })

abbrev pub put_checkpoint : StoreDb → String → CheckpointRow → Option StoreDb
put_checkpoint d c p = some (record d { checkpoints = insert c p d.checkpoints })

abbrev pub survivors : (EventRow → Bool) → List (String × EventRow) → List (String × EventRow)
survivors p [] = []
survivors p ((k, r) ∷ es) =
    let rest = survivors p es in if p r then remove k rest else (k, r) ∷ rest

abbrev pub begin_db : StoreDb → Option StoreDb
begin_db d = elim d.before [
  | some _ ↦ none
  | none ↦ some (record d { before = some (d.events, d.checkpoints) })
]

abbrev pub commit_db : StoreDb → Option StoreDb
commit_db d = some (record d { before = none })

abbrev pub run_db : StoreDb → Statement → Option (List EventRow)
run_db d s =
    if is_some s.limit
    then none
    else if is_some s.offset
    then none
    else some (visible (row_key) [] (satisfied like_text shorter s) d.events)

abbrev pub delete_db : StoreDb → (EventRow → Bool) → Option (ℕ × StoreDb)
delete_db d p =
    let rest = survivors p d.events in
    some (length d.events - length rest, record d { events = rest })

pub shorter-irreflexive : (s : String) → shorter s s ≡ false
shorter-irreflexive s = ground arith

pub find-keep_first :
    (d d' : StoreDb) (r : EventRow)
    → keep_first d r ≡ some d'
    → (k : String)
    → find_event d' k ≡ or_else (find_event d k) (if r.id === k then some r else none)
find-keep_first d d' r h k =
    ground (arith, lookup-insert r.id k r d.events, eq_iff r.id k, eq_iff r.id r.id)

pub saved-keep_first :
    (d d' : StoreDb) (r : EventRow) → keep_first d r ≡ some d' → saved_db d' ≡ saved_db d
saved-keep_first d d' r h = ground arith

pub checkpoint-keep_first :
    (d d' : StoreDb) (r : EventRow)
    → keep_first d r ≡ some d'
    → (c : String) → lookup c d'.checkpoints ≡ lookup c d.checkpoints
checkpoint-keep_first d d' r h c = ground arith

pub checkpoint-put :
    (d d' : StoreDb) (c : String) (p : CheckpointRow)
    → put_checkpoint d c p ≡ some d'
    → (b : String) → lookup b d'.checkpoints ≡ (if c === b then some p else lookup b d.checkpoints)
checkpoint-put d d' c p h b = ground (arith, lookup-insert c b p d.checkpoints)

pub find-put :
    (d d' : StoreDb) (c : String) (p : CheckpointRow)
    → put_checkpoint d c p ≡ some d'
    → (k : String) → find_event d' k ≡ find_event d k
find-put d d' c p h k = ground arith

pub lookup-survivors :
    (p : EventRow → Bool) (es : List (String × EventRow)) (k : String)
    → lookup k (survivors p es)
      ≡ elim (lookup k es) [ none ↦ none | some r ↦ if p r then none else some r ]
unfolding lookup
lookup-survivors p [] k = refl
lookup-survivors p ((j, r) ∷ es) k =
    ground (arith, lookup-survivors p es k, lookup-remove j k (survivors p es))

pub find-delete :
    (d d' : StoreDb) (p : EventRow → Bool) (n : ℕ)
    → delete_db d p ≡ some (n, d')
    → (k : String) (r : EventRow) → find_event d k ≡ some r
    → find_event d' k ≡ (if p r then none else some r)
find-delete d d' p n h k r e = ground (arith, lookup-survivors p d.events k)

pub find-delete-none :
    (d d' : StoreDb) (p : EventRow → Bool) (n : ℕ)
    → delete_db d p ≡ some (n, d')
    → (k : String) → find_event d k ≡ none
    → find_event d' k ≡ none
find-delete-none d d' p n h k e = ground (arith, lookup-survivors p d.events k)

pub find-begin :
    (d d' : StoreDb) → begin_db d ≡ some d' → (k : String) → find_event d' k ≡ find_event d k
find-begin d d' h k = ground arith

pub saved-begin : (d d' : StoreDb) → begin_db d ≡ some d' → saved_db d' ≡ some d
saved-begin d d' h = ground arith

pub find-commit :
    (d d' : StoreDb) → commit_db d ≡ some d' → (k : String) → find_event d' k ≡ find_event d k
find-commit d d' h k = ground arith

pub rollback-saved : (d d' s : StoreDb) → saved_db d ≡ some d' → saved_db d ≡ some s → d' ≡ s
rollback-saved d d' s h e = ground arith

pub find-id : (d : StoreDb) (k : String) (r : EventRow) → find_event d k ≡ some r → r.id ≡ k
find-id d k r h = ground (arith, eq_iff r.id k)

pub run-syntax :
    (d : StoreDb) (s : Statement) → s.limit ≡ none → is_some s.offset ≡ true → run_db d s ≡ none
run-syntax d s h e = ground arith

pub run_sound :
    (d : StoreDb) (s : Statement) (rows : List EventRow) (r : EventRow)
    → run_db d s ≡ some rows
    → IsIn r rows
    → (find_event d r.id ≡ some r) × (satisfied like_text shorter s r ≡ true)
run_sound d s rows r h m =
    let answer : visible (row_key) [] (satisfied like_text shorter s) d.events ≡ rows =
      ground arith in
    let (to, _) = visible-all_iff (row_key) d.events (satisfied like_text shorter s) r in
    let (found, holds) = to (rw (sym answer) at m) in (ground (arith, eq_iff r.id r.id), holds)

pub run_complete :
    (d : StoreDb) (s : Statement) (rows : List EventRow) (r : EventRow)
    → run_db d s ≡ some rows
    → find_event d r.id ≡ some r
    → satisfied like_text shorter s r ≡ true
    → IsIn r rows
run_complete d s rows r h found holds =
    let answer : visible (row_key) [] (satisfied like_text shorter s) d.events ≡ rows =
      ground arith in
    let (_, from) = visible-all_iff (row_key) d.events (satisfied like_text shorter s) r in
    rw answer at (from (ground arith, holds))

abbrev pub store_tables : EventTables
store_tables = record {
  Db = StoreDb;
  like = like_text;
  text_before = shorter;
  text_before-irreflexive = shorter-irreflexive;
  event = find_event;
  checkpoint = λ d c. lookup c d.checkpoints;
  saved = saved_db;
  insert_or_ignore = keep_first;
  upsert_checkpoint = put_checkpoint;
  delete_where = delete_db;
  begin = begin_db;
  commit_batch = commit_db;
  rollback = saved_db;
  run = run_db;
  event-insert_or_ignore = find-keep_first;
  saved-insert_or_ignore = saved-keep_first;
  checkpoint-insert_or_ignore = checkpoint-keep_first;
  checkpoint-upsert = checkpoint-put;
  event-upsert = find-put;
  event-delete_where = find-delete;
  event-delete_where-none = find-delete-none;
  event-begin = find-begin;
  saved-begin = saved-begin;
  event-commit = find-commit;
  rollback-saved = rollback-saved;
  event-id = find-id;
  run-syntax = run-syntax;
  run-sound = run_sound;
  run-complete = λ d s rows r h _ found holds. run_complete d s rows r h found holds;
  run-first = λ d s rows q r h _ _ _ found holds. inl (run_complete d s rows r h found holds);
}
