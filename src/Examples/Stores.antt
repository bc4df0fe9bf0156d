-- ===== src/Examples/Stores.antt =====
-- The event store at concrete events.
use tiny_mite.Domain.Ids.{id_text, id_of_text}
use tiny_mite.Domain.Values.{priority_text}
use tiny_mite.Events.Store.{StoreError, EventRow}
use tiny_mite.Events.Store.Appending.{first_row, append_batch_ok, append_batch_fails}
use tiny_mite.Events.Store.Checkpoints.{resume, replay_resumes}
use tiny_mite.Events.Store.Operations.{
  append, append_batch, query, position, mark_processed, prune, prunes, insert_event, append_each,
  finish_batch, read_rows,
}
use tiny_mite.Events.Store.Queries.{query_iff}
use tiny_mite.Events.Store.Row.{
  envelope_to_row, row_to_envelope, event_text, subject_text, scope_text, subject_of_text,
  scope_of_text, stored_priority, read_optional_id, read_time,
}
use tiny_mite.Events.Store.Row.Roundtrip.{row_to_envelope-envelope_to_row}
use tiny_mite.Events.Store.Selection.{asks_for, IsLiteral, matches_replay, build_query_sql-asks_for}
use tiny_mite.Events.Store.Statement.Building.{
  build_query_sql, build_replay, query_terms, replay_terms, with_event_type, with_position,
  with_term, with_limit, with_offset,
}
use tiny_mite.Events.Store.Statement.{holds}
use tiny_mite.Events.Store.Statement.Meaning.{satisfied}
use tiny_mite.Examples.Crates.{texts}
use tiny_mite.Examples.Events.{
  started, ended, started_row, ended_row, empty_store, both_stored, in_transaction, task_query,
  all_events, old_tasks,
}
use tiny_mite.Examples.Databases.{store_tables, like_text, shorter}
use tiny_mite.Prelude.{
  arith, Bool-cases, inl, inr, eq_iff, ◌===◌, string_eq, subst, lookup, insert, remove, trim_prefix,
  ◌≡◌, ◌↔◌, refl, true, some, none, ok, err, [], ◌∷◌, IsIn, here, ◌⊎◌,
}

started_written : envelope_to_row texts started ≡ some started_row
unfolding envelope_to_row subject_text scope_text id_text priority_text
started_written = refl

ended_written : envelope_to_row texts ended ≡ some ended_row
unfolding envelope_to_row subject_text scope_text id_text priority_text
ended_written = refl

started_appended : (append texts store_tables empty_store started).0 ≡ ok tt
unfolding append insert_event envelope_to_row subject_text scope_text id_text priority_text lookup
    insert
started_appended = refl

both_appended :
    (append_batch texts store_tables empty_store (started ∷ ended ∷ started ∷ [])).0 ≡ ok tt
unfolding append_batch append_each finish_batch insert_event envelope_to_row subject_text scope_text
    id_text priority_text lookup insert
both_appended = refl

nested_refused :
    (append_batch texts store_tables in_transaction (started ∷ [])).0 ≡ err StoreError.database
unfolding append_batch
nested_refused = refl

started_stored : store_tables.event both_stored (event_text texts "1") ≡ some started_row
unfolding lookup id_text
started_stored = refl

started_marked : (mark_processed texts store_tables "5" "6" both_stored "consumer" "1").0 ≡ ok tt
unfolding mark_processed
started_marked = refl

row_to_envelope-envelope_to_row_example : row_to_envelope texts "99" started_row ≡ ok started
row_to_envelope-envelope_to_row_example =
    row_to_envelope-envelope_to_row texts "99" started started_row refl (λ j h. ground arith)
      started_written

append_batch_ok_example :
    store_tables.event
      (append_batch texts store_tables empty_store (started ∷ ended ∷ started ∷ [])).1
      "evt_2"
    ≡ some ended_row
unfolding first_row envelope_to_row subject_text scope_text id_text priority_text lookup
append_batch_ok_example =
    append_batch_ok texts store_tables empty_store (started ∷ ended ∷ started ∷ []) both_appended
      "evt_2"

append_batch_fails_example :
    ((append_batch texts store_tables in_transaction (started ∷ [])).1 ≡ in_transaction)
    ⊎ ((StoreError.database ≡ StoreError.database)
        × (store_tables.saved (append_batch texts store_tables in_transaction (started ∷ [])).1
            ≡ some in_transaction))
append_batch_fails_example =
    append_batch_fails texts store_tables in_transaction (started ∷ []) StoreError.database
      nested_refused

build_query_sql-asks_for_example :
    satisfied like_text shorter (build_query_sql texts task_query) started_row
    ≡ asks_for texts like_text shorter task_query started_row
build_query_sql-asks_for_example =
    build_query_sql-asks_for texts like_text shorter task_query started_row refl

all_replayed :
    store_tables.run both_stored
      (build_replay texts (position texts store_tables both_stored all_events) all_events)
    ≡ some (started_row ∷ ended_row ∷ [])
unfolding build_replay replay_terms with_position with_term with_limit position lookup holds
all_replayed = refl

ended_asked :
    matches_replay texts like_text shorter
      (position texts store_tables both_stored all_events)
      all_events
      ended_row
    ≡ true
unfolding matches_replay position
ended_asked = refl

replay_resumes_example :
    IsIn ended_row (started_row ∷ ended_row ∷ [])
    ⊎ (matches_replay texts like_text shorter
          (position texts store_tables both_stored
            (resume texts store_tables all_events started "6"))
          (resume texts store_tables all_events started "6")
          ended_row
        ≡ true)
unfolding lookup
replay_resumes_example =
    replay_resumes texts store_tables both_stored all_events (started_row ∷ ended_row ∷ []) started
      "6" started_row ended_row all_replayed started_written (here refl) refl ended_asked

started_queried : query texts store_tables "9" both_stored task_query ≡ ok (started ∷ [])
unfolding query build_query_sql query_terms with_event_type with_term with_limit with_offset lookup
    holds read_rows row_to_envelope id_text id_of_text read_optional_id read_time subject_of_text
    scope_of_text stored_priority trim_prefix
started_queried = refl

-- LIKE decides the prefix `task.` on both events.
stored-IsLiteral :
    (r : EventRow)
    → store_tables.event both_stored r.id ≡ some r
    → IsLiteral texts like_text shorter task_query r
unfolding lookup
stored-IsLiteral r h = elim (Bool-cases ("evt_1" === r.id)) [
  | inl e ↦
      let same : started_row ≡ r = ground (arith, eq_iff "evt_1" r.id) in
      subst (IsLiteral texts like_text shorter task_query) same refl
  | inr e ↦ elim (Bool-cases ("evt_2" === r.id)) [
    | inl f ↦
        let same : ended_row ≡ r = ground (arith, eq_iff "evt_2" r.id) in
        subst (IsLiteral texts like_text shorter task_query) same refl
    | inr f ↦ absurd (ground arith)
  ]
]

query_iff_example : IsIn started (started ∷ []) ↔ (
    (r : EventRow) × (store_tables.event both_stored r.id ≡ some r)
    × (asks_for texts like_text shorter task_query r ≡ true)
    × (row_to_envelope texts "9" r ≡ ok started))
query_iff_example =
    query_iff texts store_tables "9" both_stored task_query (started ∷ []) started refl
      stored-IsLiteral started_queried

started_pruned : (prune texts store_tables both_stored old_tasks).0 ≡ ok 1
unfolding prune prunes lookup remove
started_pruned = refl

ended_left :
    store_tables.run
      (prune texts store_tables both_stored old_tasks).1
      (build_query_sql texts (record task_query { to_timestamp = none }))
    ≡ some (ended_row ∷ [])
unfolding prune prunes lookup remove build_query_sql query_terms with_event_type with_term
    with_limit with_offset holds id_text
ended_left = refl
