-- ===== src/Scheduler/Registry/Writes.antt =====
-- The operations that write without `validate_transition`: what they return, what the table then
-- holds, and what they do to terminal tasks.
use tiny_mite.Crates.{Crates}
use tiny_mite.Domain.Values.{TaskStatus}
use tiny_mite.Domain.Values
use tiny_mite.Events.Envelope.{Publisher}
use tiny_mite.Scheduler.Registry.Consistency.{
  row_to_task-cancelling_columns, row_to_task-starting_columns, row_to_task-failing_columns,
  fetch-update_where, fetch_of_row,
}
use tiny_mite.Scheduler.Registry.Marks.{
  cancelling, cancelling_columns, request_cancellation, starting, starting_columns, mark_started,
  failing, failing_columns, mark_failed, can_retry, any_row, rewrite_task,
}
use tiny_mite.Scheduler.Registry.Operations.{Stamp, Registry, fetch, create, transition}
use tiny_mite.Scheduler.Registry.Row.{Row, row_to_task, task_to_row, task_id_text}
use tiny_mite.Scheduler.Registry.Row.Roundtrip.{row_to_task-task_to_row}
use tiny_mite.Scheduler.Registry.Table.{TaskTable}
use tiny_mite.Scheduler.Registry.Transitions.{transition_ok_iff}
use tiny_mite.Scheduler.Registry.Task.{TaskRecord, TaskRegistryError}
use tiny_mite.Prelude.{
  ◌≡◌, ◌≢◌, ◌<◌, refl, inl, inr, true, String, some, none, ok, err, arith, if◌then◌else◌,
  Option-cases, eq_iff,
}

module _ (X : Crates) (T : TaskTable) (P : Publisher X) where
  rewrite_task_persists :
      (g : Registry X T P) (st : Stamp X) (id : X.Uuid) (event : String)
      (change : TaskRecord X → TaskRecord X) (columns : TaskRecord X → Row → Row)
      (stored : TaskRecord X → TaskRecord X)
      → ((t : TaskRecord X) (r : Row) → (columns t r).id ≡ r.id)
      → ((t : TaskRecord X) (r : Row)
          → row_to_task X r ≡ ok t
          → row_to_task X (columns t r) ≡ ok (stored t))
      → (t : TaskRecord X) → fetch X T P g.db id ≡ ok t
      → ((rewrite_task X T P g st id event change columns).0 ≡ ok (change t))
        × (fetch X T P (rewrite_task X T P g st id event change columns).1.db id ≡ ok (stored t))
  unfolding rewrite_task
  rewrite_task_persists g st id event change columns stored keep write t f =
      let after =
        fetch-update_where X T P g.db id t (stored t) any_row (columns t) f (keep t)
          (λ r c. (refl, write t r c)) in
      (rw (f, rewrite_task), rw (f, rewrite_task) after)

  -- On a stored task, a cancellation request and a start each succeed, and the table then holds the
  -- task that they return.
  pub marks_persist :
      (g : Registry X T P) (st : Stamp X) (id : X.Uuid) (reason source : String) (t : TaskRecord X)
      → fetch X T P g.db id ≡ ok t
      → ((request_cancellation X T P g st id reason source).0
          ≡ ok (cancelling X st.now reason source t))
        × (fetch X T P (request_cancellation X T P g st id reason source).1.db id
            ≡ ok (cancelling X st.now reason source t))
        × ((mark_started X T P g st id).0 ≡ ok (starting X st.now t))
        × (fetch X T P (mark_started X T P g st id).1.db id ≡ ok (starting X st.now t))
  unfolding request_cancellation mark_started
  marks_persist g st id reason source t f =
      let (c, c') =
        rewrite_task_persists g st id "task.cancel_requested" (cancelling X st.now reason source)
          (cancelling_columns X st.now reason source) (cancelling X st.now reason source)
          (λ t r. unfold cancelling_columns in refl)
          (λ t r. row_to_task-cancelling_columns X st.now reason source r t) t f in
      let (s, s') =
        rewrite_task_persists g st id "task.started" (starting X st.now) (starting_columns X st.now)
          (starting X st.now) (λ t r. unfold starting_columns in refl)
          (λ t r. row_to_task-starting_columns X st.now r t) t f in
      (c, c', s, s')

  -- A failed task is stored under the status that its attempts leave it, and its end time is cleared
  -- in the table if it may be retried.
  pub mark_failed_persists :
      (g : Registry X T P) (st : Stamp X) (id : X.Uuid) (msg category : String) (t : TaskRecord X)
      → fetch X T P g.db id ≡ ok t
      → ((mark_failed X T P g st id msg category).0 ≡ ok (failing X st.now msg category t))
        × (fetch X T P (mark_failed X T P g st id msg category).1.db id
            ≡ ok (record (failing X st.now msg category t) {
              completed_at =
                  if can_retry X t then none else (failing X st.now msg category t).completed_at;
            }))
  unfolding mark_failed
  mark_failed_persists g st id msg category t f =
      rewrite_task_persists g st id "task.failed" (failing X st.now msg category)
        (failing_columns X st.now msg category) _ (λ t r. unfold failing_columns in refl)
        (λ t r. row_to_task-failing_columns X st.now msg category r t) t f

  -- A terminal task with an end time that has attempts left is taken back to repairing by `mark_failed`, which no
  -- `transition` may do; the caller still sees its end time, the table has lost it.
  pub mark_failed_reopens :
      (g : Registry X T P) (st : Stamp X) (id : X.Uuid) (msg category : String) (t : TaskRecord X)
      (ended : X.Time)
      → fetch X T P g.db id ≡ ok t
      → Values.is_terminal t.status ≡ true
      → t.completed_at ≡ some ended
      → t.attempt_count < t.max_attempts
      → (u s : TaskRecord X) × ((mark_failed X T P g st id msg category).0 ≡ ok u)
        × (fetch X T P (mark_failed X T P g st id msg category).1.db id ≡ ok s)
        × (s.status ≡ TaskStatus.repairing)
        × (u.completed_at ≡ some ended)
        × (s.completed_at ≡ none)
        × ((fresh : X.Uuid) (u' : TaskRecord X)
            → (transition X T P g st fresh id t.version TaskStatus.repairing).0 ≢ ok u')
  unfolding failing can_retry
  mark_failed_reopens g st id msg category t ended f closed end left =
      let (returned, stored) = mark_failed_persists g st id msg category t f in
      (
        _,
        _,
        returned,
        stored,
        ground arith,
        ground arith,
        ground arith,
        λ fresh u' e.
            let (t', m, same) =
              (transition_ok_iff X T P g st fresh id t.version TaskStatus.repairing u').0 e in
            ground (arith, m.stored, m.open_task),
      )

  task_to_row-id :
      (t : TaskRecord X) (r : Row) → task_to_row X t ≡ some r → r.id ≡ task_id_text X t.id
  unfolding task_to_row
  task_to_row-id t r h = ground arith

  -- A task that can be serialized, with metadata that is read back from its text, is stored as it was
  -- given under a new identifier; under one that is taken it is refused, and the registry stays as
  -- it was.
  pub create_persists :
      (g : Registry X T P) (st : Stamp X) (t : TaskRecord X) (r : Row)
      → ((j : String) → X.json_text t.metadata ≡ some j → X.parse_json j ≡ some t.metadata)
      → task_to_row X t ≡ some r
      → ((T.select g.db (task_id_text X t.id) ≡ none)
          → ((create X T P g st t).0 ≡ ok t) × (fetch X T P (create X T P g st t).1.db t.id ≡ ok t))
        × ((q : Row)
            → T.select g.db (task_id_text X t.id) ≡ some q
            → create X T P g st t ≡ (err TaskRegistryError.database, g))
  unfolding create
  create_persists g st t r readable e =
      let same_id = task_to_row-id t r e in
      elim (Option-cases (T.insert_row g.db r)) [
        | inl clash ↦ (
          λ absent. ground (arith, (T.insert_row-none_iff g.db r).0 clash),
          λ q taken. ground arith,
        )
        | inr (db, inserted) ↦ (
          λ absent. (
            ground arith,
            rw (e, create, inserted)
                (fetch_of_row X T P db t.id r t
                  (ground (
                    arith,
                    T.select-insert_row g.db db r inserted (task_id_text X t.id),
                    eq_iff r.id (task_id_text X t.id),
                  ))
                  (row_to_task-task_to_row X t r readable e)),
          ),
          λ q taken. ground (arith, (T.insert_row-none_iff g.db r).1),
        )
      ]
