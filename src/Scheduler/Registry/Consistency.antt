-- ===== src/Scheduler/Registry/Consistency.antt =====
-- What an operation returns is what the table then holds: the columns of each UPDATE against the
-- change that the code makes to its copy of the task.
use tiny_mite.Crates.{Crates}
use tiny_mite.Domain.Ids.{id_of_text}
use tiny_mite.Domain.Values.{TaskStatus}
use tiny_mite.Events.Envelope.{Publisher}
use tiny_mite.Scheduler.Registry.Operations.{
  Stamp, Registry, fetch, moved, move_columns, check_transition, transition,
}
use tiny_mite.Scheduler.Registry.Marks.{
  cancelling, cancelling_columns, starting, starting_columns, failing, failing_columns, can_retry,
}
use tiny_mite.Scheduler.Registry.Row.{Row, row_to_task, row_fields, task_id_text}
use tiny_mite.Scheduler.Registry.Row.Roundtrip.{
  status_of_text-status_text, parse_ts-time_text, map-parse_ts,
}
use tiny_mite.Scheduler.Registry.Table.{TaskTable}
use tiny_mite.Scheduler.Registry.Transitions.{check_transition_iff}
use tiny_mite.Scheduler.Registry.Task.{TaskRecord}
use tiny_mite.Prelude.{
  ℕ, ◌≡◌, refl, inl, inr, Bool, true, ◌==◌, String, some, none, ok, arith, if◌then◌else◌, string_eq,
  eq_iff, Option-cases, Result-cases, ==_iff, ◌∙◌,
}

module _ (X : Crates) where
  pub row_to_task_inv :
      (r : Row) (t : TaskRecord X)
      → row_to_task X r ≡ ok t
      → (id cid : X.Uuid) × (id_of_text X "task" r.id ≡ some id)
        × (id_of_text X "corr" r.correlation_id ≡ some cid)
        × (t ≡ row_fields X r id cid)
  unfolding row_to_task
  row_to_task_inv r t h = elim (Option-cases (id_of_text X "task" r.id)) [
    | inl e ↦ ground arith
    | inr (id, e) ↦ elim (Option-cases (id_of_text X "corr" r.correlation_id)) [
      | inl f ↦ ground arith
      | inr (cid, f) ↦ (id, cid, e, f, ground arith)
    ]
  ]

  row_to_task-move_columns :
      (now : X.Time) (next : TaskStatus) (r : Row) (t : TaskRecord X)
      → row_to_task X r ≡ ok t
      → row_to_task X (move_columns X (moved X now next t) r) ≡ ok (moved X now next t)
  unfolding row_to_task row_fields move_columns moved
  row_to_task-move_columns now next r t h =
      let (id, cid, e, f, d) = row_to_task_inv r t h in
      let u = moved X now next t in
      ground (
        arith,
        status_of_text-status_text next,
        parse_ts-time_text X now,
        map-parse_ts X u.started_at,
        map-parse_ts X u.completed_at,
        map-parse_ts X u.cancelled_at,
      )

  pub row_to_task-cancelling_columns :
      (now : X.Time) (reason source : String) (r : Row) (t : TaskRecord X)
      → row_to_task X r ≡ ok t
      → row_to_task X (cancelling_columns X now reason source t r)
        ≡ ok (cancelling X now reason source t)
  unfolding row_to_task row_fields cancelling_columns cancelling
  row_to_task-cancelling_columns now reason source r t h =
      let (id, cid, e, f, d) = row_to_task_inv r t h in ground (arith, parse_ts-time_text X now)

  pub row_to_task-starting_columns :
      (now : X.Time) (r : Row) (t : TaskRecord X)
      → row_to_task X r ≡ ok t
      → row_to_task X (starting_columns X now t r) ≡ ok (starting X now t)
  unfolding row_to_task row_fields starting_columns starting
  row_to_task-starting_columns now r t h =
      let (id, cid, e, f, d) = row_to_task_inv r t h in ground (arith, parse_ts-time_text X now)

  -- Where a retry is possible, SQL clears `completed_at` and the code keeps it.
  pub row_to_task-failing_columns :
      (now : X.Time) (msg category : String) (r : Row) (t : TaskRecord X)
      → row_to_task X r ≡ ok t
      → row_to_task X (failing_columns X now msg category t r)
        ≡ ok (record (failing X now msg category t) {
          completed_at =
              if can_retry X t then none else (failing X now msg category t).completed_at;
        })
  unfolding row_to_task row_fields failing_columns failing
  row_to_task-failing_columns now msg category r t h =
      let (id, cid, e, f, d) = row_to_task_inv r t h in
      let u = failing X now msg category t in
      ground (arith, parse_ts-time_text X now, status_of_text-status_text u.status)

module _ (X : Crates) (T : TaskTable) (P : Publisher X) where
  pub fetch_inv :
      (d : T.Db) (id : X.Uuid) (t : TaskRecord X)
      → fetch X T P d id ≡ ok t
      → (r : Row) × (T.select d (task_id_text X id) ≡ some r) × (row_to_task X r ≡ ok t)
  unfolding fetch
  fetch_inv d id t h = elim (Option-cases (T.select d (task_id_text X id))) [
    | inl e ↦ ground arith
    | inr (r, e) ↦ (r, e, ground arith)
  ]

  pub fetch_of_row :
      (d : T.Db) (id : X.Uuid) (r : Row) (t : TaskRecord X)
      → T.select d (task_id_text X id) ≡ some r
      → row_to_task X r ≡ ok t
      → fetch X T P d id ≡ ok t
  unfolding fetch
  fetch_of_row d id r t e h = ground arith

  pub fetch-update_where :
      (d : T.Db) (id : X.Uuid) (t u : TaskRecord X) (p : Row → Bool) (f : Row → Row)
      → fetch X T P d id ≡ ok t
      → ((r : Row) → (f r).id ≡ r.id)
      → ((r : Row) → row_to_task X r ≡ ok t → (p r ≡ true) × (row_to_task X (f r) ≡ ok u))
      → fetch X T P (T.update_where d (task_id_text X id) p f) id ≡ ok u
  fetch-update_where d id t u p f h keep write =
      let key = task_id_text X id in
      let (r, e, c) = fetch_inv d id t h in
      let (hit, new) = write r c in
      fetch_of_row (T.update_where d key p f) id (f r) u
        (ground (arith, T.select-update_where d key p f keep key, eq_iff key key)) new

  row_version : (r : Row) (t : TaskRecord X) → row_to_task X r ≡ ok t → r.version ≡ t.version
  unfolding row_fields
  row_version r t h = let (id, cid, e, f, d) = row_to_task_inv X r t h in ground arith

  move_columns-id : (u : TaskRecord X) (r : Row) → (move_columns X u r).id ≡ r.id
  unfolding move_columns
  move_columns-id u r = refl

  -- A task that `transition` returns is the task that the table then holds under its identifier.
  pub transition_persists :
      (g : Registry X T P) (st : Stamp X) (fresh id : X.Uuid) (expected : ℕ) (next : TaskStatus)
      (u : TaskRecord X)
      → (transition X T P g st fresh id expected next).0 ≡ ok u
      → fetch X T P (transition X T P g st fresh id expected next).1.db id ≡ ok u
  unfolding transition
  transition_persists g st fresh id expected next u h =
      elim (Result-cases (check_transition X T P g.db fresh id expected next)) [
        | inl (e, f) ↦ ground arith
        | inr (t, f) ↦
            let m = (check_transition_iff X T P g.db fresh id expected next t).0 f in
            let stored =
              fetch-update_where g.db id t (moved X st.now next t) (λ r. r.version == expected)
                (move_columns X (moved X st.now next t)) m.stored
                (move_columns-id (moved X st.now next t))
                (λ r c. (
                  (==_iff r.version expected).1 (row_version r t c ∙ m.current),
                  row_to_task-move_columns X st.now next r t c,
                )) in
            ground arith
      ]
