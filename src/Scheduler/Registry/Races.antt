-- ===== src/Scheduler/Registry/Races.antt =====
-- Concurrent callers of `transition`: optimistic concurrency, and terminal tasks.
use tiny_mite.Crates.{Crates}
use tiny_mite.Domain.Ids.{id_of_text-id_text}
use tiny_mite.Domain.Values.{TaskStatus}
use tiny_mite.Domain.Values
use tiny_mite.Events.Envelope.{Publisher}
use tiny_mite.Scheduler.Registry.Consistency.{transition_persists}
use tiny_mite.Scheduler.Registry.Marks.{mark_completed}
use tiny_mite.Scheduler.Registry.Operations.{
  Stamp, Registry, read_row, fetch, moved, move_columns, transition, check_transition,
}
use tiny_mite.Scheduler.Registry.Row.{Row, task_id_text}
use tiny_mite.Scheduler.Registry.Table.{TaskTable}
use tiny_mite.Scheduler.Registry.Task.{TaskRecord, TaskRegistryError}
use tiny_mite.Scheduler.Registry.Transitions.{transition_ok_iff, transition_err, transition_stale}
use tiny_mite.Prelude.{
  ℕ, ◌+◌, ◌<◌, ◌≡◌, ◌≢◌, refl, ◌∙◌, inl, inr, true, false, List, [], ◌∷◌, ok, err, arith, u32,
  ◌===◌, string_eq, eq_iff, Result-cases, Bool-cases, ◌==◌,
}

module _ (X : Crates) (T : TaskTable) (P : Publisher X) where
  -- Of two callers that read the same `u32` version of a task, only the first to move it succeeds: the
  -- second is told that its version is stale, and the task stays where the first has moved it.
  pub one_writer_wins :
      (g : Registry X T P) (st st' : Stamp X) (fresh fresh' id : X.Uuid) (expected : ℕ)
      (next next' : TaskStatus) (u : TaskRecord X)
      → expected < 4294967296
      → (transition X T P g st fresh id expected next).0 ≡ ok u
      → let g' = (transition X T P g st fresh id expected next).1 in
        transition X T P g' st' fresh' id expected next'
        ≡ (err (TaskRegistryError.stale_version id expected (u32 (expected + 1))), g')
  unfolding moved
  one_writer_wins g st st' fresh fresh' id expected next next' u small h =
      let (t, m, e) = (transition_ok_iff X T P g st fresh id expected next u).0 h in
      let version : u.version ≡ u32 (expected + 1) = ground (arith, m.current) in
      rw version at (
        transition_stale X T P (transition X T P g st fresh id expected next).1 st' fresh' id
          expected next' u (transition_persists X T P g st fresh id expected next u h)
          (λ same. omega arith))

  -- A request to `transition`.
  pub record Request : Type 0 where
    pub stamp : Stamp X
    pub fresh : X.Uuid
    pub id : X.Uuid
    pub expected : ℕ
    pub next : TaskStatus

  -- The requests of any callers, in the order in which they take the lock.
  pub run : Registry X T P → List Request → Registry X T P
  run g [] = g
  run g (q ∷ qs) = run (transition X T P g q.stamp q.fresh q.id q.expected q.next).1 qs

  id_text-injective : (i j : X.Uuid) → task_id_text X i ≡ task_id_text X j → i ≡ j
  id_text-injective i j e = cc (id_of_text-id_text X "task" i, id_of_text-id_text X "task" j)

  fetch_frame :
      (d d' : T.Db) (id : X.Uuid)
      → T.select d' (task_id_text X id) ≡ T.select d (task_id_text X id)
      → fetch X T P d' id ≡ fetch X T P d id
  unfolding fetch
  fetch_frame d d' id e = rw (e, fetch, read_row)

  move_columns-id : (u : TaskRecord X) (r : Row) → (move_columns X u r).id ≡ r.id
  unfolding move_columns
  move_columns-id u r = refl

  transition_frame :
      (g : Registry X T P) (st : Stamp X) (fresh id j : X.Uuid) (expected : ℕ) (next : TaskStatus)
      → (task_id_text X id === task_id_text X j) ≡ false
      → T.select (transition X T P g st fresh id expected next).1.db (task_id_text X j)
        ≡ T.select g.db (task_id_text X j)
  unfolding transition
  transition_frame g st fresh id j expected next apart =
      elim (Result-cases (check_transition X T P g.db fresh id expected next)) [
        | inl (e, f) ↦ ground arith
        | inr (t, f) ↦ ground (
          arith,
          T.select-update_where g.db (task_id_text X id) (λ r. r.version == expected)
              (move_columns X (moved X st.now next t)) (move_columns-id (moved X st.now next t))
              (task_id_text X j),
        )
      ]

  transition_terminal :
      (g : Registry X T P) (q : Request) (id : X.Uuid) (t : TaskRecord X)
      → fetch X T P g.db id ≡ ok t
      → Values.is_terminal t.status ≡ true
      → fetch X T P (transition X T P g q.stamp q.fresh q.id q.expected q.next).1.db id ≡ ok t
  transition_terminal g q id t f closed =
      elim (Bool-cases (task_id_text X q.id === task_id_text X id)) [
        | inl same ↦
            let same_id = id_text-injective q.id id ((eq_iff _ _).0 same) in
            elim (Result-cases (transition X T P g q.stamp q.fresh q.id q.expected q.next).0) [
              | inl (e, h) ↦
                  rw (transition_err X T P g q.stamp q.fresh q.id q.expected q.next e h) f
              | inr (u, h) ↦
                  let (t', m, _) =
                    (transition_ok_iff X T P g q.stamp q.fresh q.id q.expected q.next u).0 h in
                  ground (arith, m.stored, m.open_task)
            ]
        | inr apart ↦
            fetch_frame _ _ id (transition_frame g q.stamp q.fresh q.id id q.expected q.next apart)
            ∙ f
      ]

  -- Once a task is complete, cancelled or blocked, no sequence of transition requests, to it or to
  -- other tasks, changes anything of it.
  pub terminal_absorbs :
      (g : Registry X T P) (qs : List Request) (id : X.Uuid) (t : TaskRecord X)
      → fetch X T P g.db id ≡ ok t
      → Values.is_terminal t.status ≡ true
      → fetch X T P (run g qs).db id ≡ ok t
  unfolding run
  terminal_absorbs g [] id t f closed = f
  terminal_absorbs g (q ∷ qs) id t f closed =
      terminal_absorbs (transition X T P g q.stamp q.fresh q.id q.expected q.next).1 qs id t
        (transition_terminal g q id t f closed) closed

  -- Whatever other callers do between the two steps of `mark_completed`, it completes the task that
  -- it read only if the task still has the version read; on any other version it reports a stale
  -- version and leaves what the others did as it is.
  pub mark_completed_race :
      (g : Registry X T P) (between : Registry X T P → Registry X T P) (st : Stamp X)
      (fresh id : X.Uuid) (t s : TaskRecord X)
      → fetch X T P g.db id ≡ ok t
      → fetch X T P (between g).db id ≡ ok s
      → ((s.version ≢ t.version)
          → mark_completed X T P g between st fresh id
            ≡ (err (TaskRegistryError.stale_version id t.version s.version), between g))
        × ((u : TaskRecord X)
            → (mark_completed X T P g between st fresh id).0 ≡ ok u
            → (s.version ≡ t.version) × (u ≡ moved X st.now TaskStatus.complete s))
  unfolding mark_completed
  mark_completed_race g between st fresh id t s f f' = (
    λ n.
        rw (f, mark_completed)
          (transition_stale X T P (between g) st fresh id t.version TaskStatus.complete s f' n),
    λ u h.
        let h' = rw (f, mark_completed) at h in
        let (t', m, e) =
          (transition_ok_iff X T P (between g) st fresh id t.version TaskStatus.complete u).0 h' in
        ground (arith, m.stored, m.current),
  )
