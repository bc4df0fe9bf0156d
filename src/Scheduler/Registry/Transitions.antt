-- ===== src/Scheduler/Registry/Transitions.antt =====
-- When `transition` succeeds, and with what.
use tiny_mite.Crates.{Crates}
use tiny_mite.Domain.Values.{TaskStatus}
use tiny_mite.Domain.Values
use tiny_mite.Events.Envelope.{Publisher}
use tiny_mite.Scheduler.Registry.Lifecycle.{
  is_valid_transition, validate_transition, Step, is_valid_transition_iff,
}
use tiny_mite.Scheduler.Registry.Operations.{
  Stamp, Registry, fetch, moved, check_transition, transition,
}
use tiny_mite.Scheduler.Registry.Table.{TaskTable}
use tiny_mite.Scheduler.Registry.Task.{TaskRecord, TaskRegistryError}
use tiny_mite.Scheduler.Registry.Task
use tiny_mite.Prelude.{
  ℕ, ◌≡◌, ◌≢◌, ◌↔◌, inl, inr, true, false, ok, err, arith, u32, ◌+◌, Result-cases,
}

module _ (X : Crates) (T : TaskTable) (P : Publisher X) where
  -- The task is stored as `t`, at the expected version, not terminal, and may move to `next`.
  pub record MayMove (d : T.Db) (id : X.Uuid) (expected : ℕ) (next : TaskStatus) (t : TaskRecord X)
      : Type 0 where
    pub stored : fetch X T P d id ≡ ok t
    pub current : t.version ≡ expected
    pub open_task : Values.is_terminal t.status ≡ false
    pub valid : is_valid_transition t.status next ≡ true

  pub check_transition_iff :
      (d : T.Db) (fresh id : X.Uuid) (expected : ℕ) (next : TaskStatus) (t : TaskRecord X)
      → (check_transition X T P d fresh id expected next ≡ ok t) ↔ MayMove d id expected next t
  unfolding check_transition validate_transition Task.is_terminal
  check_transition_iff d fresh id expected next t = elim (Result-cases (fetch X T P d id)) [
    | inl (e, f) ↦ (λ h. ground arith, λ m. ground (arith, m.stored))
    | inr (c, f) ↦ (λ h. ground arith, λ m. ground (arith, m.stored))
  ]

  -- `transition` returns a task exactly if the task is stored at the expected version, is not
  -- terminal and may move to the requested status; it is then the stored task, moved.
  pub transition_ok_iff :
      (g : Registry X T P) (st : Stamp X) (fresh id : X.Uuid) (expected : ℕ) (next : TaskStatus)
      (u : TaskRecord X)
      → ((transition X T P g st fresh id expected next).0 ≡ ok u)
        ↔ ((t : TaskRecord X) × MayMove g.db id expected next t × (u ≡ moved X st.now next t))
  unfolding transition
  transition_ok_iff g st fresh id expected next u =
      elim (Result-cases (check_transition X T P g.db fresh id expected next)) [
        | inl (e, f) ↦ (
          λ h. ground arith,
          λ (t, m, eq). ground (arith, (check_transition_iff g.db fresh id expected next t).1 m),
        )
        | inr (c, f) ↦ (
          λ h. (c, (check_transition_iff g.db fresh id expected next c).0 f, ground arith),
          λ (t, m, eq). ground (arith, (check_transition_iff g.db fresh id expected next t).1 m),
        )
      ]

  -- A `transition` that fails leaves the registry as it was and publishes nothing.
  pub transition_err :
      (g : Registry X T P) (st : Stamp X) (fresh id : X.Uuid) (expected : ℕ) (next : TaskStatus)
      (e : TaskRegistryError X)
      → (transition X T P g st fresh id expected next).0 ≡ err e
      → (transition X T P g st fresh id expected next).1 ≡ g
  unfolding transition
  transition_err g st fresh id expected next e h = ground arith

  -- A stale writer is told both versions, whatever the status it asks for.
  pub transition_stale :
      (g : Registry X T P) (st : Stamp X) (fresh id : X.Uuid) (expected : ℕ) (next : TaskStatus)
      (t : TaskRecord X)
      → fetch X T P g.db id ≡ ok t
      → t.version ≢ expected
      → transition X T P g st fresh id expected next
        ≡ (err (TaskRegistryError.stale_version id expected t.version), g)
  unfolding transition check_transition
  transition_stale g st fresh id expected next t f n = ground arith

  -- A successful `transition` takes the stored task along a documented step, to the requested
  -- status and the next version; in particular it never unblocks a task.
  pub transition_follows_Step :
      (g : Registry X T P) (st : Stamp X) (fresh id : X.Uuid) (expected : ℕ) (next : TaskStatus)
      (u : TaskRecord X)
      → (transition X T P g st fresh id expected next).0 ≡ ok u
      → (t : TaskRecord X) × (fetch X T P g.db id ≡ ok t)
        × Step t.status u.status
        × (u.status ≡ next)
        × (u.version ≡ u32 (t.version + 1))
        × (t.status ≢ TaskStatus.blocked)
  unfolding moved Values.is_terminal
  transition_follows_Step g st fresh id expected next u h =
      let (t, m, e) = (transition_ok_iff g st fresh id expected next u).0 h in
      let not_blocked : t.status ≢ TaskStatus.blocked = λ b. ground (arith, m.open_task) in
      (
        t,
        m.stored,
        elim ((is_valid_transition_iff t.status next).0 m.valid) [
          | inl s ↦ rw e s
          | inr (b, _) ↦ absurd (not_blocked b)
        ],
        ground arith,
        ground arith,
        not_blocked,
      )
