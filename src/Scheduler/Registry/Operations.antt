-- ===== src/Scheduler/Registry/Operations.antt =====
-- crates/tiny-mite-scheduler/src/task_registry.rs: the operations of `SqliteTaskRegistry`. Each
-- holds the connection's lock from its SELECT to its UPDATE, and publishes after it is released.
use tiny_mite.Crates.{Crates, Scalar}
use tiny_mite.Domain.Values.{TaskStatus, Priority, default_security, status_text, priority_text}
use tiny_mite.Domain.Values
use tiny_mite.Events.Envelope.{EventEnvelope, Publisher}
use tiny_mite.Scheduler.Registry.Lifecycle.{validate_transition}
use tiny_mite.Scheduler.Registry.Row.{Row, task_to_row, row_to_task, task_id_text, correlation_text}
use tiny_mite.Scheduler.Registry.Table.{TaskTable}
use tiny_mite.Scheduler.Registry.Task.{TaskRecord, TaskRegistryError}
use tiny_mite.Scheduler.Registry.Task
use tiny_mite.Prelude.{
  ℕ, ◌+◌, Bool, true, false, not, ◌&&◌, String, Option, some, none, Result, ok, err, ◌>>=◌, ◌>>◌,
  ok_or, map_err, [], ◌∷◌, ensure, ◌==◌, is_some, if◌then◌else◌, u32,
}
use mathlib.Core.Option

-- What an operation reads from outside: the clock, and the identifier and time of its event.
pub record Stamp (X : Crates) : Type 0 where
  pub now : X.Time
  pub event_id : X.Uuid
  pub event_time : X.Time

abbrev pub is_executing : TaskStatus → Bool
is_executing TaskStatus.executing = true
is_executing _ = false

abbrev pub is_cancelled : TaskStatus → Bool
is_cancelled TaskStatus.cancelled = true
is_cancelled _ = false

module _ (X : Crates) where
  -- The envelope that `emit_event` builds.
  unfoldable pub task_event : Stamp X → String → TaskRecord X → Option TaskStatus → EventEnvelope X
  task_event st event_type t previous = record {
    id = st.event_id;
    event_type = event_type;
    version = 1;
    timestamp = st.event_time;
    correlation_id = some t.correlation_id;
    causation_id = none;
    source = "task-registry";
    priority = t.priority;
    security = default_security;
    payload = X.json_object (
        ("task_id", Scalar.text (task_id_text X t.id))
        ∷ ("correlation_id", Scalar.text (correlation_text X t.correlation_id))
        ∷ ("status", Scalar.text (status_text t.status))
        ∷ (
          "previous_status",
          elim previous [ none ↦ Scalar.null | some s ↦ Scalar.text (status_text s) ],
        )
        ∷ ("priority", Scalar.text (priority_text t.priority))
        ∷ ("attempt", Scalar.number t.attempt_count)
        ∷ []);
    payload_type = "task_registry::TaskEvent";
  }

  -- The task that `transition` returns.
  unfoldable pub moved : X.Time → TaskStatus → TaskRecord X → TaskRecord X
  moved now next t = record t {
    status = next;
    updated_at = now;
    version = u32 (t.version + 1);
    started_at = if is_executing next && not (is_some t.started_at) then some now else t.started_at;
    completed_at =
        if Values.is_terminal next && not (is_some t.completed_at)
        then some now
        else t.completed_at;
    cancelled_at = if is_cancelled next then some now else t.cancelled_at;
  }

  -- The SET clause of its UPDATE.
  unfoldable pub move_columns : TaskRecord X → Row → Row
  move_columns u r = record r {
    status = status_text u.status;
    updated_at = X.time_text u.updated_at;
    version = u.version;
    started_at = Option.map X.time_text u.started_at;
    completed_at = Option.map X.time_text u.completed_at;
    cancelled_at = Option.map X.time_text u.cancelled_at;
  }

  -- The error of `validate_transition` with the identifier put in.
  retarget : X.Uuid → TaskRegistryError X → TaskRegistryError X
  retarget id (TaskRegistryError.invalid_transition c r _) =
      TaskRegistryError.invalid_transition c r id
  retarget id e = e

module _ (X : Crates) (T : TaskTable) (P : Publisher X) where
  pub record Registry : Type 0 where
    pub db : T.Db
    pub bus : P.Bus

  -- The outcome of an operation: what it returns, and the registry after it.
  abbrev pub Outcome : Type 0 → Type 0
  Outcome A = Result (TaskRegistryError X) A × Registry

  -- The rows changed and the event published, when an operation succeeds.
  unfoldable pub commit : Registry → T.Db → EventEnvelope X → TaskRecord X → Outcome (TaskRecord X)
  commit g db e t = (ok t, record { db = db; bus = P.publish e g.bus })

  -- `query_row(…).optional()?`, and the absent row as an error.
  unfoldable pub read_row : T.Db → X.Uuid → Result (TaskRegistryError X) (Option (TaskRecord X))
  read_row d id = elim (T.select d (task_id_text X id)) [
    | none ↦ ok none
    | some r ↦ row_to_task X r >>= λ t. ok (some t)
  ]

  unfoldable pub fetch : T.Db → X.Uuid → Result (TaskRegistryError X) (TaskRecord X)
  unfolding read_row
  fetch d id = read_row d id >>= λ t. ok_or t (TaskRegistryError.not_found id)

  -- `create`: a duplicate identifier violates the primary key.
  unfoldable pub create : Registry → Stamp X → TaskRecord X → Outcome (TaskRecord X)
  unfolding commit
  create g st t = elim (task_to_row X t) [
    | none ↦ (err TaskRegistryError.serde, g)
    | some r ↦ elim (T.insert_row g.db r) [
      | none ↦ (err TaskRegistryError.database, g)
      | some db ↦ commit g db (task_event X st "task.created" t none) t
    ]
  ]

  unfoldable pub get : Registry → X.Uuid → Outcome (Option (TaskRecord X))
  unfolding read_row
  get g id = (read_row g.db id, g)

  -- The checks of `transition` in order; `fresh` is the placeholder identifier.
  unfoldable pub check_transition :
      T.Db → X.Uuid → X.Uuid → ℕ → TaskStatus → Result (TaskRegistryError X) (TaskRecord X)
  unfolding retarget
  check_transition d fresh id expected next = do
    t ← fetch d id
    ensure (t.version == expected) (TaskRegistryError.stale_version id expected t.version)
    ensure (not (Task.is_terminal X t)) (TaskRegistryError.task_terminal id t.status)
    map_err (retarget X id) (validate_transition X fresh t.status next)
    ok t

  unfoldable pub transition :
      Registry → Stamp X → X.Uuid → X.Uuid → ℕ → TaskStatus → Outcome (TaskRecord X)
  unfolding commit
  transition g st fresh id expected next = elim (check_transition g.db fresh id expected next) [
    | err e ↦ (err e, g)
    | ok t ↦
        let u = moved X st.now next t in
        commit g
          (T.update_where g.db (task_id_text X id) (λ r. r.version == expected) (move_columns X u))
          (task_event X st "task.state_changed" u (some t.status)) u
  ]
