-- ===== src/Scheduler/Registry/Marks.antt =====
-- crates/tiny-mite-scheduler/src/task_registry.rs: the operations of `SqliteTaskRegistry` that write
-- without `validate_transition`, and the recovery after a crash.
use tiny_mite.Crates.{Crates}
use tiny_mite.Domain.Values.{TaskStatus, status_text, priority_text}
use tiny_mite.Events.Envelope.{Publisher}
use tiny_mite.Scheduler.Registry.Operations.{
  Stamp, Registry, Outcome, task_event, commit, fetch, transition,
}
use tiny_mite.Scheduler.Registry.Row.{
  Row, row_to_task, task_id_text, project_text, correlation_text, flag,
}
use tiny_mite.Scheduler.Registry.Table.{TaskTable}
use tiny_mite.Scheduler.Registry.Task.{TaskRecord, TaskRegistryError}
use tiny_mite.Prelude.{
  ℕ, ◌+◌, Bool, true, not, ◌&&◌, ◌||◌, String, some, none, Result, ok, err, ◌>>=◌, ensure, ◌==◌,
  ltb, or_else, is_some, if◌then◌else◌, u32, List, [], ◌∷◌, ◌===◌, string_eq,
}
use mathlib.Core.Option

-- An UPDATE with no condition but the identifier.
abbrev pub any_row : Row → Bool
any_row _ = true

-- `started_at IS NOT NULL AND status NOT IN ('COMPLETE','CANCELLED','BLOCKED')`.
unfoldable pub interrupted_row : Row → Bool
interrupted_row r =
    is_some r.started_at
    && not (r.status === "COMPLETE" || r.status === "CANCELLED" || r.status === "BLOCKED")

module _ (X : Crates) where
  -- The SET clause of `update`, with the two serialized columns.
  unfoldable pub update_columns : X.Time → ℕ → String → String → TaskRecord X → Row → Row
  update_columns now version budget_json metadata_json t r = record r {
    project_id = Option.map (project_text X) t.project_id;
    correlation_id = correlation_text X t.correlation_id;
    parent_id = Option.map (task_id_text X) t.parent_id;
    status = status_text t.status;
    priority = priority_text t.priority;
    updated_at = X.time_text now;
    started_at = Option.map X.time_text t.started_at;
    completed_at = Option.map X.time_text t.completed_at;
    attempt_count = t.attempt_count;
    max_attempts = t.max_attempts;
    resource_budget_json = budget_json;
    cancellation_requested = flag t.cancellation_requested;
    cancellation_reason = t.cancellation_reason;
    cancellation_source = t.cancellation_source;
    cancelled_at = Option.map X.time_text t.cancelled_at;
    error_message = t.error_message;
    error_category = t.error_category;
    retry_policy = t.retry_policy;
    is_resumable = flag t.is_resumable;
    version = version;
    metadata_json = metadata_json;
  }

  unfoldable pub cancelling : X.Time → String → String → TaskRecord X → TaskRecord X
  cancelling now reason source t = record t {
    cancellation_requested = true;
    cancellation_reason = some reason;
    cancellation_source = some source;
    cancelled_at = some now;
    updated_at = now;
    version = u32 (t.version + 1);
  }

  unfoldable pub cancelling_columns : X.Time → String → String → TaskRecord X → Row → Row
  cancelling_columns now reason source t r = record r {
    cancellation_requested = 1;
    cancellation_reason = some reason;
    cancellation_source = some source;
    cancelled_at = some (X.time_text now);
    updated_at = X.time_text now;
    version = u32 (t.version + 1);
  }

  unfoldable pub starting : X.Time → TaskRecord X → TaskRecord X
  starting now t = record t {
    started_at = if not (is_some t.started_at) then some now else t.started_at;
    attempt_count = u32 (t.attempt_count + 1);
    updated_at = now;
    version = u32 (t.version + 1);
  }

  -- `COALESCE(started_at, ?2)` is `or_else`.
  unfoldable pub starting_columns : X.Time → TaskRecord X → Row → Row
  starting_columns now t r = record r {
    started_at = or_else r.started_at (some (X.time_text now));
    attempt_count = u32 (t.attempt_count + 1);
    updated_at = X.time_text now;
    version = u32 (t.version + 1);
  }

  unfoldable pub can_retry : TaskRecord X → Bool
  can_retry t = ltb t.attempt_count t.max_attempts

  abbrev failed_status : Bool → TaskStatus
  failed_status retry = if retry then TaskStatus.repairing else TaskStatus.blocked

  abbrev retry_text : Bool → String
  retry_text retry = if retry then "Retryable" else "NonRetryable"

  unfoldable pub failing : X.Time → String → String → TaskRecord X → TaskRecord X
  unfolding can_retry
  failing now msg category t = record t {
    status = failed_status (can_retry t);
    error_message = some msg;
    error_category = some category;
    retry_policy = some (retry_text (can_retry t));
    updated_at = now;
    completed_at =
        if not (can_retry t) && not (is_some t.completed_at) then some now else t.completed_at;
    version = u32 (t.version + 1);
  }

  unfoldable pub failing_columns : X.Time → String → String → TaskRecord X → Row → Row
  unfolding can_retry
  failing_columns now msg category t r = record r {
    status = status_text (failed_status (can_retry t));
    error_message = some msg;
    error_category = some category;
    retry_policy = some (retry_text (can_retry t));
    updated_at = X.time_text now;
    completed_at = if can_retry t then none else or_else r.completed_at (some (X.time_text now));
    version = u32 (t.version + 1);
  }

  -- `tasks.push(row?)` for each row.
  unfoldable pub read_rows : List Row → Result (TaskRegistryError X) (List (TaskRecord X))
  read_rows [] = ok []
  read_rows (r ∷ rs) = do t ← row_to_task X r; ts ← read_rows rs; ok (t ∷ ts)

module _ (X : Crates) (T : TaskTable) (P : Publisher X) where
  -- `update` publishes no event.
  unfoldable pub update : Registry X T P → X.Time → TaskRecord X → ℕ → Outcome X T P (TaskRecord X)
  update g now t expected =
      elim (fetch X T P g.db t.id >>= λ c.
      ensure (c.version == expected) (TaskRegistryError.stale_version t.id expected c.version)) [
        | err e ↦ (err e, g)
        | ok _ ↦ elim (X.budget_text t.resource_budget) [
          | none ↦ (err TaskRegistryError.serde, g)
          | some b ↦ elim (X.json_text t.metadata) [
            | none ↦ (err TaskRegistryError.serde, g)
            | some m ↦
                let version = u32 (expected + 1) in
                (
                  ok (record t { updated_at = now; version = version }),
                  record g {
                    db =
                        T.update_where g.db (task_id_text X t.id) any_row
                          (update_columns X now version b m t);
                  },
                )
          ]
        ]
      ]

  -- Read the task, write columns that depend on it, publish.
  unfoldable pub rewrite_task :
      Registry X T P
      → Stamp X
      → X.Uuid
      → String
      → (TaskRecord X → TaskRecord X)
      → (TaskRecord X → Row → Row)
      → Outcome X T P (TaskRecord X)
  unfolding commit
  rewrite_task g st id event_type change columns = elim (fetch X T P g.db id) [
    | err e ↦ (err e, g)
    | ok t ↦
        commit X T P g (T.update_where g.db (task_id_text X id) any_row (columns t))
          (task_event X st event_type (change t) none) (change t)
  ]

  unfoldable pub request_cancellation :
      Registry X T P → Stamp X → X.Uuid → String → String → Outcome X T P (TaskRecord X)
  unfolding rewrite_task
  request_cancellation g st id reason source =
      rewrite_task g st id "task.cancel_requested" (cancelling X st.now reason source)
        (cancelling_columns X st.now reason source)

  unfoldable pub mark_started : Registry X T P → Stamp X → X.Uuid → Outcome X T P (TaskRecord X)
  unfolding rewrite_task
  mark_started g st id =
      rewrite_task g st id "task.started" (starting X st.now) (starting_columns X st.now)

  -- `mark_completed` releases the lock between its SELECT and `transition`: `between` is what other
  -- callers do to the registry meanwhile.
  unfoldable pub mark_completed :
      Registry X T P
      → (Registry X T P → Registry X T P)
      → Stamp X
      → X.Uuid
      → X.Uuid
      → Outcome X T P (TaskRecord X)
  mark_completed g between st fresh id = elim (fetch X T P g.db id) [
    | err e ↦ (err e, between g)
    | ok t ↦ transition X T P (between g) st fresh id t.version TaskStatus.complete
  ]

  unfoldable pub mark_failed :
      Registry X T P → Stamp X → X.Uuid → String → String → Outcome X T P (TaskRecord X)
  unfolding rewrite_task
  mark_failed g st id msg category =
      rewrite_task g st id "task.failed" (failing X st.now msg category)
        (failing_columns X st.now msg category)

  publish_each : (TaskRecord X → Stamp X) → List (TaskRecord X) → P.Bus → P.Bus
  publish_each stamp [] bus = bus
  publish_each stamp (t ∷ ts) bus =
      publish_each stamp ts (P.publish (task_event X (stamp t) "task.recovery_required" t none) bus)

  -- `stamp` gives the identifier and time of each task's event.
  unfoldable pub recover_interrupted_tasks :
      Registry X T P → (TaskRecord X → Stamp X) → Outcome X T P (List (TaskRecord X))
  unfolding publish_each
  recover_interrupted_tasks g stamp = elim (read_rows X (T.query_rows g.db interrupted_row)) [
    | err e ↦ (err e, g)
    | ok ts ↦ (ok ts, record g { bus = publish_each stamp ts g.bus })
  ]

  unfoldable pub delete : Registry X T P → X.Uuid → Outcome X T P Bool
  delete g id = (
    ok (is_some (T.select g.db (task_id_text X id))),
    record g { db = T.delete_row g.db (task_id_text X id) },
  )
