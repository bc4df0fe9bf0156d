-- ===== src/Scheduler/Registry/Row.antt =====
-- crates/tiny-mite-scheduler/src/task_registry.rs: the rows of the table `tasks`, and how a task is
-- written to one and read from one.
pub mod Roundtrip
use tiny_mite.Crates.{Crates}
use tiny_mite.Domain.Budget.{default_budget}
use tiny_mite.Domain.Ids.{id_text, id_of_text}
use tiny_mite.Domain.Values.{TaskStatus, Priority, status_text, priority_text}
use tiny_mite.Scheduler.Registry.Task.{TaskRecord, TaskRegistryError}
use tiny_mite.Prelude.{
  ℕ, Bool, true, false, not, String, Option, some, none, Result, ok, err, ◌>>=◌, ok_or, ◌===◌, ◌==◌,
  string_eq, if◌then◌else◌, unwrap_or,
}
use mathlib.Core.Option

-- The columns, with SQL's TEXT as texts, INTEGER as numbers and NULL as `none`.
pub record Row : Type 0 where
  pub id : String
  pub project_id : Option String
  pub correlation_id : String
  pub parent_id : Option String
  pub status : String
  pub priority : String
  pub created_at : String
  pub updated_at : String
  pub started_at : Option String
  pub completed_at : Option String
  pub attempt_count : ℕ
  pub max_attempts : ℕ
  pub resource_budget_json : String
  pub cancellation_requested : ℕ
  pub cancellation_reason : Option String
  pub cancellation_source : Option String
  pub cancelled_at : Option String
  pub error_message : Option String
  pub error_category : Option String
  pub retry_policy : Option String
  pub is_resumable : ℕ
  pub version : ℕ
  pub metadata_json : String

unfoldable pub status_of_text : String → TaskStatus
status_of_text s =
    if s === "NEW"
    then TaskStatus.new
    else if s === "CLASSIFYING"
    then TaskStatus.classifying
    else if s === "PLANNING"
    then TaskStatus.planning
    else if s === "CONTEXT_PREPARING"
    then TaskStatus.context_preparing
    else if s === "EXECUTING"
    then TaskStatus.executing
    else if s === "VERIFYING"
    then TaskStatus.verifying
    else if s === "REFLECTING"
    then TaskStatus.reflecting
    else if s === "MEMORY_UPDATE"
    then TaskStatus.memory_update
    else if s === "REPAIRING"
    then TaskStatus.repairing
    else if s === "COMPLETE"
    then TaskStatus.complete
    else if s === "CANCELLED"
    then TaskStatus.cancelled
    else if s === "BLOCKED"
    then TaskStatus.blocked
    else TaskStatus.new

unfoldable pub priority_of_text : String → Priority
priority_of_text s =
    if s === "low"
    then Priority.low
    else if s === "high"
    then Priority.high
    else if s === "critical"
    then Priority.critical
    else Priority.normal

-- `b as i32`.
abbrev pub flag : Bool → ℕ
flag true = 1
flag false = 0

module _ (X : Crates) where
  abbrev pub task_id_text : X.Uuid → String
  task_id_text = id_text X "task"

  abbrev pub correlation_text : X.Uuid → String
  correlation_text = id_text X "corr"

  abbrev pub project_text : X.Uuid → String
  project_text = id_text X "proj"

  -- The closure `parse_ts`.
  unfoldable pub parse_ts : String → X.Time
  parse_ts s = unwrap_or (X.parse_time s) X.epoch

  -- The parameters of the INSERT statement in `create`; `none` if serialization fails.
  unfoldable pub task_to_row : TaskRecord X → Option Row
  task_to_row t = elim (X.budget_text t.resource_budget) [
    | none ↦ none
    | some budget_json ↦ elim (X.json_text t.metadata) [
      | none ↦ none
      | some metadata_json ↦ some (record {
        id = task_id_text t.id;
        project_id = Option.map project_text t.project_id;
        correlation_id = correlation_text t.correlation_id;
        parent_id = Option.map task_id_text t.parent_id;
        status = status_text t.status;
        priority = priority_text t.priority;
        created_at = X.time_text t.created_at;
        updated_at = X.time_text t.updated_at;
        started_at = Option.map X.time_text t.started_at;
        completed_at = Option.map X.time_text t.completed_at;
        attempt_count = t.attempt_count;
        max_attempts = t.max_attempts;
        resource_budget_json = budget_json;
        cancellation_requested = flag t.cancellation_requested;
        cancellation_reason = t.cancellation_reason;
        cancellation_source = t.cancellation_source;
        cancelled_at = Option.map X.time_text t.cancelled_at;
        error_message = t.error_message;
        error_category = t.error_category;
        retry_policy = t.retry_policy;
        is_resumable = flag t.is_resumable;
        version = t.version;
        metadata_json = metadata_json;
      })
    ]
  ]

  -- `and_then(|s| Id::try_from(s).ok())`.
  optional_id : String → Option String → Option X.Uuid
  optional_id prefix none = none
  optional_id prefix (some s) = id_of_text X prefix s

  -- The task of a row whose two required identifiers have been read.
  unfoldable pub row_fields : Row → X.Uuid → X.Uuid → TaskRecord X
  unfolding optional_id
  row_fields r id correlation_id = record {
    id = id;
    project_id = optional_id "proj" r.project_id;
    correlation_id = correlation_id;
    parent_id = optional_id "task" r.parent_id;
    status = status_of_text r.status;
    priority = priority_of_text r.priority;
    created_at = parse_ts r.created_at;
    updated_at = parse_ts r.updated_at;
    started_at = Option.map parse_ts r.started_at;
    completed_at = Option.map parse_ts r.completed_at;
    attempt_count = r.attempt_count;
    max_attempts = r.max_attempts;
    resource_budget = unwrap_or (X.parse_budget r.resource_budget_json) default_budget;
    cancellation_requested = not (r.cancellation_requested == 0);
    cancellation_reason = r.cancellation_reason;
    cancellation_source = r.cancellation_source;
    cancelled_at = Option.map parse_ts r.cancelled_at;
    error_message = r.error_message;
    error_category = r.error_category;
    retry_policy = r.retry_policy;
    is_resumable = not (r.is_resumable == 0);
    version = r.version;
    metadata = unwrap_or (X.parse_json r.metadata_json) X.json_null;
  }

  -- `row_to_task`; the identifiers that do not parse are `rusqlite` errors.
  unfoldable pub row_to_task : Row → Result (TaskRegistryError X) (TaskRecord X)
  row_to_task r = do
    id ← ok_or (id_of_text X "task" r.id) TaskRegistryError.database
    correlation_id ← ok_or (id_of_text X "corr" r.correlation_id) TaskRegistryError.database
    ok (row_fields r id correlation_id)
