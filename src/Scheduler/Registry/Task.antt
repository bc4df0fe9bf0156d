-- ===== src/Scheduler/Registry/Task.antt =====
-- crates/tiny-mite-scheduler/src/task_registry.rs: task records and errors.
use tiny_mite.Crates.{Crates}
use tiny_mite.Domain.Budget.{ResourceBudget}
use tiny_mite.Domain.Values.{Priority, TaskStatus}
use tiny_mite.Domain.Values
use tiny_mite.Prelude.{ℕ, Bool, true, false, ◌&&◌, String, Option, none, [], is_some}

pub record TaskRecord (X : Crates) : Type 0 where
  pub id : X.Uuid
  pub project_id : Option X.Uuid
  pub correlation_id : X.Uuid
  pub parent_id : Option X.Uuid
  pub status : TaskStatus
  pub priority : Priority
  pub created_at : X.Time
  pub updated_at : X.Time
  pub started_at : Option X.Time
  pub completed_at : Option X.Time
  pub attempt_count : ℕ
  pub max_attempts : ℕ
  pub resource_budget : ResourceBudget
  pub cancellation_requested : Bool
  pub cancellation_reason : Option String
  pub cancellation_source : Option String
  pub cancelled_at : Option X.Time
  pub error_message : Option String
  pub error_category : Option String
  pub retry_policy : Option String
  pub is_resumable : Bool
  pub version : ℕ
  pub metadata : X.Json

-- `database` stands for what `rusqlite` reports, `serde` for what `serde_json` reports.
pub data TaskRegistryError (X : Crates) : Type 0 where
  not_found already_exists : X.Uuid → TaskRegistryError X
  invalid_transition : (current requested : TaskStatus) → X.Uuid → TaskRegistryError X
  stale_version : X.Uuid → (expected actual : ℕ) → TaskRegistryError X
  database serde : TaskRegistryError X
  task_terminal : X.Uuid → TaskStatus → TaskRegistryError X

module _ (X : Crates) where
  -- `TaskRecord::new`, at the clock's time.
  unfoldable pub new_task :
      X.Time → X.Uuid → Option X.Uuid → X.Uuid → Priority → ResourceBudget → TaskRecord X
  new_task now id project_id correlation_id priority budget = record {
    id = id;
    project_id = project_id;
    correlation_id = correlation_id;
    parent_id = none;
    status = TaskStatus.new;
    priority = priority;
    created_at = now;
    updated_at = now;
    started_at = none;
    completed_at = none;
    attempt_count = 0;
    max_attempts = 3;
    resource_budget = budget;
    cancellation_requested = false;
    cancellation_reason = none;
    cancellation_source = none;
    cancelled_at = none;
    error_message = none;
    error_category = none;
    retry_policy = none;
    is_resumable = true;
    version = 0;
    metadata = X.json_object [];
  }

  unfoldable pub is_terminal : TaskRecord X → Bool
  is_terminal t = Values.is_terminal t.status

  unfoldable pub is_interrupted : TaskRecord X → Bool
  is_interrupted t = Values.is_active t.status && is_some t.started_at
