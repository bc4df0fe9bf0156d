-- ===== src/Examples/Tasks.antt =====
-- A task at a concrete status and version, its row, and registries that hold it.
use tiny_mite.Domain.Budget.{default_budget}
use tiny_mite.Domain.Ids.{id_text, id_of_text}
use tiny_mite.Domain.Values.{TaskStatus, Priority}
use tiny_mite.Domain.Values
use tiny_mite.Examples.Crates.{texts, log_bus}
use tiny_mite.Examples.Tables.{row_table}
use tiny_mite.Scheduler.Registry.Lifecycle.{is_valid_transition}
use tiny_mite.Scheduler.Registry.Operations.{Stamp, Registry, fetch, read_row, moved, transition}
use tiny_mite.Scheduler.Registry.Row.{
  Row, row_to_task, row_fields, status_of_text, priority_of_text, parse_ts,
}
use tiny_mite.Scheduler.Registry.Task.{TaskRecord}
use tiny_mite.Scheduler.Registry.Transitions.{transition_ok_iff}
use tiny_mite.Prelude.{ℕ, ◌≡◌, refl, true, false, String, some, none, ok, [], ◌∷◌, lookup}

-- A task at the given status and version, and its row.
abbrev pub sample : TaskStatus → ℕ → TaskRecord texts
sample status version = record {
  id = "7";
  project_id = none;
  correlation_id = "c";
  parent_id = none;
  status = status;
  priority = Priority.high;
  created_at = "a";
  updated_at = "b";
  started_at = some "b";
  completed_at = some "e";
  attempt_count = 1;
  max_attempts = 3;
  resource_budget = default_budget;
  cancellation_requested = false;
  cancellation_reason = none;
  cancellation_source = none;
  cancelled_at = none;
  error_message = none;
  error_category = none;
  retry_policy = none;
  is_resumable = true;
  version = version;
  metadata = "{}";
}

abbrev pub sample_row : String → ℕ → Row
sample_row status version = record {
  id = "task_7";
  project_id = none;
  correlation_id = "corr_c";
  parent_id = none;
  status = status;
  priority = "high";
  created_at = "a";
  updated_at = "b";
  started_at = some "b";
  completed_at = some "e";
  attempt_count = 1;
  max_attempts = 3;
  resource_budget_json = "default";
  cancellation_requested = 0;
  cancellation_reason = none;
  cancellation_source = none;
  cancelled_at = none;
  error_message = none;
  error_category = none;
  retry_policy = none;
  is_resumable = 1;
  version = version;
  metadata_json = "{}";
}

abbrev pub holding : String → ℕ → Registry texts row_table log_bus
holding status version = record { db = ("task_7", sample_row status version) ∷ []; bus = [] }

abbrev pub stamp : Stamp texts
stamp = record { now = "n"; event_id = "e1"; event_time = "n" }

pub row_verifying :
    row_to_task texts (sample_row "VERIFYING" 4) ≡ ok (sample TaskStatus.verifying 4)
unfolding row_to_task row_fields status_of_text priority_of_text id_of_text parse_ts
row_verifying = refl

pub row_complete : row_to_task texts (sample_row "COMPLETE" 4) ≡ ok (sample TaskStatus.complete 4)
unfolding row_to_task row_fields status_of_text priority_of_text id_of_text parse_ts
row_complete = refl

pub stored_verifying :
    fetch texts row_table log_bus (holding "VERIFYING" 4).db "7"
    ≡ ok (sample TaskStatus.verifying 4)
unfolding fetch read_row id_text lookup
stored_verifying = rw row_verifying refl

pub stored_complete :
    fetch texts row_table log_bus (holding "COMPLETE" 4).db "7" ≡ ok (sample TaskStatus.complete 4)
unfolding fetch read_row id_text lookup
stored_complete = rw row_complete refl

-- The task after its transition from VERIFYING to REPAIRING.
abbrev pub repaired : TaskRecord texts
repaired = record (sample TaskStatus.repairing 5) { updated_at = "n" }

abbrev pub verifying_registry : Registry texts row_table log_bus
verifying_registry = holding "VERIFYING" 4

abbrev pub complete_registry : Registry texts row_table log_bus
complete_registry = holding "COMPLETE" 4

pub repairs :
    (transition texts row_table log_bus verifying_registry stamp "f" "7" 4 TaskStatus.repairing).0
    ≡ ok repaired
unfolding moved Values.is_terminal is_valid_transition
repairs =
    (transition_ok_iff texts row_table log_bus verifying_registry stamp "f" "7" 4
        TaskStatus.repairing repaired).1
      (
        sample TaskStatus.verifying 4,
        record { stored = stored_verifying; current = refl; open_task = refl; valid = refl },
        refl,
      )
