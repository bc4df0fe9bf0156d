-- ===== src/Examples/Events.antt =====
-- Two events with their rows, and databases and filters over them.
use tiny_mite.Domain.Values.{Priority, Subject, SecurityScope}
use tiny_mite.Events.Envelope.{EventEnvelope}
use tiny_mite.Events.Store.{QueryFilter, ReplayFilter, PruneFilter, EventRow}
use tiny_mite.Examples.Crates.{texts}
use tiny_mite.Examples.Databases.{StoreDb}
use tiny_mite.Prelude.{some, none, [], ◌∷◌}

abbrev pub started : EventEnvelope texts
started = record {
  id = "1";
  event_type = "task.started";
  version = 1;
  timestamp = "10";
  correlation_id = some "7";
  causation_id = none;
  source = "scheduler";
  priority = Priority.high;
  security = record { subject = Subject.agent "planner"; scope = SecurityScope.workspace };
  payload = "{}";
  payload_type = "TaskStarted";
}

abbrev pub ended : EventEnvelope texts
ended = record started { id = "2"; event_type = "task.ended"; timestamp = "100" }

abbrev pub started_row : EventRow
started_row = record {
  id = "evt_1";
  event_type = "task.started";
  version = 1;
  timestamp = "10";
  correlation_id = some "corr_7";
  causation_id = none;
  source = "scheduler";
  priority = "high";
  security_subject = "agent:planner";
  security_scope = "workspace";
  payload_json = "{}";
  payload_type = "TaskStarted";
}

abbrev pub ended_row : EventRow
ended_row = record started_row { id = "evt_2"; event_type = "task.ended"; timestamp = "100" }

abbrev pub empty_store : StoreDb
empty_store = record { events = []; checkpoints = []; before = none }

abbrev pub both_stored : StoreDb
both_stored = record empty_store { events = ("evt_1", started_row) ∷ ("evt_2", ended_row) ∷ [] }

abbrev pub in_transaction : StoreDb
in_transaction = record empty_store { before = some ([], []) }

abbrev pub task_query : QueryFilter texts
task_query = record {
  event_type = some "task.";
  correlation_id = some "7";
  causation_id = none;
  source = some "scheduler";
  from_timestamp = none;
  to_timestamp = some "10";
  limit = none;
  offset = none;
}

abbrev pub all_events : ReplayFilter texts
all_events = record {
  after_checkpoint = none;
  after_event_id = none;
  event_type = some "task.";
  from_timestamp = none;
  to_timestamp = none;
  limit = none;
}

abbrev pub old_tasks : PruneFilter texts
old_tasks = record { before_timestamp = "100"; event_type = some "task." }
