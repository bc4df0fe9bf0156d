-- ===== src/Scheduler/Registry/Row/Roundtrip.antt =====
-- A task that is written to a row is read back as it was.
use tiny_mite.Crates.{Crates}
use tiny_mite.Domain.Ids.{id_text, id_of_text-id_text}
use tiny_mite.Domain.Values.{TaskStatus, Priority, status_text, priority_text}
use tiny_mite.Scheduler.Registry.Task.{TaskRecord}
use tiny_mite.Scheduler.Registry.Row.{
  Row, status_of_text, priority_of_text, flag, parse_ts, task_to_row, optional_id, row_fields,
  row_to_task,
}
use tiny_mite.Prelude.{
  ◌≡◌, refl, ap, Bool, true, false, not, String, Option, some, none, ok, arith, ◌==◌, string_eq,
  Option-cases, inl, inr,
}
use mathlib.Core.Option

pub status_of_text-status_text : (s : TaskStatus) → status_of_text (status_text s) ≡ s
unfolding status_of_text status_text
status_of_text-status_text TaskStatus.new = refl
status_of_text-status_text _ = refl

pub priority_of_text-priority_text : (p : Priority) → priority_of_text (priority_text p) ≡ p
unfolding priority_of_text priority_text
priority_of_text-priority_text Priority.low = refl
priority_of_text-priority_text _ = refl

pub flag-eq-zero : (b : Bool) → not (flag b == 0) ≡ b
flag-eq-zero true = refl
flag-eq-zero false = refl

module _ (X : Crates) where
  pub parse_ts-time_text : (t : X.Time) → parse_ts X (X.time_text t) ≡ t
  unfolding parse_ts
  parse_ts-time_text t = rw (X.parse_time-time_text t)

  pub map-parse_ts : (t : Option X.Time) → Option.map (parse_ts X) (Option.map X.time_text t) ≡ t
  map-parse_ts none = refl
  map-parse_ts (some t) = ap some (parse_ts-time_text t)

  optional_id-id_text :
      (prefix : String) (u : Option X.Uuid)
      → optional_id X prefix (Option.map (id_text X prefix) u) ≡ u
  unfolding optional_id
  optional_id-id_text prefix none = refl
  optional_id-id_text prefix (some u) = id_of_text-id_text X prefix u

  -- Reading the row that a task was written to gives the task, in every column, if the JSON text that
  -- is stored for the metadata is one that the parser reads as that metadata.
  pub row_to_task-task_to_row :
      (t : TaskRecord X) (r : Row)
      → ((j : String) → X.json_text t.metadata ≡ some j → X.parse_json j ≡ some t.metadata)
      → task_to_row X t ≡ some r
      → row_to_task X r ≡ ok t
  unfolding task_to_row row_to_task row_fields
  row_to_task-task_to_row t r readable h = elim (Option-cases (X.budget_text t.resource_budget)) [
    | inl e ↦ ground arith
    | inr (b, e) ↦ elim (Option-cases (X.json_text t.metadata)) [
      | inl f ↦ ground arith
      | inr (m, f) ↦ ground (
        arith,
        X.parse_budget-budget_text t.resource_budget b e,
        readable m f,
        id_of_text-id_text X "task" t.id,
        id_of_text-id_text X "corr" t.correlation_id,
        optional_id-id_text "proj" t.project_id,
        optional_id-id_text "task" t.parent_id,
        status_of_text-status_text t.status,
        priority_of_text-priority_text t.priority,
        parse_ts-time_text t.created_at,
        parse_ts-time_text t.updated_at,
        map-parse_ts t.started_at,
        map-parse_ts t.completed_at,
        map-parse_ts t.cancelled_at,
        flag-eq-zero t.cancellation_requested,
        flag-eq-zero t.is_resumable,
      )
    ]
  ]
