-- ===== src/Scheduler/Registry/Recovery.antt =====
-- Crash recovery: the SQL condition for interrupted tasks against `is_interrupted`.

use tiny_mite.Crates.{Crates}
use tiny_mite.Domain.Values.{TaskStatus, status_text}
use tiny_mite.Domain.Values
use tiny_mite.Scheduler.Registry.Consistency.{row_to_task_inv}
use tiny_mite.Scheduler.Registry.Marks.{interrupted_row}
use tiny_mite.Scheduler.Registry.Row.{Row, row_to_task, row_fields, status_of_text}
use tiny_mite.Scheduler.Registry.Task.{TaskRecord, is_interrupted}
use tiny_mite.Prelude.{
  ◌≡◌, inl, inr, ◌||◌, not, String, ok, arith, ◌===◌, string_eq, eq_iff, Bool-cases,
}

-- The SQL condition on the status column is activity of the status that is read from it, whatever
-- text stands there.
active_of_text :
    (s : String)
    → not (s === "COMPLETE" || s === "CANCELLED" || s === "BLOCKED")
      ≡ Values.is_active (status_of_text s)
unfolding status_of_text Values.is_active
active_of_text s = elim (Bool-cases (s === "COMPLETE")) [
  | inl e ↦ rw ((eq_iff s "COMPLETE").0 e)
  | inr n ↦ elim (Bool-cases (s === "CANCELLED")) [
    | inl e ↦ rw ((eq_iff s "CANCELLED").0 e)
    | inr n' ↦ elim (Bool-cases (s === "BLOCKED")) [
      | inl e ↦ rw ((eq_iff s "BLOCKED").0 e)
      | inr n'' ↦ ground arith
    ]
  ]
]

module _ (X : Crates) where
  -- A row that can be read meets the condition of the recovery query exactly if the task read from
  -- it was interrupted: it has started, and its status is active.
  pub interrupted_row-row_to_task :
      (r : Row) (t : TaskRecord X) → row_to_task X r ≡ ok t → interrupted_row r ≡ is_interrupted X t
  unfolding row_fields interrupted_row is_interrupted
  interrupted_row-row_to_task r t h =
      let (id, cid, e, f, d) = row_to_task_inv X r t h in ground (arith, active_of_text r.status)
