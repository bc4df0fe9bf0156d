-- ===== src/Scheduler/Queue.antt =====
-- crates/tiny-mite-scheduler/src/scheduler.rs: the queue of the scheduler and its decisions.
pub mod Steady
pub mod Order
pub mod Decisions
use tiny_mite.Crates.{Crates}
use tiny_mite.Domain.Budget.{ResourceBudget, is_exhausted}
use tiny_mite.Domain.Values.{Priority, TaskStatus}
use tiny_mite.Domain.Values
use tiny_mite.Scheduler.Resources.{
  Floats, ResourceManager, ResourceReservation, PressureLevel, ReserveError, drop_reservation,
  memory_pressure_level, try_reserve,
}
use tiny_mite.Prelude.{
  ℕ, suc, ◌+◌, ◌*◌, Bool, true, false, not, Option, some, none, Result, ok, err, List, [], ◌∷◌,
  ◌++◌, leb, length, retain, if◌then◌else◌,
}

-- The messages of a decision, by the branch that writes them.
pub data Reason : Type 0 where
  terminal : TaskStatus → Reason
  scheduler_down critical_pressure pressure budget_exhausted : Reason
  unavailable : ReserveError → Reason

pub data SchedulingDecision : Type 0 where
  run : (estimated_ram_bytes : ℕ) → SchedulingDecision
  wait : Reason → (queue_position : ℕ) → SchedulingDecision
  reject : Reason → SchedulingDecision

pub record QueueEntry (X : Crates) : Type 0 where
  pub task_id : X.Uuid
  pub priority : Priority
  pub enqueued_at : X.Time
  pub estimated_ram_bytes : ℕ
  pub estimated_cpu : ℕ

-- `max_queue_size` is 1000 in every scheduler.
pub record Scheduler (X : Crates) : Type 0 where
  pub queue : List (QueueEntry X)
  pub resources : ResourceManager
  pub max_queue_size : ℕ
  pub shutdown : Bool

unfoldable pub priority_bonus : Priority → ℕ
priority_bonus Priority.critical = 100000
priority_bonus Priority.high = 50000
priority_bonus Priority.normal = 10000
priority_bonus Priority.low = 1000

-- `queue_full` is the one message of `enqueue`.
pub data EnqueueError : Type 0 where
  queue_full : EnqueueError

-- `waited now t` is `now.signed_duration_since(t).num_seconds().max(0)` of `chrono`.
module _ (X : Crates) (waited : X.Time → X.Time → ℕ) where
  unfoldable pub score : X.Time → QueueEntry X → ℕ
  score now e = priority_bonus e.priority + waited now e.enqueued_at * 100

  -- `sort_by_key(|e| -e.score())`: a stable sort, the highest score first. The score of each of the
  -- two entries that are compared is taken at its own reading of the clock: `clock k` has those of the
  -- comparison numbered `k`.
  unfoldable pub place :
      (ℕ → X.Time × X.Time) → QueueEntry X → List (QueueEntry X) → List (QueueEntry X)
  place clock e [] = e ∷ []
  place clock e (x ∷ xs) =
      let rest = place (λ k. clock (suc k)) e xs in
      if leb (score (clock 0).0 x) (score (clock 0).1 e) then e ∷ x ∷ xs else x ∷ rest

  -- Each entry is placed among those behind it, with the comparisons `clock j`.
  unfoldable pub sort : (ℕ → ℕ → X.Time × X.Time) → List (QueueEntry X) → List (QueueEntry X)
  sort clock [] = []
  sort clock (e ∷ es) = place (clock 0) e (sort (λ j. clock (suc j)) es)

  unfoldable pub enqueue :
      Scheduler X
      → X.Time
      → (ℕ → ℕ → X.Time × X.Time)
      → X.Uuid
      → Priority
      → ℕ
      → ℕ
      → Result EnqueueError (Unit {0}) × Scheduler X
  enqueue s now clock id priority ram cpu =
      if leb s.max_queue_size (length s.queue) then (err EnqueueError.queue_full, s) else (
        ok tt,
        record s {
          queue = sort clock (
              s.queue
              ++ (record {
                task_id = id;
                priority = priority;
                enqueued_at = now;
                estimated_ram_bytes = ram;
                estimated_cpu = cpu;
              })
                ∷ []);
        },
      )

module _ (X : Crates) where
  unfoldable pub new_scheduler : ResourceManager → Scheduler X
  new_scheduler r = record { queue = []; resources = r; max_queue_size = 1000; shutdown = false }

  unfoldable pub dequeue : Scheduler X → Option (QueueEntry X) × Scheduler X
  dequeue s = elim s.queue [ [] ↦ (none, s) | e ∷ es ↦ (some e, record s { queue = es }) ]

  unfoldable pub remove_entry : Scheduler X → X.Uuid → Scheduler X
  remove_entry s id = record s { queue = retain (λ e. not (X.uuid_eq.beq e.task_id id)) s.queue }

  unfoldable pub shut_down : Scheduler X → Scheduler X
  shut_down s = record s { shutdown = true; queue = [] }

module _ (X : Crates) (F : Floats) where
  -- The `match` on pressure and priority: whether the task is deferred, and with what message.
  unfoldable pub deferral : PressureLevel → Priority → Option Reason
  deferral PressureLevel.critical Priority.low = some Reason.critical_pressure
  deferral PressureLevel.warning Priority.low = some Reason.pressure
  deferral _ _ = none

  -- The last step of `evaluate`: a reservation that is dropped at once.
  unfoldable pub probe : Scheduler X → ℕ → ℕ → SchedulingDecision × Scheduler X
  probe s ram cpu =
      let (r, m) = try_reserve F s.resources ram cpu in
      elim r [
        | ok v ↦ (SchedulingDecision.run ram, record s { resources = drop_reservation m v })
        | err e ↦ (
          SchedulingDecision.wait (Reason.unavailable e) (length s.queue),
          record s { resources = m },
        )
      ]

  unfoldable pub evaluate :
      Scheduler X
      → TaskStatus
      → Priority
      → ResourceBudget
      → ℕ
      → ℕ
      → SchedulingDecision × Scheduler X
  evaluate s status priority budget ram cpu =
      if Values.is_terminal status
      then (SchedulingDecision.reject (Reason.terminal status), s)
      else if s.shutdown
      then (SchedulingDecision.reject Reason.scheduler_down, s)
      else elim (deferral (memory_pressure_level F s.resources) priority) [
        | some m ↦ (SchedulingDecision.wait m (length s.queue), s)
        | none ↦
            if is_exhausted budget 0 0 0 0 0
            then (SchedulingDecision.reject Reason.budget_exhausted, s)
            else probe s ram cpu
      ]
