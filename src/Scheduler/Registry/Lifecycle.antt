-- ===== src/Scheduler/Registry/Lifecycle.antt =====
-- crates/tiny-mite-scheduler/src/task_registry.rs: which transitions between statuses are valid.
use tiny_mite.Crates.{Crates}
use tiny_mite.Domain.Values.{TaskStatus, is_active, is_terminal}
use tiny_mite.Scheduler.Registry.Task.{TaskRegistryError}
use tiny_mite.Prelude.{
  ◌≡◌, refl, ◌≢◌, ◌↔◌, ◌⊎◌, inl, inr, Bool, true, false, arith, Result, ok, err, if◌then◌else◌,
}

-- The rows of the `match` before the guarded ones, then the guarded ones in their order: no pair of
-- statuses is named by both.
unfoldable pub is_valid_transition : TaskStatus → TaskStatus → Bool
is_valid_transition TaskStatus.new TaskStatus.classifying = true
is_valid_transition TaskStatus.new TaskStatus.executing = true
is_valid_transition TaskStatus.classifying TaskStatus.planning = true
is_valid_transition TaskStatus.classifying TaskStatus.executing = true
is_valid_transition TaskStatus.planning TaskStatus.context_preparing = true
is_valid_transition TaskStatus.planning TaskStatus.executing = true
is_valid_transition TaskStatus.context_preparing TaskStatus.executing = true
is_valid_transition TaskStatus.executing TaskStatus.verifying = true
is_valid_transition TaskStatus.verifying TaskStatus.reflecting = true
is_valid_transition TaskStatus.verifying TaskStatus.repairing = true
is_valid_transition TaskStatus.reflecting TaskStatus.memory_update = true
is_valid_transition TaskStatus.memory_update TaskStatus.complete = true
is_valid_transition TaskStatus.repairing TaskStatus.verifying = true
is_valid_transition TaskStatus.blocked TaskStatus.executing = true
is_valid_transition TaskStatus.new TaskStatus.new = false
is_valid_transition s TaskStatus.cancelled = is_active s
is_valid_transition s TaskStatus.complete = is_active s
is_valid_transition s TaskStatus.blocked = is_active s
is_valid_transition s TaskStatus.new = is_active s
is_valid_transition _ _ = false

-- `validate_transition`; the identifier in its error is a fresh placeholder.
unfoldable pub validate_transition :
    (X : Crates) → X.Uuid → TaskStatus → TaskStatus → Result (TaskRegistryError X) (Unit {0})
validate_transition X fresh current next =
    if is_valid_transition current next
    then ok tt
    else err (TaskRegistryError.invalid_transition current next fresh)

-- The life of a task as its documentation draws it: forward progress, the repair loop, shortcuts
-- to execution, and from every active status to the three ends or back to `new`.
pub data Step : TaskStatus → TaskStatus → Type 0 where
  classify : Step TaskStatus.new TaskStatus.classifying
  plan : Step TaskStatus.classifying TaskStatus.planning
  prepare : Step TaskStatus.planning TaskStatus.context_preparing
  execute :
      {s : TaskStatus}
      → (s ≡ TaskStatus.new)
        ⊎ (s ≡ TaskStatus.classifying)
        ⊎ (s ≡ TaskStatus.planning)
        ⊎ (s ≡ TaskStatus.context_preparing)
      → Step s TaskStatus.executing
  verify :
      {s : TaskStatus}
      → (s ≡ TaskStatus.executing) ⊎ (s ≡ TaskStatus.repairing)
      → Step s TaskStatus.verifying
  reflect : Step TaskStatus.verifying TaskStatus.reflecting
  repair : Step TaskStatus.verifying TaskStatus.repairing
  remember : Step TaskStatus.reflecting TaskStatus.memory_update
  finish : {s e : TaskStatus} → is_active s ≡ true → is_terminal e ≡ true → Step s e
  reset : {s : TaskStatus} → is_active s ≡ true → s ≢ TaskStatus.new → Step s TaskStatus.new

Step-valid : {s e : TaskStatus} → Step s e → is_valid_transition s e ≡ true
unfolding is_terminal is_valid_transition is_active
Step-valid classify = refl
Step-valid plan = refl
Step-valid prepare = refl
Step-valid (execute h) = ground arith
Step-valid (verify h) = ground arith
Step-valid reflect = refl
Step-valid repair = refl
Step-valid remember = refl
Step-valid (finish a t) = ground arith
Step-valid (reset a n) = ground arith

ruleset steps = (classify, plan, prepare, execute, verify, reflect, repair, remember, finish, reset)

valid-Step :
    (s e : TaskStatus)
    → is_valid_transition s e ≡ true
    → Step s e ⊎ ((s ≡ TaskStatus.blocked) × (e ≡ TaskStatus.executing))
unfolding is_terminal is_valid_transition is_active
valid-Step TaskStatus.new e h = grind (arith, steps)
valid-Step _ e h = grind (arith, steps)

-- `validate_transition` accepts exactly the documented steps, and unblocking.
pub is_valid_transition_iff :
    (s e : TaskStatus)
    → (is_valid_transition s e ≡ true)
      ↔ (Step s e ⊎ ((s ≡ TaskStatus.blocked) × (e ≡ TaskStatus.executing)))
is_valid_transition_iff s e = (valid-Step s e, accepted s e)
  where
    accepted :
        (s e : TaskStatus)
        → Step s e ⊎ ((s ≡ TaskStatus.blocked) × (e ≡ TaskStatus.executing))
        → is_valid_transition s e ≡ true
    accepted s e (inl st) = Step-valid st
    accepted s e (inr (b, x)) = unfold is_valid_transition in ground arith

-- The statuses that a new task can come to by transitions that the registry accepts.
pub data Reachable : TaskStatus → Type 0 where
  start : Reachable TaskStatus.new
  step :
      {s e : TaskStatus}
      → Reachable s
      → is_terminal s ≡ false
      → is_valid_transition s e ≡ true
      → Reachable e

to_verifying : Reachable TaskStatus.verifying
unfolding is_valid_transition is_terminal
to_verifying = step {s = TaskStatus.executing} (step {s = TaskStatus.new} start refl refl) refl refl

-- A new task can come to every status by transitions that the registry accepts.
pub reach : (s : TaskStatus) → Reachable s
unfolding is_valid_transition is_terminal is_active
reach TaskStatus.new = start
reach TaskStatus.planning =
    step {s = TaskStatus.classifying} (step {s = TaskStatus.new} start refl refl) refl refl
reach TaskStatus.context_preparing =
    step {s = TaskStatus.planning}
      (step {s = TaskStatus.classifying} (step {s = TaskStatus.new} start refl refl) refl refl) refl
      refl
reach TaskStatus.verifying = to_verifying
reach TaskStatus.reflecting = step {s = TaskStatus.verifying} to_verifying refl refl
reach TaskStatus.memory_update =
    step {s = TaskStatus.reflecting} (step {s = TaskStatus.verifying} to_verifying refl refl) refl
      refl
reach TaskStatus.repairing = step {s = TaskStatus.verifying} to_verifying refl refl
reach _ = step {s = TaskStatus.new} start refl refl
