-- ===== src/Core/Lifecycle.antt =====
-- crates/tiny-mite-core/src/lifecycle.rs: the states of a runtime, its handle, and the ordered
-- start-up and shutdown of its components.
pub mod Order
pub mod Startup
use tiny_mite.Domain.Errors.{ErrorCategory, DomainError, domain_error, with_user_action}
use tiny_mite.Prelude.{
  Bool, true, false, not, ◌&&◌, ◌||◌, String, Result, ok, err, List, [], ◌∷◌, ◌++◌, concat,
  if◌then◌else◌,
}

pub data LifecycleState : Type 0 where
  created initializing ready running stopping stopped : LifecycleState

-- `Debug` of a state.
unfoldable pub state_text : LifecycleState → String
state_text LifecycleState.created = "Created"
state_text LifecycleState.initializing = "Initializing"
state_text LifecycleState.ready = "Ready"
state_text LifecycleState.running = "Running"
state_text LifecycleState.stopping = "Stopping"
state_text LifecycleState.stopped = "Stopped"

unfoldable pub can_accept_work : LifecycleState → Bool
can_accept_work LifecycleState.ready = true
can_accept_work LifecycleState.running = true
can_accept_work _ = false

unfoldable pub is_shutting_down : LifecycleState → Bool
is_shutting_down LifecycleState.stopping = true
is_shutting_down LifecycleState.stopped = true
is_shutting_down _ = false

-- Equality of states, as their discriminants are compared.
unfoldable pub same_state : LifecycleState → LifecycleState → Bool
same_state LifecycleState.created LifecycleState.created = true
same_state LifecycleState.initializing LifecycleState.initializing = true
same_state LifecycleState.ready LifecycleState.ready = true
same_state LifecycleState.running LifecycleState.running = true
same_state LifecycleState.stopping LifecycleState.stopping = true
same_state LifecycleState.stopped LifecycleState.stopped = true
same_state _ _ = false

-- `AtomicState::compare_exchange`: the new state or the actual one, and the state after it.
unfoldable pub compare_exchange :
    LifecycleState
    → LifecycleState
    → LifecycleState
    → Result LifecycleState LifecycleState × LifecycleState
compare_exchange s expected next = if same_state s expected then (ok next, next) else (err s, s)

-- The handle's `shutdown`: through `stopping` to `stopped`.
unfoldable pub stop : LifecycleState → LifecycleState
stop s =
    if not (can_accept_work s) && not (same_state s LifecycleState.initializing)
    then s
    else LifecycleState.stopped

module _ (Cid Source : Type 0) where
  abbrev pub Failure : Type 0
  Failure = DomainError Cid Source

  refused : String → LifecycleState → Failure
  refused what actual =
      domain_error ErrorCategory.permanent
        (concat "Cannot " (concat what (concat " from state " (state_text actual))))

  report :
      String
      → Result LifecycleState LifecycleState × LifecycleState
      → Result Failure (Unit {0}) × LifecycleState
  unfolding refused
  report what (ok _, s) = (ok tt, s)
  report what (err actual, s) = (err (refused what actual), s)

  unfoldable pub start_initializing : LifecycleState → Result Failure (Unit {0}) × LifecycleState
  unfolding report
  start_initializing s =
      report "start initializing"
        (compare_exchange s LifecycleState.created LifecycleState.initializing)

  unfoldable pub mark_ready : LifecycleState → Result Failure (Unit {0}) × LifecycleState
  unfolding report
  mark_ready s =
      report "mark ready" (compare_exchange s LifecycleState.initializing LifecycleState.ready)

  -- `or_else` tries the second exchange on the state that the first has left.
  exchange_again :
      Result LifecycleState LifecycleState × LifecycleState
      → Result LifecycleState LifecycleState × LifecycleState
  exchange_again (ok n, s) = (ok n, s)
  exchange_again (err _, s) = compare_exchange s LifecycleState.initializing LifecycleState.running

  unfoldable pub mark_running : LifecycleState → Result Failure (Unit {0}) × LifecycleState
  unfolding report exchange_again
  mark_running s =
      report "mark running"
        (exchange_again (compare_exchange s LifecycleState.ready LifecycleState.running))

  -- A component: `init` sees the handle and the world, `shutdown` the world; the result of
  -- `shutdown` is ignored wherever it is called.
  module _ (World : Type 0) where
    pub record Component : Type 0 where
      pub name : String
      pub init : LifecycleState × World → Result Failure (Unit {0}) × (LifecycleState × World)
      pub shutdown : World → World

    -- The components of the list one after the other.
    unfoldable pub shut_each : List Component → World → World
    shut_each [] w = w
    shut_each (c ∷ cs) w = shut_each cs (c.shutdown w)

    -- The loop of `startup`; `done` are the initialized components, the latest first.
    unfoldable pub init_each :
        List Component
        → List Component
        → LifecycleState × World
        → Result Failure (Unit {0}) × (LifecycleState × World)
    init_each [] done s = (ok tt, s)
    init_each (c ∷ cs) done s =
        let (r, s') = c.init s in
        elim r [
          | ok _ ↦ init_each cs (c ∷ done) s'
          | err e ↦ (
            err (
                with_user_action e (
                  concat "Component '"
                    (concat c.name "' failed to start. Check configuration and retry."))),
            (s'.0, shut_each done s'.1),
          )
        ]

    -- The two last steps of `startup`.
    unfoldable pub enter_running :
        LifecycleState × World → Result Failure (Unit {0}) × (LifecycleState × World)
    enter_running (h, w) =
        let (r, h') = mark_ready h in
        elim r [
          | err e ↦ (err e, (h', w))
          | ok _ ↦ let (r', h'') = mark_running h' in (r', (h'', w))
        ]

    unfoldable pub startup :
        List Component
        → LifecycleState × World
        → Result Failure (Unit {0}) × (LifecycleState × World)
    startup cs (h, w) =
        let (r, h') = start_initializing h in
        elim r [
          | err e ↦ (err e, (h', w))
          | ok _ ↦
              let (q, s) = init_each cs [] (h', w) in
              elim q [ err e ↦ (err e, s) | ok _ ↦ enter_running s ]
        ]

    -- `Runtime::shutdown`.
    unfoldable pub shutdown_runtime :
        List Component → LifecycleState × World → LifecycleState × World
    shutdown_runtime cs (h, w) = (stop h, shut_each (reversed cs) w)
      where
        reversed : List Component → List Component
        reversed [] = []
        reversed (x ∷ xs) = reversed xs ++ x ∷ []
