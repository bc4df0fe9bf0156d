-- ===== src/Core/Lifecycle/Order.antt =====
-- The order of the states.
use tiny_mite.Core.Lifecycle.{
  LifecycleState, same_state, compare_exchange, can_accept_work, stop, start_initializing,
  mark_ready, mark_running,
}
use tiny_mite.Prelude.{ℕ, ◌≤◌, ◌≡◌, arith, List, [], ◌∷◌}

-- How far the life of a runtime has come.
abbrev pub rank : LifecycleState → ℕ
rank LifecycleState.created = 0
rank LifecycleState.initializing = 1
rank LifecycleState.ready = 2
rank LifecycleState.running = 3
rank LifecycleState.stopping = 4
rank LifecycleState.stopped = 5

-- What holders of the handle may call.
pub data HandleCall : Type 0 where
  initialize ready run shutdown : HandleCall

module _ (Cid Source : Type 0) where
  apply : HandleCall → LifecycleState → LifecycleState
  apply HandleCall.initialize s = (start_initializing Cid Source s).1
  apply HandleCall.ready s = (mark_ready Cid Source s).1
  apply HandleCall.run s = (mark_running Cid Source s).1
  apply HandleCall.shutdown s = stop s

  pub calls : List HandleCall → LifecycleState → LifecycleState
  unfolding apply
  calls [] s = s
  calls (c ∷ cs) s = calls cs (apply c s)

  rank-apply : (c : HandleCall) (s : LifecycleState) → rank s ≤ rank (apply c s)
  unfolding apply start_initializing mark_ready mark_running stop compare_exchange same_state
      can_accept_work
  rank-apply HandleCall.initialize s = ground arith
  rank-apply HandleCall.ready s = ground arith
  rank-apply HandleCall.run s = ground arith
  rank-apply HandleCall.shutdown s = ground arith

  -- No sequence of calls on a handle, whoever makes them, takes the runtime back to an earlier
  -- state; in particular a stopped runtime stays stopped.
  pub rank-calls :
      (cs : List HandleCall) (s : LifecycleState)
      → (rank s ≤ rank (calls cs s))
        × (s ≡ LifecycleState.stopped → calls cs s ≡ LifecycleState.stopped)
  unfolding calls
  rank-calls cs s = (grows cs s, λ e. last _ (ground (arith, grows cs s)))
    where
      grows : (cs : List HandleCall) (s : LifecycleState) → rank s ≤ rank (calls cs s)
      grows [] s = omega arith
      grows (c ∷ cs) s = omega (arith, rank-apply c s, grows cs (apply c s))

      last : (s : LifecycleState) → 5 ≤ rank s → s ≡ LifecycleState.stopped
      last s h = ground arith
