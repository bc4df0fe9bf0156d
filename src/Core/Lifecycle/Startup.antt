-- ===== src/Core/Lifecycle/Startup.antt =====
-- What a start-up leaves: all components running, or those that were started shut down again.
use tiny_mite.Core.Lifecycle.{
  LifecycleState, Failure, Component, start_initializing, mark_ready, mark_running,
  compare_exchange, same_state, shut_each, init_each, enter_running, startup,
}
use tiny_mite.Domain.Errors.{with_user_action}
use mathlib.Core.List.{append-nil}
use tiny_mite.Prelude.{◌≡◌, refl, arith, ok, err, List, [], ◌∷◌, ◌++◌, concat}

module _ (Cid Source World : Type 0) where
  -- The components all start, one after the other, and take the one state to the other.
  pub data Starts
      : List (Component Cid Source World)
        → LifecycleState × World
        → LifecycleState × World
        → Type 0 where
    none_left : {s : LifecycleState × World} → Starts [] s s
    next :
        {c : Component Cid Source World} {cs : List (Component Cid Source World)}
        {s s' s'' : LifecycleState × World}
        → c.init s ≡ (ok tt, s')
        → Starts cs s' s''
        → Starts (c ∷ cs) s s''

  -- The components of the first list in reverse, then those of the second.
  abbrev pub onto :
      List (Component Cid Source World)
      → List (Component Cid Source World)
      → List (Component Cid Source World)
  onto [] ds = ds
  onto (c ∷ cs) ds = onto cs (c ∷ ds)

  init_each-Starts :
      (cs rest done : List (Component Cid Source World)) (s s' : LifecycleState × World)
      → Starts cs s s'
      → init_each Cid Source World (cs ++ rest) done s
        ≡ init_each Cid Source World rest (onto cs done) s'
  unfolding init_each
  init_each-Starts [] rest done s s' none_left = refl
  init_each-Starts (c ∷ cs) rest done s s'' (next {s' = s'} e m) =
      ground (arith, init_each-Starts cs rest (c ∷ done) s' s'' m)

  init_each_fails :
      (c : Component Cid Source World) (post done : List (Component Cid Source World))
      (s : LifecycleState × World) (e : Failure Cid Source) (h : LifecycleState) (w' : World)
      → c.init s ≡ (err e, (h, w'))
      → init_each Cid Source World (c ∷ post) done s ≡ (
        err (
            with_user_action e (
              concat "Component '"
                (concat c.name "' failed to start. Check configuration and retry."))),
        (h, shut_each Cid Source World done w'),
      )
  unfolding init_each
  init_each_fails c post done s e h w' f = ground arith

  -- On a new runtime, if the components before one start and it fails, the runtime reports its error with the advice to
  -- check its configuration, the components before it are shut down in reverse order, and those
  -- after it are never touched. The handle stays as the failed component left it.
  pub startup_rolls_back :
      (pre post : List (Component Cid Source World)) (c : Component Cid Source World) (w : World)
      (s : LifecycleState × World) (e : Failure Cid Source) (h : LifecycleState) (w' : World)
      → Starts pre (LifecycleState.initializing, w) s
      → c.init s ≡ (err e, (h, w'))
      → startup Cid Source World (pre ++ c ∷ post) (LifecycleState.created, w) ≡ (
        err (
            with_user_action e (
              concat "Component '"
                (concat c.name "' failed to start. Check configuration and retry."))),
        (h, shut_each Cid Source World (onto pre []) w'),
      )
  unfolding startup start_initializing compare_exchange same_state
  startup_rolls_back pre post c w s e h w' m f = ground (
    arith,
    init_each-Starts pre (c ∷ post) [] (LifecycleState.initializing, w) s m,
    init_each_fails c post (onto pre []) s e h w' f,
  )

  -- On a new runtime, if every component starts and leaves the handle as it found it, the runtime is running.
  pub startup_runs :
      (cs : List (Component Cid Source World)) (w w' : World)
      → Starts cs (LifecycleState.initializing, w) (LifecycleState.initializing, w')
      → startup Cid Source World cs (LifecycleState.created, w)
        ≡ (ok tt, (LifecycleState.running, w'))
  unfolding startup start_initializing compare_exchange same_state init_each enter_running
      mark_ready mark_running
  startup_runs cs w w' m = ground (
    arith,
    append-nil cs,
    init_each-Starts cs [] [] (LifecycleState.initializing, w) (LifecycleState.initializing, w') m,
  )
