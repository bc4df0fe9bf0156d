-- ===== src/Examples/Lifecycles.antt =====
-- The theorems on the runtime's lifecycle at concrete components, which log their calls.
use tiny_mite.Core.Lifecycle.{LifecycleState, Component, shut_each, startup}
use tiny_mite.Core.Lifecycle.Order.{HandleCall}
use tiny_mite.Core.Lifecycle.Startup.{Starts, startup_rolls_back}
use tiny_mite.Domain.Errors.{ErrorCategory, RetryPolicy, DomainError, with_user_action}
use tiny_mite.Prelude.{◌≡◌, refl, String, none, ok, err, List, [], ◌∷◌, concat}

abbrev Log : Type 0
Log = List String

abbrev works : String → Component String String Log
works name = record {
  name = name;
  init = λ s. (ok tt, (s.0, name ∷ s.1));
  shutdown = λ w. concat "stop " name ∷ w;
}

abbrev broken : DomainError String String
broken = record {
  category = ErrorCategory.permanent;
  retry = RetryPolicy.non_retryable;
  correlation_id = none;
  message = "no model";
  user_action = none;
  source = none;
}

abbrev fails : Component String String Log
fails = record { name = "model"; init = λ s. (err broken, (s.0, "model" ∷ s.1)); shutdown = λ w. w }

abbrev before : List (Component String String Log)
before = works "db" ∷ works "bus" ∷ []

before-Starts :
    Starts String String Log before
      (LifecycleState.initializing, [])
      (LifecycleState.initializing, "bus" ∷ "db" ∷ [])
before-Starts = Starts.next refl (Starts.next refl Starts.none_left)

startup_rolls_back_example :
    startup String String Log
      (works "db" ∷ works "bus" ∷ fails ∷ works "api" ∷ [])
      (LifecycleState.created, [])
    ≡ (
      err (
          with_user_action broken (
            concat "Component '"
              (concat "model" "' failed to start. Check configuration and retry."))),
      (
        LifecycleState.initializing,
        shut_each String String Log (works "bus" ∷ works "db" ∷ []) ("model" ∷ "bus" ∷ "db" ∷ []),
      ),
    )
startup_rolls_back_example =
    startup_rolls_back String String Log before (works "api" ∷ []) fails []
      (LifecycleState.initializing, "bus" ∷ "db" ∷ []) broken LifecycleState.initializing
      ("model" ∷ "bus" ∷ "db" ∷ []) before-Starts refl

abbrev sequence : List HandleCall
sequence = HandleCall.initialize ∷ HandleCall.run ∷ HandleCall.shutdown ∷ HandleCall.ready ∷ []
