-- ===== src/Examples/Managers.antt =====
-- The theorems on the cancellation manager at concrete tasks and tokens.
use tiny_mite.Domain.Values.{TaskStatus}
use tiny_mite.Domain.Values
use tiny_mite.Examples.Crates.{texts, log_bus}
use tiny_mite.Examples.Tables.{row_table, token_map}
use tiny_mite.Examples.Tasks.{sample, stamp, stored_verifying, verifying_registry}
use tiny_mite.Scheduler.Cancellation.{TokenState, new_token}
use tiny_mite.Scheduler.Cancellation.Propagation.{IsSettled}
use tiny_mite.Scheduler.Manager.{Readings, System, get_token, cancel_task}
use tiny_mite.Scheduler.Manager.Outcomes.{
  requested, cancelled_task, cancel_task_completes, cancel_task_settles,
}
use tiny_mite.Scheduler.Registry.Operations.{Registry, fetch}
use tiny_mite.Examples.Tokens.{user, child_reads, family}
use tiny_mite.Prelude.{◌≡◌, refl, true, false, some, none, ok, [], ◌∷◌, lookup, nat_eq, string_eq}

abbrev readings : Readings texts
readings = record {
  request_stamp = stamp;
  transition_stamp = stamp;
  fresh = "f";
  token_time = "n";
  child_reads = child_reads;
  event_id = "e2";
  event_time = "n";
}

-- Task 7 has the token 0.
abbrev managing : Registry texts row_table log_bus → System texts row_table log_bus token_map
managing g = record {
  tokens = ("7", 0) ∷ [];
  store = family;
  next_token = 3;
  bus = [];
  registry = g;
}

-- Another caller replaces the token of task 7 by the token 1 while the request is recorded.
abbrev replacing :
    System texts row_table log_bus token_map → System texts row_table log_bus token_map
replacing s = record s { tokens = ("7", 1) ∷ []; store = family }

abbrev undisturbed :
    System texts row_table log_bus token_map → System texts row_table log_bus token_map
undisturbed s = s

verifying_is_active : Values.is_active TaskStatus.verifying ≡ true
unfolding Values.is_active
verifying_is_active = refl

complete_is_inactive : Values.is_active TaskStatus.complete ≡ false
unfolding Values.is_active
complete_is_inactive = refl

token_replaced :
    (s : System texts row_table log_bus token_map)
    → get_token texts row_table log_bus token_map (replacing s) "7" ≡ some 1
unfolding get_token lookup
token_replaced s = refl

abbrev replacement : TokenState texts
replacement = record (new_token texts) { parent = some 0; children = 2 ∷ [] }

replacement_found : lookup 1 family ≡ some replacement
unfolding lookup
replacement_found = refl

cancel_task_completes_example :
    ((cancel_task texts row_table log_bus token_map
        (managing verifying_registry)
        undisturbed
        readings
        "7"
        user
        "user").0
      ≡ ok (
          cancelled_task texts row_table log_bus token_map readings user "user"
            (sample TaskStatus.verifying 4)))
    × (fetch texts row_table log_bus
          (cancel_task texts row_table log_bus token_map
            (managing verifying_registry)
            undisturbed
            readings
            "7"
            user
            "user").1.registry.db
          "7"
        ≡ ok (
            cancelled_task texts row_table log_bus token_map readings user "user"
              (sample TaskStatus.verifying 4)))
    × (get_token texts row_table log_bus token_map
          (cancel_task texts row_table log_bus token_map
            (managing verifying_registry)
            undisturbed
            readings
            "7"
            user
            "user").1
          "7"
        ≡ none)
cancel_task_completes_example =
    cancel_task_completes texts row_table log_bus token_map (managing verifying_registry)
      undisturbed readings "7" user "user" (sample TaskStatus.verifying 4) stored_verifying
      verifying_is_active refl

cancel_task_settles_example :
    (state' : TokenState texts) × (lookup 1
        (cancel_task texts row_table log_bus token_map
          (managing verifying_registry)
          replacing
          readings
          "7"
          user
          "user").1.store
      ≡ some state')
    × IsSettled texts state'
cancel_task_settles_example =
    cancel_task_settles texts row_table log_bus token_map (managing verifying_registry) replacing
      readings "7" user "user" (sample TaskStatus.verifying 4) 1 replacement stored_verifying
      (token_replaced (
        requested texts row_table log_bus token_map (managing verifying_registry) readings "7" user
          "user"))
      replacement_found
