-- ===== src/Examples/Registry.antt =====
-- The theorems on the task registry at concrete tasks.
use tiny_mite.Domain.Ids.{id_text}
use tiny_mite.Domain.Values.{TaskStatus}
use tiny_mite.Domain.Values
use tiny_mite.Examples.Crates.{texts, log_bus}
use tiny_mite.Examples.Tables.{row_table}
use tiny_mite.Examples.Tasks.{
  sample, sample_row, stamp, stored_verifying, stored_complete, repaired, repairs,
  verifying_registry, complete_registry,
}
use tiny_mite.Scheduler.Registry.Consistency.{transition_persists}
use tiny_mite.Scheduler.Registry.Lifecycle.{Step}
use tiny_mite.Scheduler.Registry.Marks.{cancelling, request_cancellation, starting, mark_started}
use tiny_mite.Scheduler.Registry.Operations.{Registry, fetch, moved, transition}
use tiny_mite.Scheduler.Registry.Races.{Request, run, one_writer_wins, terminal_absorbs}
use tiny_mite.Scheduler.Registry.Row.{row_to_task, task_to_row}
use tiny_mite.Scheduler.Registry.Row.Roundtrip.{row_to_task-task_to_row}
use tiny_mite.Scheduler.Registry.Task.{TaskRecord, TaskRegistryError}
use tiny_mite.Scheduler.Registry.Transitions.{MayMove, transition_ok_iff, transition_follows_Step}
use tiny_mite.Scheduler.Registry.Writes.{marks_persist}
use tiny_mite.Prelude.{
  ◌≡◌, ◌≢◌, ◌↔◌, refl, true, some, none, ok, err, List, [], ◌∷◌, u32, arith, lookup, ◌+◌, string_eq,
}

abbrev requests : List (Request texts row_table log_bus)
requests =
    record { stamp = stamp; fresh = "f"; id = "7"; expected = 4; next = TaskStatus.executing }
    ∷ record { stamp = stamp; fresh = "f"; id = "8"; expected = 0; next = TaskStatus.new }
    ∷ []

complete_is_terminal : Values.is_terminal TaskStatus.complete ≡ true
unfolding Values.is_terminal
complete_is_terminal = refl

terminal_absorbs_example :
    fetch texts row_table log_bus (run texts row_table log_bus complete_registry requests).db "7"
    ≡ ok (sample TaskStatus.complete 4)
terminal_absorbs_example =
    terminal_absorbs texts row_table log_bus complete_registry requests "7"
      (sample TaskStatus.complete 4) stored_complete complete_is_terminal

abbrev after_repair : Registry texts row_table log_bus
after_repair =
    (transition texts row_table log_bus verifying_registry stamp "f" "7" 4 TaskStatus.repairing).1

one_writer_wins_example :
    transition texts row_table log_bus after_repair stamp "f" "7" 4 TaskStatus.reflecting
    ≡ (err (TaskRegistryError.stale_version "7" 4 5), after_repair)
one_writer_wins_example =
    one_writer_wins texts row_table log_bus verifying_registry stamp stamp "f" "f" "7" 4
      TaskStatus.repairing TaskStatus.reflecting repaired (omega arith) repairs

transition_ok_iff_example :
    ((transition texts row_table log_bus verifying_registry stamp "f" "7" 4 TaskStatus.repairing).0
      ≡ ok repaired)
    ↔ ((t : TaskRecord texts) × MayMove texts row_table log_bus verifying_registry.db "7" 4
          TaskStatus.repairing t
        × (repaired ≡ moved texts "n" TaskStatus.repairing t))
transition_ok_iff_example =
    transition_ok_iff texts row_table log_bus verifying_registry stamp "f" "7" 4
      TaskStatus.repairing repaired

transition_follows_Step_example :
    (t : TaskRecord texts) × (fetch texts row_table log_bus verifying_registry.db "7" ≡ ok t)
    × Step t.status TaskStatus.repairing
    × (TaskStatus.repairing ≡ TaskStatus.repairing)
    × (5 ≡ u32 (t.version + 1))
    × (t.status ≢ TaskStatus.blocked)
transition_follows_Step_example =
    transition_follows_Step texts row_table log_bus verifying_registry stamp "f" "7" 4
      TaskStatus.repairing repaired repairs

transition_persists_example : fetch texts row_table log_bus after_repair.db "7" ≡ ok repaired
transition_persists_example =
    transition_persists texts row_table log_bus verifying_registry stamp "f" "7" 4
      TaskStatus.repairing repaired repairs

serialized : task_to_row texts (sample TaskStatus.verifying 4) ≡ some (sample_row "VERIFYING" 4)
unfolding task_to_row id_text Values.status_text Values.priority_text
serialized = refl

roundtrip_example :
    row_to_task texts (sample_row "VERIFYING" 4) ≡ ok (sample TaskStatus.verifying 4)
roundtrip_example =
    row_to_task-task_to_row texts (sample TaskStatus.verifying 4) (sample_row "VERIFYING" 4)
      (λ j h. ground arith) serialized

abbrev empty_registry : Registry texts row_table log_bus
empty_registry = record { db = []; bus = [] }

no_row : row_table.select empty_registry.db (id_text texts "task" "7") ≡ none
unfolding lookup
no_row = refl

abbrev asked : TaskRecord texts
asked = cancelling texts "n" "stop" "user" (sample TaskStatus.verifying 4)

marks_persist_example :
    ((request_cancellation texts row_table log_bus verifying_registry stamp "7" "stop" "user").0
      ≡ ok asked)
    × (fetch texts row_table log_bus
          (request_cancellation texts row_table log_bus verifying_registry stamp "7" "stop"
            "user").1.db
          "7"
        ≡ ok asked)
    × ((mark_started texts row_table log_bus verifying_registry stamp "7").0
        ≡ ok (starting texts "n" (sample TaskStatus.verifying 4)))
    × (fetch texts row_table log_bus
          (mark_started texts row_table log_bus verifying_registry stamp "7").1.db
          "7"
        ≡ ok (starting texts "n" (sample TaskStatus.verifying 4)))
marks_persist_example =
    marks_persist texts row_table log_bus verifying_registry stamp "7" "stop" "user"
      (sample TaskStatus.verifying 4) stored_verifying

abbrev interfere : Registry texts row_table log_bus → Registry texts row_table log_bus
interfere g = after_repair
