-- ===== src/Examples/Queues.antt =====
-- The theorems on resources and on the scheduler's queue at concrete inputs.
use tiny_mite.Domain.Budget.{default_budget}
use tiny_mite.Domain.Values.{TaskStatus, Priority}
use tiny_mite.Examples.Crates.{texts}
use tiny_mite.Scheduler.Queue.{QueueEntry, Scheduler, SchedulingDecision, score, enqueue, evaluate}
use tiny_mite.Scheduler.Queue.Order.{IsRanked, scoring, enqueue_ranks}
use tiny_mite.Scheduler.Resources.{Floats, HardwareProfile, ResourceManager, new_manager}
use tiny_mite.Scheduler.Resources.Reservations.{Act, IsAccounted, run, run-new_manager}
use tiny_mite.Prelude.{
  refl, ℕ, ◌*◌, ◌/◌, ◌≤◌, ◌≡◌, false, ltb, none, ok, List, [], ◌∷◌, arith, length, ◌===◌, string_eq,
  if◌then◌else◌,
}

-- Exact shares in place of floating point.
share_le : (n : ℕ) → n * 6 / 10 ≤ n
share_le n = omega arith

abbrev exact : Floats
exact = record {
  sixty_percent = λ n. n * 6 / 10;
  sixty_percent-le = share_le;
  under_tenth = λ a b. ltb (a * 10) b;
  under_third = λ a b. ltb (a * 10) (b * 3);
}

abbrev machine : HardwareProfile
machine = record {
  logical_cpus = 4;
  physical_cpus = 2;
  total_ram_bytes = 2000;
  available_ram_bytes = 1000;
  gpu_present = false;
  gpu_memory_bytes = none;
  platform = "linux";
}

abbrev resources : ResourceManager
resources = record {
  profile = machine;
  reserved_ram_bytes = 100;
  reserved_cpu = 1;
  permits = 1;
  max_permits = 2;
}

abbrev acts : List (Act exact)
acts = Act.acquire 500 1 ∷ Act.acquire 200 1 ∷ Act.release ∷ []

run-new_manager_example : IsAccounted exact machine (run exact acts ([], new_manager machine))
run-new_manager_example = run-new_manager exact machine acts

-- An entry that has waited for 2000 seconds.
abbrev entry : Priority → QueueEntry texts
entry p = record {
  task_id = "7";
  priority = p;
  enqueued_at = "0";
  estimated_ram_bytes = 10;
  estimated_cpu = 1;
}

abbrev since : texts.Time → texts.Time → ℕ
since now t = if t === "0" then 2000 else 0

abbrev scheduler : Scheduler texts
scheduler = record {
  queue = entry Priority.low ∷ [];
  resources = resources;
  max_queue_size = 1000;
  shutdown = false;
}

-- A clock that moves by less than a second during the sort.
abbrev ticking : ℕ → ℕ → texts.Time × texts.Time
ticking j k = ("n", "n.1")

abbrev queued : Scheduler texts
queued = (enqueue texts since scheduler "n" ticking "8" Priority.critical 20 1).1

enqueue_ranks_example :
    ((enqueue texts since scheduler "n" ticking "8" Priority.critical 20 1).0 ≡ ok tt)
    × IsRanked texts since "n" queued.queue
    × ((k : ℕ)
        → scoring texts since "n" k queued.queue
          ≡ scoring texts since "n" k (
              entry Priority.low
              ∷ record {
                task_id = "8";
                priority = Priority.critical;
                enqueued_at = "n";
                estimated_ram_bytes = 20;
                estimated_cpu = 1;
              }
              ∷ []))
    × (length queued.queue ≡ 2)
unfolding score
enqueue_ranks_example =
    (enqueue_ranks texts since scheduler "n" "n" ticking "8" Priority.critical 20 1).1 (omega arith)
      (λ e m j k. (refl, refl))

abbrev evaluated : SchedulingDecision × Scheduler texts
evaluated = evaluate texts exact scheduler TaskStatus.new Priority.high default_budget 50 1
