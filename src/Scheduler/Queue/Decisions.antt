-- ===== src/Scheduler/Queue/Decisions.antt =====
-- What `evaluate` decides, and what it does to the resources.
use tiny_mite.Crates.{Crates}
use tiny_mite.Domain.Budget.{ResourceBudget, is_exhausted}
use tiny_mite.Domain.Values.{Priority, TaskStatus}
use tiny_mite.Domain.Values
use tiny_mite.Scheduler.Queue.{Scheduler, SchedulingDecision, deferral, probe, evaluate}
use tiny_mite.Scheduler.Resources.{
  Floats, memory_pressure_level, lacks_ram, reserve, drop_reservation, try_reserve,
}
use tiny_mite.Prelude.{ℕ, ◌+◌, ◌<◌, ◌≡◌, ◌≢◌, ◌↔◌, arith, false, none, u64}

module _ (X : Crates) (F : Floats) where
  -- What a task needs in order to be run.
  pub record MayRun (s : Scheduler X) (status : TaskStatus) (priority : Priority)
      (budget : ResourceBudget) (ram : ℕ) : Type 0 where
    pub open_task : Values.is_terminal status ≡ false
    pub up : s.shutdown ≡ false
    pub not_deferred : deferral X F (memory_pressure_level F s.resources) priority ≡ none
    pub has_budget : is_exhausted budget 0 0 0 0 0 ≡ false
    pub has_ram : lacks_ram F s.resources ram ≡ false
    pub has_permit : 0 < s.resources.permits

  -- A task is to run exactly if it is not terminal, the scheduler is up, memory pressure does not
  -- defer its priority, its budget is not empty, and the resources that it asks for can be reserved.
  pub evaluate-run_iff :
      (s : Scheduler X) (status : TaskStatus) (priority : Priority) (budget : ResourceBudget)
      (ram cpu : ℕ)
      → ((evaluate X F s status priority budget ram cpu).0 ≡ SchedulingDecision.run ram)
        ↔ MayRun s status priority budget ram
  unfolding evaluate probe try_reserve
  evaluate-run_iff s status priority budget ram cpu = (
    λ h. record {
      open_task = ground arith;
      up = ground arith;
      not_deferred = ground arith;
      has_budget = ground arith;
      has_ram = ground arith;
      has_permit = ground arith;
    },
    λ m. ground (arith, m.open_task, m.up, m.not_deferred, m.has_budget, m.has_ram, m.has_permit),
  )

  -- The probe is not free: each decision to run leaves the RAM and the cores that it asked for
  -- reserved, though no task holds them; every other decision leaves the resources as they were. The
  -- permits and the queue are the same after each.
  pub evaluate_keeps_ram :
      (s : Scheduler X) (status : TaskStatus) (priority : Priority) (budget : ResourceBudget)
      (ram cpu : ℕ)
      → let (d, s') = evaluate X F s status priority budget ram cpu in
        (s'.queue ≡ s.queue)
        × (s'.resources.permits ≡ s.resources.permits)
        × (d ≡ SchedulingDecision.run ram
            → (s'.resources.reserved_ram_bytes ≡ u64 (s.resources.reserved_ram_bytes + ram))
              × (s'.resources.reserved_cpu ≡ u64 (s.resources.reserved_cpu + cpu)))
        × (d ≢ SchedulingDecision.run ram → s' ≡ s)
  unfolding evaluate probe try_reserve reserve drop_reservation
  evaluate_keeps_ram s status priority budget ram cpu =
      (ground arith, ground arith, λ h. (ground arith, ground arith), λ h. ground arith)
