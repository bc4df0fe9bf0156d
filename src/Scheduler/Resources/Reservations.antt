-- ===== src/Scheduler/Resources/Reservations.antt =====
-- Sequences of reservations and releases: permits, and the RAM that is never given back.
use tiny_mite.Scheduler.Resources.{
  Floats, HardwareProfile, ResourceManager, ResourceReservation, ReserveError,
  safe_concurrency_budget, new_manager, drop_reservation, reserve, safe_ram_budget_bytes, lacks_ram,
  try_reserve,
}
use tiny_mite.Prelude.{
  ℕ, ◌+◌, ◌≤◌, ◌<◌, ◌≡◌, ◌↔◌, refl, arith, Result, ok, err, List, [], ◌∷◌, length, u64,
}

-- At least one task may run, whatever the hardware, and never more than eight.
pub safe_concurrency_budget_bounds :
    (p : HardwareProfile) → (1 ≤ safe_concurrency_budget p) × (safe_concurrency_budget p ≤ 8)
unfolding safe_concurrency_budget
safe_concurrency_budget_bounds p = ground arith

module _ (F : Floats) where
  -- Where the RAM that is reserved and asked for fits in 64 bits, a reservation is given exactly if
  -- it keeps the reserved RAM within the safe budget and a permit is left.
  pub try_reserve_iff :
      (r : ResourceManager) (ram cpu : ℕ)
      → r.reserved_ram_bytes + ram < 18446744073709551616
      → (((v : ResourceReservation) × ((try_reserve F r ram cpu).0 ≡ ok v))
          ↔ ((r.reserved_ram_bytes + ram ≤ safe_ram_budget_bytes F r.profile) × (0 < r.permits)))
  unfolding try_reserve lacks_ram
  try_reserve_iff r ram cpu fits = (
    λ (v, h). (ground arith, ground arith),
    λ (fit, left). (record { ram_bytes = ram; cpu_cores = cpu }, ground arith),
  )

  -- What callers do with the manager: reserve, or drop the latest reservation that they hold.
  pub data Act : Type 0 where
    acquire : (ram cpu : ℕ) → Act
    release : Act

  abbrev pub Held : Type 0
  Held = List ResourceReservation × ResourceManager

  acquire_with :
      List ResourceReservation → Result ReserveError ResourceReservation × ResourceManager → Held
  acquire_with vs (ok v, r) = (v ∷ vs, r)
  acquire_with vs (err _, r) = (vs, r)

  act : Act → Held → Held
  unfolding acquire_with
  act (Act.acquire ram cpu) (vs, r) = acquire_with vs (try_reserve F r ram cpu)
  act Act.release ([], r) = ([], r)
  act Act.release (v ∷ vs, r) = (vs, drop_reservation r v)

  pub run : List Act → Held → Held
  unfolding act
  run [] h = h
  run (a ∷ acts) h = run acts (act a h)

  -- Every permit is in the semaphore or with a reservation; reserved RAM is within the budget.
  pub record IsAccounted (p : HardwareProfile) (h : Held) : Type 0 where
    pub permits_kept : length h.0 + h.1.permits ≡ h.1.max_permits
    pub same_profile : h.1.profile ≡ p
    pub capped : h.1.max_permits ≡ safe_concurrency_budget p
    pub within_budget : h.1.reserved_ram_bytes ≤ safe_ram_budget_bytes F p

  acquire-IsAccounted :
      (p : HardwareProfile) (ram cpu : ℕ) (vs : List ResourceReservation) (r : ResourceManager)
      → IsAccounted p (vs, r)
      → IsAccounted p (act (Act.acquire ram cpu) (vs, r))
  unfolding act acquire_with try_reserve lacks_ram reserve
  acquire-IsAccounted p ram cpu vs r w = record {
    permits_kept = ground (arith, w.permits_kept);
    same_profile = ground (arith, w.same_profile);
    capped = ground (arith, w.capped);
    within_budget = ground (arith, w.within_budget, w.same_profile);
  }

  act-IsAccounted :
      (p : HardwareProfile) (a : Act) (h : Held) → IsAccounted p h → IsAccounted p (act a h)
  unfolding act drop_reservation
  act-IsAccounted p (Act.acquire ram cpu) (vs, r) w = acquire-IsAccounted p ram cpu vs r w
  act-IsAccounted p Act.release ([], r) w = w
  act-IsAccounted p Act.release (v ∷ vs, r) w = record {
    permits_kept = ground (arith, w.permits_kept);
    same_profile = w.same_profile;
    capped = w.capped;
    within_budget = w.within_budget;
  }

  run-IsAccounted :
      (p : HardwareProfile) (acts : List Act) (h : Held)
      → IsAccounted p h
      → IsAccounted p (run acts h)
  unfolding run
  run-IsAccounted p [] h w = w
  run-IsAccounted p (a ∷ acts) h w = run-IsAccounted p acts (act a h) (act-IsAccounted p a h w)

  -- After any sequence of reservations and releases on a new manager, the reservations held and the
  -- permits left make up the permits of the hardware, and the reserved RAM is within the budget.
  pub run-new_manager :
      (p : HardwareProfile) (acts : List Act) → IsAccounted p (run acts ([], new_manager p))
  unfolding new_manager
  run-new_manager p acts = run-IsAccounted p acts _ (record {
    permits_kept = omega arith;
    same_profile = refl;
    capped = refl;
    within_budget = omega arith;
  })

  -- A reservation that is given and dropped at once gives its permit back and nothing else: the
  -- RAM and the cores that it reserved stay reserved.
  pub drop_reservation-try_reserve :
      (r : ResourceManager) (ram cpu : ℕ) (v : ResourceReservation)
      → (try_reserve F r ram cpu).0 ≡ ok v
      → drop_reservation (try_reserve F r ram cpu).1 v ≡ (record r {
        reserved_ram_bytes = u64 (r.reserved_ram_bytes + ram);
        reserved_cpu = u64 (r.reserved_cpu + cpu);
      })
  unfolding try_reserve reserve drop_reservation
  drop_reservation-try_reserve r ram cpu v h = ground arith
