-- ===== src/Scheduler/Resources.antt =====
-- crates/tiny-mite-scheduler/src/scheduler.rs: hardware budgets and the resource manager.
pub mod Reservations
use tiny_mite.Prelude.{
  ℕ, ◌+◌, ◌-◌, ◌*◌, ◌/◌, min, max, ◌≤◌, ◌≡◌, Bool, true, false, String, Option, some, none, Result,
  ok, err, if◌then◌else◌, ltb, u64, List, [], ◌∷◌,
}

-- Arithmetic in `f64`, which the kernel has no model of: `(n as f64 * 0.6) as u64`, and whether
-- `a as f64 / b as f64` is under 0.10 and under 0.30. A share of `n` is at most `n`.
pub record Floats : Type 1 where
  pub sixty_percent : ℕ → ℕ
  pub sixty_percent-le : (n : ℕ) → sixty_percent n ≤ n
  pub under_tenth : ℕ → ℕ → Bool
  pub under_third : ℕ → ℕ → Bool

pub record HardwareProfile : Type 0 where
  pub logical_cpus : ℕ
  pub physical_cpus : ℕ
  pub total_ram_bytes : ℕ
  pub available_ram_bytes : ℕ
  pub gpu_present : Bool
  pub gpu_memory_bytes : Option ℕ
  pub platform : String

-- `permits` is what the semaphore has left.
pub record ResourceManager : Type 0 where
  pub profile : HardwareProfile
  pub reserved_ram_bytes : ℕ
  pub reserved_cpu : ℕ
  pub permits : ℕ
  pub max_permits : ℕ

-- A reservation holds one permit.
pub record ResourceReservation : Type 0 where
  pub ram_bytes : ℕ
  pub cpu_cores : ℕ

pub data PressureLevel : Type 0 where
  normal warning critical : PressureLevel

-- The two messages of `try_reserve`.
pub data ReserveError : Type 0 where
  insufficient_ram : (current requested budget : ℕ) → ReserveError
  maximum_concurrency : ReserveError

unfoldable pub safe_concurrency_budget : HardwareProfile → ℕ
safe_concurrency_budget p = min (max (p.logical_cpus / 2) 1) 8

unfoldable pub new_manager : HardwareProfile → ResourceManager
unfolding safe_concurrency_budget
new_manager p = record {
  profile = p;
  reserved_ram_bytes = 0;
  reserved_cpu = 0;
  permits = safe_concurrency_budget p;
  max_permits = safe_concurrency_budget p;
}

-- `refresh_profile`, with the profile that `detect` reads.
unfoldable pub refresh_profile : ResourceManager → HardwareProfile → ResourceManager
refresh_profile r p = record r { profile = p }

-- The fields of a reservation's Drop: its permit goes back to the semaphore.
unfoldable pub drop_reservation : ResourceManager → ResourceReservation → ResourceManager
drop_reservation r _ = record r { permits = r.permits + 1 }

-- `fetch_add` on both counters, which wraps.
unfoldable pub reserve : ResourceManager → ℕ → ℕ → ResourceManager
reserve r ram cpu = record r {
  reserved_ram_bytes = u64 (r.reserved_ram_bytes + ram);
  reserved_cpu = u64 (r.reserved_cpu + cpu);
  permits = r.permits - 1;
}

module _ (F : Floats) where
  unfoldable pub safe_ram_budget_bytes : HardwareProfile → ℕ
  safe_ram_budget_bytes p = F.sixty_percent p.available_ram_bytes

  -- Whether the check of `try_reserve` refuses; its sum is of two `u64`, which wraps.
  unfoldable pub lacks_ram : ResourceManager → ℕ → Bool
  unfolding safe_ram_budget_bytes
  lacks_ram r ram = ltb (safe_ram_budget_bytes r.profile) (u64 (r.reserved_ram_bytes + ram))

  -- `try_reserve` by one caller at a time.
  unfoldable pub try_reserve :
      ResourceManager → ℕ → ℕ → Result ReserveError ResourceReservation × ResourceManager
  try_reserve r ram cpu =
      if lacks_ram r ram
      then (
        err (
            ReserveError.insufficient_ram r.reserved_ram_bytes ram
              (safe_ram_budget_bytes r.profile)),
        r,
      )
      else if ltb 0 r.permits
      then (ok (record { ram_bytes = ram; cpu_cores = cpu }), reserve r ram cpu)
      else (err ReserveError.maximum_concurrency, r)

  -- `safe.saturating_sub(reserved)`.
  unfoldable pub available_ram_bytes : ResourceManager → ℕ
  available_ram_bytes r = safe_ram_budget_bytes r.profile - r.reserved_ram_bytes

  unfoldable pub memory_pressure_level : ResourceManager → PressureLevel
  memory_pressure_level r =
      let available = available_ram_bytes r in
      let safe = safe_ram_budget_bytes r.profile in
      if F.under_tenth available safe
      then PressureLevel.critical
      else if F.under_third available safe
      then PressureLevel.warning
      else PressureLevel.normal
