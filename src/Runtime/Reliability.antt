-- ===== src/Runtime/Reliability.antt =====
-- crates/tiny-mite-runtime/src/reliability.rs: checkpoints of tasks, and the limit of concurrent
-- tasks.
pub mod Limits
use tiny_mite.Crates.{Crates}
use tiny_mite.Prelude.{
  ℕ, ◌+◌, ◌-◌, ◌/◌, ◌≤◌, ◌<◌, min, max, ◌≡◌, refl, Bool, true, false, not, ◌&&◌, ◌||◌, String,
  Option, none, some, List, [], ◌∷◌, arith, ltb, if◌then◌else◌, u32, u64, lookup, insert, remove,
  length, ◌===◌, string_eq, lookup-insert, lookup-remove,
}

-- `TaskCheckpoint`.
pub record TaskCheckpoint (X : Crates) : Type 0 where
  pub task_id : String
  pub step_index : ℕ
  pub memory_snapshot : Option String
  pub timestamp : X.Time
  pub retry_count : ℕ

module _ (X : Crates) where
  unfoldable pub new_checkpoint : X.Time → String → ℕ → TaskCheckpoint X
  new_checkpoint now task_id step_index = record {
    task_id = task_id;
    step_index = step_index;
    memory_snapshot = none;
    timestamp = now;
    retry_count = 0;
  }

  unfoldable pub increment_retry : TaskCheckpoint X → TaskCheckpoint X
  increment_retry c = record c { retry_count = u32 (c.retry_count + 1) }

  -- `CrashRecovery`: the checkpoints by task.
  abbrev pub CrashRecovery : Type 0
  CrashRecovery = List (String × TaskCheckpoint X)

  unfoldable pub save : TaskCheckpoint X → CrashRecovery → CrashRecovery
  save c m = insert c.task_id c m

  unfoldable pub load : String → CrashRecovery → Option (TaskCheckpoint X)
  load task_id m = lookup task_id m

  unfoldable pub clear : String → CrashRecovery → CrashRecovery
  clear task_id m = remove task_id m

  unfoldable pub active_count : CrashRecovery → ℕ
  active_count m = length m

-- `AdaptiveConcurrency`; the thresholds and the observed percentages are `u8`.
pub record AdaptiveConcurrency : Type 0 where
  pub min_concurrent : ℕ
  pub max_concurrent : ℕ
  pub current : ℕ
  pub cpu_threshold : ℕ
  pub memory_threshold : ℕ

unfoldable pub new_concurrency : ℕ → ℕ → AdaptiveConcurrency
new_concurrency low high = record {
  min_concurrent = low;
  max_concurrent = high;
  current = low;
  cpu_threshold = 75;
  memory_threshold = 75;
}

-- `(*c + 1).min(max)`; the sum is `usize`.
unfoldable pub increase : AdaptiveConcurrency → AdaptiveConcurrency
increase a = record a { current = min (u64 (a.current + 1)) a.max_concurrent }

-- `saturating_sub(1).max(min)`.
unfoldable pub decrease : AdaptiveConcurrency → AdaptiveConcurrency
decrease a = record a { current = max (a.current - 1) a.min_concurrent }

unfoldable pub adjust : ℕ → ℕ → AdaptiveConcurrency → AdaptiveConcurrency
adjust cpu memory a =
    if ltb a.cpu_threshold cpu || ltb a.memory_threshold memory
    then decrease a
    else if ltb cpu (a.cpu_threshold / 2) && ltb memory (a.memory_threshold / 2)
    then increase a
    else a

-- One adjustment after the other.
unfoldable pub adjust_each : List (ℕ × ℕ) → AdaptiveConcurrency → AdaptiveConcurrency
adjust_each [] a = a
adjust_each ((cpu, memory) ∷ seen) a = adjust_each seen (adjust cpu memory a)
