-- ===== src/Domain/Budget.antt =====
-- crates/tiny-mite-domain/src/values.rs: the resource budget of a task. Durations are in
-- nanoseconds.
use tiny_mite.Prelude.{ℕ, ◌≤◌, ◌<◌, ◌≡◌, ◌↔◌, Bool, true, false, ◌||◌, arith, leb}

pub record ResourceBudget : Type 0 where
  pub max_duration : ℕ
  pub max_inference_steps : ℕ
  pub max_tool_calls : ℕ
  pub max_total_tokens : ℕ
  pub max_retries : ℕ

-- `impl Default for ResourceBudget`: 300 seconds.
abbrev pub default_budget : ResourceBudget
default_budget = record {
  max_duration = 300000000000;
  max_inference_steps = 50;
  max_tool_calls = 30;
  max_total_tokens = 128000;
  max_retries = 3;
}

unfoldable pub is_exhausted : ResourceBudget → ℕ → ℕ → ℕ → ℕ → ℕ → Bool
is_exhausted b elapsed inference_steps tool_calls total_tokens retries =
    leb b.max_duration elapsed
    || leb b.max_inference_steps inference_steps
    || leb b.max_tool_calls tool_calls
    || leb b.max_total_tokens total_tokens
    || leb b.max_retries retries

-- What a task has used of its budget.
pub record Usage : Type 0 where
  pub elapsed : ℕ
  pub inference_steps : ℕ
  pub tool_calls : ℕ
  pub total_tokens : ℕ
  pub retries : ℕ

abbrev pub exhausted_by : ResourceBudget → Usage → Bool
exhausted_by b u = is_exhausted b u.elapsed u.inference_steps u.tool_calls u.total_tokens u.retries

pub record UsageLe (u v : Usage) : Type 0 where
  pub elapsed_le : u.elapsed ≤ v.elapsed
  pub inference_steps_le : u.inference_steps ≤ v.inference_steps
  pub tool_calls_le : u.tool_calls ≤ v.tool_calls
  pub total_tokens_le : u.total_tokens ≤ v.total_tokens
  pub retries_le : u.retries ≤ v.retries

-- Headroom remains exactly while every use is strictly below its limit.
pub exhausted_by-eq-false_iff :
    (b : ResourceBudget) (u : Usage)
    → (exhausted_by b u ≡ false) ↔ (
        (u.elapsed < b.max_duration)
        × (u.inference_steps < b.max_inference_steps)
        × (u.tool_calls < b.max_tool_calls)
        × (u.total_tokens < b.max_total_tokens)
        × (u.retries < b.max_retries))
unfolding is_exhausted
exhausted_by-eq-false_iff b u = ground arith

-- A budget that is exhausted stays exhausted as usage grows.
pub exhausted_by_mono :
    (b : ResourceBudget) (u v : Usage)
    → UsageLe u v
    → exhausted_by b u ≡ true
    → exhausted_by b v ≡ true
unfolding is_exhausted
exhausted_by_mono b u v h e = ground arith
