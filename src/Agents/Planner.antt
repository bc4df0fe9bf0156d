-- ===== src/Agents/Planner.antt =====
-- crates/tiny-mite-agents/src/planner.rs: plans, their steps, and the planner. The sum of the
-- estimated tokens wraps.
use tiny_mite.Agents.Intent.{Intent}
use tiny_mite.Agents.Complexity.{Singles}
use tiny_mite.Agents.Analysis.{TaskAnalysis, summary}
use tiny_mite.Security.Validation.{Lowercase}
use tiny_mite.Prelude.{
  ℕ, ◌+◌, Bool, String, List, [], ◌∷◌, ◌++◌, map, all, length, if◌then◌else◌, u64, contains,
  string_eq, concat_all,
}

pub data ExecutionPolicy : Type 0 where
  sequential parallel skip_on_success on_failure : ExecutionPolicy
  conditional : ℕ → ExecutionPolicy

pub data RetryPolicy : Type 0 where
  no_retry : RetryPolicy
  retry : ℕ → RetryPolicy
  retry_with_backoff : (max_retries : ℕ) (base_delay_ms : ℕ) → RetryPolicy

pub data VerificationPolicy : Type 0 where
  unverified exit_code : VerificationPolicy
  schema : String → VerificationPolicy
  invariant : String → VerificationPolicy
  custom : String → VerificationPolicy

pub record PlanStep : Type 0 where
  pub id : String
  pub description : String
  pub dependencies : List String
  pub required_capabilities : List String
  pub tools : List String
  pub args : List String
  pub expected_output : String
  pub verification : VerificationPolicy
  pub retry_policy : RetryPolicy
  pub execution_policy : ExecutionPolicy
  pub timeout_ms : ℕ
  pub priority : ℕ
  pub estimated_tokens : ℕ

-- `PlanStep::new`.
unfoldable pub new_step : String → String → PlanStep
new_step id description = record {
  id = id;
  description = description;
  dependencies = [];
  required_capabilities = "text_generation" ∷ [];
  tools = [];
  args = [];
  expected_output = "";
  verification = VerificationPolicy.unverified;
  retry_policy = RetryPolicy.no_retry;
  execution_policy = ExecutionPolicy.sequential;
  timeout_ms = 30000;
  priority = 0;
  estimated_tokens = 256;
}

unfoldable pub depends_on : String → PlanStep → PlanStep
depends_on step_id s = record s { dependencies = s.dependencies ++ (step_id ∷ []) }

unfoldable pub verify : VerificationPolicy → PlanStep → PlanStep
verify policy s = record s { verification = policy }

unfoldable pub set_retry : RetryPolicy → PlanStep → PlanStep
set_retry policy s = record s { retry_policy = policy }

unfoldable pub set_parallel : PlanStep → PlanStep
set_parallel s = record s { execution_policy = ExecutionPolicy.parallel }

unfoldable pub with_tools : List String → PlanStep → PlanStep
with_tools tools s = record s { tools = tools }

unfoldable pub with_args : List String → PlanStep → PlanStep
with_args args s = record s { args = args }

pub record Plan : Type 0 where
  pub id : String
  pub task_description : String
  pub steps : List PlanStep
  pub analysis_summary : String
  pub total_estimated_tokens : ℕ

-- `Plan::new`.
unfoldable pub new_plan : String → String → Plan
new_plan id task_description = record {
  id = id;
  task_description = task_description;
  steps = [];
  analysis_summary = "";
  total_estimated_tokens = 0;
}

unfoldable pub add_step : PlanStep → Plan → Plan
add_step step p = record p {
  total_estimated_tokens = u64 (p.total_estimated_tokens + step.estimated_tokens);
  steps = p.steps ++ (step ∷ []);
}

unfoldable pub step_count : Plan → ℕ
step_count p = length p.steps

abbrev pub ids : List PlanStep → List String
ids steps = map (λ s. s.id) steps

-- `Plan::is_valid`.
unfoldable pub plan_is_valid : Plan → Bool
plan_is_valid p = all (λ s. all (contains (ids p.steps)) s.dependencies) p.steps

-- `impl Display for Plan`.
module _ (L : Lowercase) where
  unfoldable pub step_lines : ℕ → List PlanStep → String
  step_lines i [] = ""
  step_lines i (step ∷ rest) = concat_all (
      "  "
      ∷ L.number_text (i + 1)
      ∷ ". "
      ∷ step.description
      ∷ " ["
      ∷ L.number_text (length step.dependencies)
      ∷ " deps]\n"
      ∷ step_lines (i + 1) rest
      ∷ [])

  unfoldable pub plan_text : Plan → String
  plan_text p = concat_all (
      "Plan: "
      ∷ p.id
      ∷ " ("
      ∷ L.number_text (length p.steps)
      ∷ " steps, ~"
      ∷ L.number_text p.total_estimated_tokens
      ∷ " tokens)\n"
      ∷ step_lines 0 p.steps
      ∷ [])

-- The arms of `Planner::plan`, as the steps that each adds in turn.
abbrev pub code_generation_steps : List String → List PlanStep
code_generation_steps requires_tools =
    verify (VerificationPolicy.invariant "Design covers all requirements")
      (new_step "step_1" "Analyze requirements and design solution")
    ∷ set_retry (RetryPolicy.retry_with_backoff 3 1000)
        (depends_on "step_1" (new_step "step_2" "Implement the solution"))
    ∷ (if contains requires_tools "test-runner"
        then verify VerificationPolicy.exit_code
            (depends_on "step_2" (new_step "step_3" "Run test suite and verify"))
          ∷ []
        else [])

abbrev pub debugging_steps : List PlanStep
debugging_steps =
    new_step "step_1" "Reproduce and isolate the bug"
    ∷ depends_on "step_1" (new_step "step_2" "Identify root cause")
    ∷ depends_on "step_2" (new_step "step_3" "Implement fix")
    ∷ verify VerificationPolicy.exit_code
        (depends_on "step_3" (new_step "step_4" "Verify fix and run tests"))
    ∷ []

abbrev pub planning_steps : List PlanStep
planning_steps =
    new_step "step_1" "Analyze requirements and constraints"
    ∷ depends_on "step_1" (new_step "step_2" "Research existing solutions and patterns")
    ∷ depends_on "step_2" (new_step "step_3" "Design high-level architecture")
    ∷ depends_on "step_3" (new_step "step_4" "Detail component design")
    ∷ verify (VerificationPolicy.invariant "Design is complete and consistent")
        (depends_on "step_4" (new_step "step_5" "Review and validate design"))
    ∷ []

abbrev pub action_steps : List String → List PlanStep
action_steps requires_tools =
    verify (VerificationPolicy.invariant "All prerequisites met")
      (new_step "step_1" "Validate prerequisites and permissions")
    ∷ set_retry (RetryPolicy.retry 2)
        (with_tools requires_tools (depends_on "step_1" (new_step "step_2" "Execute the action")))
    ∷ verify VerificationPolicy.exit_code
        (depends_on "step_2" (new_step "step_3" "Verify action result"))
    ∷ []

abbrev pub answer_steps : Bool → List PlanStep
answer_steps requires_reasoning =
    if requires_reasoning
    then new_step "step_1" "Analyze the question and gather context"
      ∷ depends_on "step_1" (new_step "step_2" "Reason through the answer")
      ∷ depends_on "step_2" (new_step "step_3" "Formulate and verify response")
      ∷ []
    else new_step "step_1" "Answer directly" ∷ []

unfoldable pub steps_for : Intent → List String → Bool → List PlanStep
steps_for Intent.code_generation tools reasoning = code_generation_steps tools
steps_for Intent.debugging tools reasoning = debugging_steps
steps_for Intent.planning tools reasoning = planning_steps
steps_for Intent.action tools reasoning = action_steps tools
steps_for _ tools reasoning = answer_steps reasoning

unfoldable pub add_steps : List PlanStep → Plan → Plan
add_steps [] p = p
add_steps (step ∷ rest) p = add_steps rest (add_step step p)

-- `Planner::plan`.
module _ (S : Singles) (L : Lowercase) where
  unfoldable pub plan : TaskAnalysis S → String → Plan
  plan analysis task_description =
      let start = record (new_plan "plan_1" task_description) {
        analysis_summary = summary S L analysis;
      } in
      add_steps (steps_for analysis.intent analysis.requires_tools analysis.requires_reasoning)
        start
