-- ===== src/Examples/Plans.antt =====
-- The validator of plans at concrete plans.
use tiny_mite.Agents.Complexity.{Singles}
use tiny_mite.Agents.Intent.{Intent, TaskType}
use tiny_mite.Agents.Analysis.{TaskAnalysis, simple_analysis, analyze}
use tiny_mite.Agents.Planner.{
  PlanStep, Plan, new_step, depends_on, new_plan, add_step, plan, step_count, plan_is_valid,
}
use tiny_mite.Agents.Validator.{ModelCapabilities}
use tiny_mite.Agents.Validator.Cycles.{
  has_circular_dependencies, IsCircular, adjacency_from, search_from, dfs_cycle_check, check_deps,
}
use tiny_mite.Agents.Validator.Cycles.Exact.{has_circular_dependencies-IsCircular}
use tiny_mite.Agents.Validator.Orphans.{has_orphan_steps}
use tiny_mite.Agents.Validator.Verdict.{validate_plan_iff}
use tiny_mite.Agents.Validator.Planned.{plan-valid, step_count-analyze}
use tiny_mite.Agents.Validator.Whole.{validate_plan}
use tiny_mite.Examples.Outputs.{no_capitals}
use tiny_mite.Prelude.{
  ◌+◌, ◌*◌, ◌-◌, ◌/◌, min, max, ◌≡◌, ◌<◌, ◌↔◌, refl, ℕ, true, false, ◌||◌, List, [], ◌∷◌, ltb,
  insert, lookup,
}

-- `f32` as whole numbers.
abbrev pub whole : Singles
whole = record {
  F32 = ℕ;
  decimal = λ n k. n;
  fmul = λ a b. a * b;
  fadd = λ a b. a + b;
  fmin = min;
  fmax = max;
  fsub = λ a b. a - b;
  fdiv = λ a b. a / b;
  of_usize = λ n. n;
  flt = ltb;
  fixed = λ k a. "0";
}

abbrev generates : ModelCapabilities
generates = record {
  text_generation = true;
  chat = true;
  tool_calling = false;
  structured_output = false;
  embeddings = false;
  reranking = false;
  vision = false;
  audio = false;
  reasoning = false;
  speculative_decoding = false;
  grammar_constrained_output = false;
}

-- The plans of the tests: two steps that depend on each other, and two in a row.
abbrev circular_steps : List PlanStep
circular_steps =
    depends_on "s2" (new_step "s1" "first") ∷ depends_on "s1" (new_step "s2" "second") ∷ []

abbrev linear : Plan
linear =
    add_step (depends_on "s1" (new_step "s2" "second"))
      (add_step (new_step "s1" "first") (new_plan "p1" "test"))

circular_is_found : has_circular_dependencies circular_steps ≡ true
unfolding has_circular_dependencies search_from dfs_cycle_check check_deps adjacency_from insert
    lookup new_step depends_on
circular_is_found = refl

-- The first of two steps with one identifier depends on itself, and no cycle is reported.
overwritten_is_missed :
    has_circular_dependencies (depends_on "A" (new_step "A" "first") ∷ new_step "A" "second" ∷ [])
    ≡ false
unfolding has_circular_dependencies search_from dfs_cycle_check check_deps adjacency_from insert
    lookup new_step depends_on
overwritten_is_missed = refl

has_circular_dependencies-IsCircular_example :
    (has_circular_dependencies circular_steps ≡ true) ↔ IsCircular circular_steps
has_circular_dependencies-IsCircular_example = has_circular_dependencies-IsCircular circular_steps

validate_plan_iff_example :
    ((validate_plan linear generates).valid ≡ true)
    ↔ ((0 < step_count linear) × (plan_is_valid linear ≡ true) × (IsCircular linear.steps → ⊥))
validate_plan_iff_example = validate_plan_iff linear generates

abbrev debugging_task : TaskAnalysis whole
debugging_task = simple_analysis whole no_capitals Intent.debugging TaskType.bug_fix

plan-valid_example :
    ((validate_plan (plan whole no_capitals debugging_task "fix") generates).valid ≡ true)
    × ((validate_plan
          (plan whole no_capitals debugging_task "fix")
          generates).capabilities_satisfied
        ≡ true)
    × (has_orphan_steps (plan whole no_capitals debugging_task "fix").steps ≡ false)
plan-valid_example = plan-valid whole no_capitals debugging_task "fix" generates

step_count-analyze_example :
    (1 < step_count (plan whole no_capitals (analyze whole no_capitals "Debug it") "Debug it")) ↔ (
      ((analyze whole no_capitals "Debug it").requires_planning
        || (analyze whole no_capitals "Debug it").requires_reasoning)
      ≡ true)
step_count-analyze_example = step_count-analyze whole no_capitals "Debug it" "Debug it"
