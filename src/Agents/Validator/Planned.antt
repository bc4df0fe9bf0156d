-- ===== src/Agents/Validator/Planned.antt =====
-- What the validator says of the planner's plans, from the text of a task on.
use tiny_mite.Agents.Intent.{Intent, detect_intent, needs_planning, needs_reasoning}
use tiny_mite.Agents.Complexity.{Singles}
use tiny_mite.Agents.Analysis.{TaskAnalysis, analyze}
use tiny_mite.Agents.Planner.{
  PlanStep, Plan, new_step, depends_on, verify, set_retry, with_tools, new_plan, add_step,
  steps_for, answer_steps, code_generation_steps, add_steps, plan, step_count,
}
use tiny_mite.Agents.Validator.{ModelCapabilities, available}
use tiny_mite.Agents.Validator.Cycles.{
  adjacency_from, check_deps, dfs_cycle_check, search_from, has_circular_dependencies,
}
use tiny_mite.Agents.Validator.Orphans.{
  roots, add_reverse, reverse_from, push_children, reach_node, reach, count_children,
  reachable_steps, same_set, has_orphan_steps,
}
use tiny_mite.Agents.Validator.Whole.{validate_plan}
use tiny_mite.Agents.Validator.Verdict.{
  accepts, validate_plan_steps-valid, validate_plan_steps-satisfied,
}
use tiny_mite.Security.Validation.{Lowercase}
use tiny_mite.Prelude.{
  ◌≡◌, refl, Bool, true, false, String, List, [], ◌∷◌, ◌++◌, arith, contains, string_eq, Bool-cases,
  inl, inr, insert, lookup, sym, ◌∙◌, ◌↔◌, ◌||◌, all, length, ◌<◌,
}
use mathlib.Core.List.{append-nil, append_assoc}

add_steps-steps : (steps : List PlanStep) (p : Plan) → (add_steps steps p).steps ≡ p.steps ++ steps
unfolding add_steps add_step
add_steps-steps [] p = sym (append-nil p.steps)
add_steps-steps (s ∷ steps) p =
    add_steps-steps steps (add_step s p) ∙ append_assoc p.steps (s ∷ []) steps

-- The steps of every arm pass the checks.
record Passes (steps : List PlanStep) (c : ModelCapabilities) : Type 0 where
  nonempty : 0 < length steps
  accepted : accepts steps ≡ true
  capable : all (λ s. all (available c) s.required_capabilities) steps ≡ c.text_generation
  connected : has_orphan_steps steps ≡ false

module _ (c : ModelCapabilities) where
  answer_steps-Passes : (reasoning : Bool) → Passes (answer_steps reasoning) c
  unfolding new_step depends_on available has_circular_dependencies search_from dfs_cycle_check
      check_deps adjacency_from insert lookup has_orphan_steps roots reverse_from add_reverse
      reachable_steps reach reach_node push_children count_children same_set
  answer_steps-Passes true = record {
    nonempty = omega arith;
    accepted = refl;
    capable = ground arith;
    connected = refl;
  }
  answer_steps-Passes false = record {
    nonempty = omega arith;
    accepted = refl;
    capable = ground arith;
    connected = refl;
  }

  code_generation_steps-Passes : (tools : List String) → Passes (code_generation_steps tools) c
  unfolding new_step depends_on verify set_retry available has_circular_dependencies search_from
      dfs_cycle_check check_deps adjacency_from insert lookup has_orphan_steps roots reverse_from
      add_reverse reachable_steps reach reach_node push_children count_children same_set
  code_generation_steps-Passes tools = elim (Bool-cases (contains tools "test-runner")) [
    | inl e ↦ rw e (record {
      nonempty = omega arith;
      accepted = refl;
      capable = ground arith;
      connected = refl;
    })
    | inr e ↦ rw e (record {
      nonempty = omega arith;
      accepted = refl;
      capable = ground arith;
      connected = refl;
    })
  ]

  steps_for-Passes :
      (intent : Intent) (tools : List String) (reasoning : Bool)
      → Passes (steps_for intent tools reasoning) c
  unfolding steps_for new_step depends_on verify set_retry with_tools available
      has_circular_dependencies search_from dfs_cycle_check check_deps adjacency_from insert lookup
      has_orphan_steps roots reverse_from add_reverse reachable_steps reach reach_node push_children
      count_children same_set
  steps_for-Passes Intent.debugging tools reasoning = record {
    nonempty = omega arith;
    accepted = refl;
    capable = ground arith;
    connected = refl;
  }
  steps_for-Passes Intent.planning tools reasoning = record {
    nonempty = omega arith;
    accepted = refl;
    capable = ground arith;
    connected = refl;
  }
  steps_for-Passes Intent.action tools reasoning = record {
    nonempty = omega arith;
    accepted = refl;
    capable = ground arith;
    connected = refl;
  }
  steps_for-Passes Intent.code_generation tools reasoning = code_generation_steps-Passes tools
  steps_for-Passes Intent.question tools reasoning = answer_steps-Passes reasoning
  steps_for-Passes Intent.code_review tools reasoning = answer_steps-Passes reasoning
  steps_for-Passes Intent.explanation tools reasoning = answer_steps-Passes reasoning
  steps_for-Passes Intent.summarization tools reasoning = answer_steps-Passes reasoning
  steps_for-Passes Intent.analysis tools reasoning = answer_steps-Passes reasoning
  steps_for-Passes Intent.creation tools reasoning = answer_steps-Passes reasoning
  steps_for-Passes Intent.unknown tools reasoning = answer_steps-Passes reasoning

more_steps :
    (i : Intent) (tools : List String)
    → (1 < length (steps_for i tools (needs_reasoning i)))
      ↔ ((needs_planning i || needs_reasoning i) ≡ true)
unfolding steps_for needs_reasoning needs_planning
more_steps Intent.code_generation tools = ground arith
more_steps Intent.debugging tools = ground arith
more_steps Intent.planning tools = ground arith
more_steps Intent.action tools = ground arith
more_steps Intent.question tools = ground arith
more_steps _ tools = ground arith

module _ (S : Singles) (L : Lowercase) where
  plan-steps :
      (a : TaskAnalysis S) (text : String)
      → (plan S L a text).steps ≡ steps_for a.intent a.requires_tools a.requires_reasoning
  unfolding plan new_plan
  plan-steps a text = add_steps-steps (steps_for a.intent a.requires_tools a.requires_reasoning) _

  -- The planner's plan for any analysis and any text is accepted by the validator, has no orphan
  -- step, and has its capabilities satisfied exactly when the model generates text, whatever
  -- capabilities the analysis lists.
  pub plan-valid :
      (a : TaskAnalysis S) (text : String) (c : ModelCapabilities)
      → ((validate_plan (plan S L a text) c).valid ≡ true)
        × ((validate_plan (plan S L a text) c).capabilities_satisfied ≡ c.text_generation)
        × (has_orphan_steps (plan S L a text).steps ≡ false)
  unfolding validate_plan
  plan-valid a text c =
      let steps = steps_for a.intent a.requires_tools a.requires_reasoning in
      let passes = steps_for-Passes c a.intent a.requires_tools a.requires_reasoning in
      rw (plan-steps a text) (
        validate_plan_steps-valid steps c ∙ passes.accepted,
        validate_plan_steps-satisfied steps c passes.nonempty ∙ passes.capable,
        passes.connected,
      )

  -- Whatever the text of a task, its plan has more than one step exactly when the classifier finds
  -- that the task requires planning or reasoning.
  pub step_count-analyze :
      (input text : String)
      → (1 < step_count (plan S L (analyze S L input) text))
        ↔ (((analyze S L input).requires_planning || (analyze S L input).requires_reasoning) ≡ true)
  unfolding step_count analyze
  step_count-analyze input text =
      rw (plan-steps (analyze S L input) text) (more_steps (detect_intent (L.lower input)) _)
