-- ===== src/Agents/Analysis.antt =====
-- crates/tiny-mite-agents/src/analysis.rs, and the classifier of intent.rs that fills it.
use tiny_mite.Agents.Intent.{
  Intent, Intent-discrete, TaskType, intent_name, task_type_name, detect_intent, detect_task_type,
  needs_retrieval, detect_required_tools, needs_planning, needs_reasoning, estimate_risk,
}
use tiny_mite.Agents.Complexity.{Singles, ComplexityScore, simple_score, estimate}
use tiny_mite.Security.Validation.{Lowercase, is_empty}
use tiny_mite.Prelude.{
  ℕ, ◌*◌, max, Bool, true, false, not, ◌&&◌, ◌||◌, String, List, [], ◌∷◌, ◌++◌, length, leb,
  if◌then◌else◌, u32, u64, concat_all, contains_text, byte_length,
}
use mathlib.Core.Bool.{decide}

pub record TaskAnalysis (S : Singles) : Type 0 where
  pub intent : Intent
  pub task_type : TaskType
  pub complexity : ComplexityScore S
  pub requires_retrieval : Bool
  pub requires_tools : List String
  pub requires_memory : Bool
  pub requires_streaming : Bool
  pub requires_planning : Bool
  pub requires_reasoning : Bool
  pub estimated_total_tokens : ℕ
  pub estimated_prompt_tokens : ℕ
  pub confidence : S.F32
  pub required_capabilities : List String
  pub reasoning_hint : String
  pub risk_score : ℕ
  pub escalate : Bool

-- `bool`'s `Display`.
unfoldable pub bool_text : Bool → String
bool_text true = "true"
bool_text false = "false"

module _ (S : Singles) (L : Lowercase) where
  open S use {F32, decimal, fmul, flt, fixed}
  open L use {lower, number_text}

  -- `TaskAnalysis::simple`.
  unfoldable pub simple_analysis : Intent → TaskType → TaskAnalysis S
  simple_analysis intent task_type = record {
    intent = intent;
    task_type = task_type;
    complexity = simple_score S;
    requires_retrieval = false;
    requires_tools = [];
    requires_memory = false;
    requires_streaming = false;
    requires_planning = false;
    requires_reasoning = false;
    estimated_total_tokens = 512;
    estimated_prompt_tokens = 256;
    confidence = decimal 10 1;
    required_capabilities = "text_generation" ∷ [];
    reasoning_hint = "Simple task, no special requirements";
    risk_score = 0;
    escalate = false;
  }

  unfoldable pub can_handle_deterministically : TaskAnalysis S → Bool
  can_handle_deterministically a =
      not a.requires_reasoning
      && not a.requires_planning
      && is_empty a.requires_tools
      && decide (Intent-discrete a.intent Intent.question)
      && leb a.estimated_total_tokens 512

  unfoldable pub summary : TaskAnalysis S → String
  summary a = concat_all (
      "intent="
      ∷ intent_name a.intent
      ∷ " type="
      ∷ task_type_name a.task_type
      ∷ " complexity="
      ∷ fixed 1 a.complexity.overall
      ∷ " tools="
      ∷ number_text (length a.requires_tools)
      ∷ " retrieval="
      ∷ bool_text a.requires_retrieval
      ∷ " reasoning="
      ∷ bool_text a.requires_reasoning
      ∷ " confidence="
      ∷ fixed 2 a.confidence
      ∷ [])

  unfoldable pub build_hint : Intent → TaskType → F32 → String
  build_hint intent task_type confidence = concat_all (
      "Intent classified as "
      ∷ intent_name intent
      ∷ "/"
      ∷ task_type_name task_type
      ∷ " with "
      ∷ fixed 0 (fmul confidence (decimal 1000 1))
      ∷ "% confidence via keyword heuristics."
      ∷ [])

  -- How many times the prompt the whole task is estimated at.
  unfoldable pub token_factor : Bool → Bool → ℕ
  token_factor requires_planning requires_reasoning =
      if requires_planning then 4 else if requires_reasoning then 3 else 2

  unfoldable pub capabilities_for : Bool → List String → List String
  capabilities_for thinks tools =
      "text_generation"
      ∷ ((if thinks then "chat" ∷ [] else [])
          ++ (if is_empty tools then [] else "tool_calling" ∷ []))

  -- `IntentClassifier::analyze`.
  unfoldable pub analyze : String → TaskAnalysis S
  analyze input =
      let text = lower input in
      let intent = detect_intent text in
      let task_type = detect_task_type text intent in
      let tools = detect_required_tools text in
      let planning = needs_planning intent in
      let reasoning = needs_reasoning intent in
      let prompt = max (byte_length input) 64 in
      let total = u64 (prompt * token_factor planning reasoning) in
      let confidence =
        if decide (Intent-discrete intent Intent.unknown) then decimal 3 1 else decimal 85 2 in
      record {
        intent = intent;
        task_type = task_type;
        complexity = estimate S intent planning reasoning (u32 (length tools)) total;
        requires_retrieval = needs_retrieval text;
        requires_tools = tools;
        requires_memory =
            contains_text "remember" text
            || contains_text "previous" text
            || contains_text "earlier" text
            || contains_text "project" text;
        requires_streaming =
            contains_text "long" text
            || contains_text "generate" text
            || contains_text "write" text;
        requires_planning = planning;
        requires_reasoning = reasoning;
        estimated_total_tokens = total;
        estimated_prompt_tokens = prompt;
        confidence = confidence;
        required_capabilities = capabilities_for (planning || reasoning) tools;
        reasoning_hint = build_hint intent task_type confidence;
        risk_score = estimate_risk intent tools;
        escalate = flt confidence (decimal 6 1);
      }
