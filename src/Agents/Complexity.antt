-- ===== src/Agents/Complexity.antt =====
-- crates/tiny-mite-agents/src/complexity.rs: the scores of a task.
use tiny_mite.Agents.Intent.{Intent, Intent-discrete}
use tiny_mite.Prelude.{ℕ, Bool, ◌&&◌, ◌||◌, String, leb, ltb, ◌==◌, if◌then◌else◌}
use mathlib.Core.Bool.{decide}

-- `f32`. `decimal n k` is the literal with the digits of `n`, the last `k` of them after the point;
-- `fixed k x` is `x` printed with `k` decimals.
pub record Singles : Type 1 where
  pub F32 : Type 0
  pub decimal : ℕ → ℕ → F32
  pub fmul : F32 → F32 → F32
  pub fadd : F32 → F32 → F32
  pub fmin : F32 → F32 → F32
  pub fmax : F32 → F32 → F32
  pub fsub : F32 → F32 → F32
  pub fdiv : F32 → F32 → F32
  pub of_usize : ℕ → F32
  pub flt : F32 → F32 → Bool
  pub fixed : ℕ → F32 → String

pub record ComplexityScore (S : Singles) : Type 0 where
  pub overall : S.F32
  pub reasoning_depth : S.F32
  pub planning_depth : S.F32
  pub context_load : S.F32
  pub tool_load : S.F32
  pub risk : S.F32
  pub parallelism : S.F32
  pub confidence : S.F32

module _ (S : Singles) where
  open S use {F32, decimal, fmul, fadd, fmin, flt}

  -- `ComplexityScore::simple`.
  unfoldable pub simple_score : ComplexityScore S
  simple_score = record {
    overall = decimal 50 1;
    reasoning_depth = decimal 0 1;
    planning_depth = decimal 0 1;
    context_load = decimal 50 1;
    tool_load = decimal 0 1;
    risk = decimal 0 1;
    parallelism = decimal 0 1;
    confidence = decimal 10 1;
  }

  unfoldable pub is_simple : ComplexityScore S → Bool
  is_simple c = flt c.overall (decimal 200 1)

  unfoldable pub score_needs_planning : ComplexityScore S → Bool
  score_needs_planning c = flt (decimal 300 1) c.planning_depth || flt (decimal 500 1) c.overall

  unfoldable pub intent_score : Intent → F32
  intent_score Intent.question = decimal 50 1
  intent_score Intent.explanation = decimal 100 1
  intent_score Intent.summarization = decimal 100 1
  intent_score Intent.creation = decimal 200 1
  intent_score Intent.code_generation = decimal 400 1
  intent_score Intent.code_review = decimal 350 1
  intent_score Intent.debugging = decimal 500 1
  intent_score Intent.analysis = decimal 250 1
  intent_score Intent.action = decimal 600 1
  intent_score Intent.planning = decimal 550 1
  intent_score Intent.unknown = decimal 300 1

  unfoldable pub context_score : ℕ → F32
  context_score tokens =
      if leb tokens 512
      then decimal 50 1
      else if leb tokens 2048
      then decimal 200 1
      else if leb tokens 8192
      then decimal 500 1
      else decimal 800 1

  unfoldable pub tool_score : ℕ → F32
  tool_score count =
      if count == 0
      then decimal 0 1
      else if count == 1
      then decimal 150 1
      else if leb count 3
      then decimal 350 1
      else decimal 600 1

  unfoldable pub risk_score : Intent → ℕ → F32
  risk_score Intent.action count = decimal 700 1
  risk_score Intent.code_generation count = if ltb 0 count then decimal 400 1 else decimal 100 1
  risk_score _ count = decimal 100 1

  unfoldable pub estimate : Intent → Bool → Bool → ℕ → ℕ → ComplexityScore S
  estimate intent requires_planning requires_reasoning tool_count estimated_tokens =
      let score = intent_score intent in
      let reasoning = if requires_reasoning then decimal 600 1 else fmul score (decimal 3 1) in
      let planning = if requires_planning then decimal 500 1 else fmul score (decimal 2 1) in
      let context = context_score estimated_tokens in
      let tool = tool_score tool_count in
      let risk = risk_score intent tool_count in
      let parallel = if requires_planning && leb 2 tool_count then decimal 500 1 else decimal 0 1 in
      let a = fadd (fmul score (decimal 3 1)) (fmul reasoning (decimal 2 1)) in
      let b = fadd (fadd a (fmul planning (decimal 2 1))) (fmul context (decimal 15 2)) in
      let sum = fadd (fadd b (fmul tool (decimal 1 1))) (fmul risk (decimal 5 2)) in
      record {
        overall = fmin sum (decimal 1000 1);
        reasoning_depth = fmin reasoning (decimal 1000 1);
        planning_depth = fmin planning (decimal 1000 1);
        context_load = fmin context (decimal 1000 1);
        tool_load = fmin tool (decimal 1000 1);
        risk = fmin risk (decimal 1000 1);
        parallelism = fmin parallel (decimal 1000 1);
        confidence =
            if decide (Intent-discrete intent Intent.unknown) then decimal 5 1 else decimal 9 1;
      }
