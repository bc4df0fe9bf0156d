-- ===== src/Agents/Reflection.antt =====
-- crates/tiny-mite-agents/src/reflection.rs: what is made of a failed verification.
use tiny_mite.Agents.Complexity.{Singles}
use tiny_mite.Agents.Verifier.{VerificationOutcome}
use tiny_mite.Prelude.{
  ℕ, max, Bool, true, false, String, Option, none, some, List, [], ◌∷◌, map, length, leb,
  if◌then◌else◌, concat_all, contains_text,
}

pub record ReflectionResult (S : Singles) : Type 0 where
  pub has_correction : Bool
  pub what_worked : List String
  pub what_failed : List String
  pub likely_cause : Option String
  pub correction : Option String
  pub should_retry : Bool
  pub plan_changes : List String
  pub confidence : S.F32
  pub escalate : Bool

module _ (S : Singles) where
  unfoldable pub nothing_to_report : ReflectionResult S
  nothing_to_report = record {
    has_correction = false;
    what_worked = "All checks passed" ∷ [];
    what_failed = [];
    likely_cause = none;
    correction = none;
    should_retry = false;
    plan_changes = [];
    confidence = S.decimal 10 1;
    escalate = false;
  }

  unfoldable pub from_failure : VerificationOutcome → String → ReflectionResult S
  from_failure verification description = record {
    has_correction = true;
    what_worked = [];
    what_failed =
        concat_all ("Step '" ∷ description ∷ "' verification failed: " ∷ verification.reason ∷ [])
        ∷ [];
    likely_cause = some "Output did not meet verification criteria";
    correction =
        some (concat_all ("Re-run step '" ∷ description ∷ "' with corrected instructions" ∷ []));
    should_retry = true;
    plan_changes = concat_all ("Add retry for step '" ∷ description ∷ "'" ∷ []) ∷ [];
    confidence = S.decimal 7 1;
    escalate = false;
  }

  -- The change after several failures.
  unfoldable pub give_up : ReflectionResult S → ReflectionResult S
  give_up r = record r {
    likely_cause = some "Multiple retry attempts failed. Root cause may be structural.";
    should_retry = false;
    escalate = true;
    confidence = S.decimal 4 1;
    correction = some "Escalate to human review or more capable model for root cause analysis";
  }

  unfoldable pub suggest_debugging : ReflectionResult S → ReflectionResult S
  suggest_debugging r = record r {
    correction = some "Command failed with non-zero exit code. Check error output and fix.";
  }

  unfoldable pub reflect_failure : String → VerificationOutcome → ℕ → ReflectionResult S
  reflect_failure description verification attempts =
      let failure = from_failure verification description in
      let result = if leb 3 attempts then give_up failure else failure in
      if contains_text "Exit code" verification.reason then suggest_debugging result else result

  unfoldable pub reflect : String → VerificationOutcome → ℕ → ReflectionResult S
  reflect description verification attempts =
      if verification.passed
      then nothing_to_report
      else reflect_failure description verification attempts

  -- `reflect_on_plan` on failed steps, of which there is one.
  unfoldable pub reflect_on_failures :
      List (String × VerificationOutcome) → List String → ℕ → ReflectionResult S
  reflect_on_failures failed passed total =
      let rate = S.fdiv (S.of_usize (length failed)) (S.of_usize (max total 1)) in
      record {
        has_correction = true;
        what_worked = map (λ s. concat_all ("Step '" ∷ s ∷ "' completed successfully" ∷ [])) passed;
        what_failed =
            map (λ f. concat_all ("Step '" ∷ f.0 ∷ "' failed: " ∷ f.1.reason ∷ [])) failed;
        likely_cause =
            if S.flt (S.decimal 5 1) rate
            then some
                "High failure rate suggests plan is too ambitious or resources are insufficient"
            else some "Some individual steps need correction";
        correction = some "Re-plan the failed steps with more conservative constraints";
        should_retry = S.flt rate (S.decimal 5 1);
        plan_changes =
            map (λ f. concat_all ("Revise step '" ∷ f.0 ∷ "' with explicit error handling" ∷ []))
              failed;
        confidence = S.fmax (S.fsub (S.decimal 10 1) rate) (S.decimal 1 1);
        escalate = S.flt (S.decimal 5 1) rate;
      }

  unfoldable pub reflect_on_plan :
      List (String × VerificationOutcome) → List String → ℕ → ReflectionResult S
  reflect_on_plan [] passed total = nothing_to_report
  reflect_on_plan (f ∷ failed) passed total = reflect_on_failures (f ∷ failed) passed total
