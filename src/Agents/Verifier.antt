-- ===== src/Agents/Verifier.antt =====
-- crates/tiny-mite-agents/src/verifier.rs: the verification of what a step of a plan returns.
use tiny_mite.Agents.Planner.{PlanStep, VerificationPolicy}
use tiny_mite.Prelude.{
  ℤ, pos, zero, Bool, true, false, not, ◌||◌, String, Option, none, some, List, [], ◌∷◌, retain,
  if◌then◌else◌, concat_all, contains_text,
}

-- `Display` of an `i32`, and `Debug` of a list of texts.
pub record Printing : Type 0 where
  pub int_text : ℤ → String
  pub debug_texts : List String → String

pub record VerificationOutcome : Type 0 where
  pub passed : Bool
  pub reason : String
  pub evidence : Option String

unfoldable pub pass : String → VerificationOutcome
pass reason = record { passed = true; reason = reason; evidence = none }

unfoldable pub fail : String → VerificationOutcome
fail reason = record { passed = false; reason = reason; evidence = none }

unfoldable pub with_evidence : String → VerificationOutcome → VerificationOutcome
with_evidence evidence o = record o { evidence = some evidence }

-- The outcome of a search of the output, with the output as its evidence.
abbrev pub searched : Bool → String → String → String → VerificationOutcome
searched found output good bad = if found then with_evidence output (pass good) else fail bad

module _ (D : Printing) where
  unfoldable pub verify_exit : Option ℤ → VerificationOutcome
  verify_exit (some (pos zero)) = pass "Exit code 0 (success)"
  verify_exit (some rc) = fail (concat_all ("Exit code " ∷ D.int_text rc ∷ " (expected 0)" ∷ []))
  verify_exit none = fail "No exit code available for verification"

  unfoldable pub verify_policy : VerificationPolicy → String → Option ℤ → VerificationOutcome
  verify_policy VerificationPolicy.unverified output exit_code = pass "No verification required"
  verify_policy VerificationPolicy.exit_code output exit_code = verify_exit exit_code
  verify_policy (VerificationPolicy.schema schema) output exit_code =
      searched (contains_text schema output) output
        (concat_all ("Schema keyword '" ∷ schema ∷ "' found in output" ∷ []))
        (concat_all ("Schema keyword '" ∷ schema ∷ "' not found in output" ∷ []))
  verify_policy (VerificationPolicy.invariant invariant) output exit_code =
      searched (contains_text invariant output) output
        (concat_all ("Invariant '" ∷ invariant ∷ "' satisfied" ∷ []))
        (concat_all ("Invariant '" ∷ invariant ∷ "' not satisfied" ∷ []))
  verify_policy (VerificationPolicy.custom check) output exit_code =
      searched
        (contains_text check output
          || contains_text "SUCCESS" output
          || contains_text "PASS" output)
        output (concat_all ("Custom check '" ∷ check ∷ "' passed" ∷ []))
        (concat_all ("Custom check '" ∷ check ∷ "' failed" ∷ []))

  unfoldable pub verify_step : PlanStep → String → Option ℤ → VerificationOutcome
  verify_step step output exit_code = verify_policy step.verification output exit_code

  abbrev completion_of : List String → VerificationOutcome
  completion_of [] = pass "All expected keywords present in response"
  completion_of (k ∷ ks) = fail (concat_all ("Missing keywords: " ∷ D.debug_texts (k ∷ ks) ∷ []))

  unfoldable pub verify_completion : String → List String → VerificationOutcome
  verify_completion response expected =
      completion_of (retain (λ kw. not (contains_text kw response)) expected)
