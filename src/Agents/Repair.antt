-- ===== src/Agents/Repair.antt =====
-- crates/tiny-mite-agents/src/repair.rs: the loop that repairs a failed step.
pub mod Attempts
use tiny_mite.Agents.Planner.{PlanStep}
use tiny_mite.Agents.Complexity.{Singles}
use tiny_mite.Agents.Verifier.{Printing, VerificationOutcome, verify_step}
use tiny_mite.Agents.Reflection.{ReflectionResult, reflect}
use tiny_mite.Prelude.{ℕ, ℤ, pos, zero, suc, ◌+◌, String, Option, some, if◌then◌else◌}

-- `RepairLoop`; the reflection and the verifier have no state.
pub record RepairLoop : Type 0 where
  pub max_attempts : ℕ

abbrev pub new_loop : RepairLoop
new_loop = record { max_attempts = 3 }

unfoldable pub with_max_attempts : RepairLoop → ℕ → RepairLoop
with_max_attempts l n = record l { max_attempts = n }

module _ (S : Singles) (D : Printing) where
  abbrev pub Repaired : Type 0
  Repaired = VerificationOutcome × ReflectionResult S × ℕ

  -- What is verified in place of a new run of the step.
  unfoldable pub simulate : PlanStep → VerificationOutcome
  simulate step = verify_step D step "PASS" (some (pos 0))

  -- The loop, with the attempts that are left and those made.
  unfoldable pub repair_from : ℕ → ℕ → PlanStep → VerificationOutcome → Repaired
  repair_from zero attempt step outcome =
      (outcome, reflect S step.description outcome attempt, attempt)
  repair_from (suc left) attempt step outcome =
      let again = repair_from left (attempt + 1) step (simulate step) in
      let reflection = reflect S step.description outcome (attempt + 1) in
      if outcome.passed
      then (outcome, reflect S step.description outcome attempt, attempt)
      else if reflection.should_retry
      then again
      else (outcome, reflection, attempt + 1)

  unfoldable pub repair : RepairLoop → PlanStep → String → Option ℤ → Repaired
  repair l step last_output exit_code =
      repair_from l.max_attempts 0 step (verify_step D step last_output exit_code)
