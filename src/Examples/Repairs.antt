-- ===== src/Examples/Repairs.antt =====
-- The repair of a step at a concrete step that fails.
use tiny_mite.Agents.Planner.{PlanStep, VerificationPolicy, new_step, verify}
use tiny_mite.Agents.Verifier.{Printing, verify_step, verify_policy, verify_exit, pass, fail}
use tiny_mite.Agents.Repair.{new_loop, simulate, repair}
use tiny_mite.Agents.Repair.Attempts.{repair-passed}
use tiny_mite.Examples.Plans.{whole}
use tiny_mite.Prelude.{pos, ◌≡◌, ◌≤◌, true, ◌&&◌, ◌||◌, some, min, ltb}

abbrev plain : Printing
plain = record { int_text = λ z. "0"; debug_texts = λ ks. "[]" }

abbrev run_tests : PlanStep
run_tests = verify VerificationPolicy.exit_code (new_step "step_4" "Verify fix and run tests")

-- The tests have failed, and the repair reports that they have passed.
failure_is_passed :
    (repair whole plain new_loop run_tests "2 failed" (some (pos 1))).0.passed ≡ true
unfolding verify new_step verify_step verify_policy verify_exit pass fail simulate
failure_is_passed = (repair-passed whole plain new_loop run_tests "2 failed" (some (pos 1))).0

repair-passed_example :
    ((repair whole plain new_loop run_tests "2 failed" (some (pos 1))).0.passed ≡ (
      (verify_step plain run_tests "2 failed" (some (pos 1))).passed
      || (ltb 0 3 && (simulate whole plain run_tests).passed)))
    × ((repair whole plain new_loop run_tests "2 failed" (some (pos 1))).2 ≤ min 3 3)
repair-passed_example = repair-passed whole plain new_loop run_tests "2 failed" (some (pos 1))
