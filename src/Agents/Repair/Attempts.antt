-- ===== src/Agents/Repair/Attempts.antt =====
-- How the repair of a step ends.
use tiny_mite.Agents.Planner.{PlanStep}
use tiny_mite.Agents.Complexity.{Singles}
use tiny_mite.Agents.Verifier.{Printing, VerificationOutcome, verify_step}
use tiny_mite.Agents.Reflection.{
  nothing_to_report, from_failure, give_up, suggest_debugging, reflect_failure, reflect,
}
use tiny_mite.Agents.Repair.{RepairLoop, simulate, repair_from, repair}
use tiny_mite.Prelude.{
  ℕ, ℤ, zero, suc, ◌+◌, ◌≤◌, ◌<◌, ◌≡◌, refl, not, ◌&&◌, ◌||◌, min, String, Option, arith, ltb, leb,
  Bool-cases, inl, inr,
}

module _ (S : Singles) (D : Printing) where
  -- A failure is tried again before the third attempt.
  reflect-should_retry :
      (description : String) (o : VerificationOutcome) (attempts : ℕ)
      → (reflect S description o attempts).should_retry ≡ (not o.passed && not (leb 3 attempts))
  unfolding reflect reflect_failure from_failure give_up suggest_debugging nothing_to_report
  reflect-should_retry description o attempts = ground arith

  -- Once the simulated run is what is verified, it stays so.
  repair_from-simulate :
      (left attempt : ℕ) (step : PlanStep)
      → (repair_from S D left attempt step (simulate S D step)).0.passed
        ≡ (simulate S D step).passed
  unfolding repair_from
  repair_from-simulate zero attempt step = refl
  repair_from-simulate (suc left) attempt step =
      ground (arith, repair_from-simulate left (attempt + 1) step)

  repair_from-attempts :
      (left attempt : ℕ) (step : PlanStep) (o : VerificationOutcome)
      → attempt < 3
      → ((repair_from S D left attempt step o).2 ≤ attempt + left)
        × ((repair_from S D left attempt step o).2 ≤ 3)
  unfolding repair_from
  repair_from-attempts zero attempt step o h = (omega arith, omega arith)
  repair_from-attempts (suc left) attempt step o h = elim (Bool-cases (leb 3 (attempt + 1))) [
    | inl last ↦ ground (arith, reflect-should_retry step.description o (attempt + 1))
    | inr more ↦ ground (
      arith,
      reflect-should_retry step.description o (attempt + 1),
      repair_from-attempts left (attempt + 1) step (simulate S D step) (ground arith),
    )
  ]

  repair_from-passed :
      (n : ℕ) (step : PlanStep) (o : VerificationOutcome)
      → (repair_from S D n 0 step o).0.passed
        ≡ (o.passed || (ltb 0 n && (simulate S D step).passed))
  unfolding repair_from
  repair_from-passed zero step o = ground arith
  repair_from-passed (suc n) step o =
      ground (arith, reflect-should_retry step.description o 1, repair_from-simulate n 1 step)

  -- The repair of a step ends after at most three attempts, and no more than it is allowed. With any
  -- attempt allowed it passes exactly where the first verification passes or the step's policy
  -- accepts the output `PASS` with exit code 0, whatever the step has done.
  pub repair-passed :
      (l : RepairLoop) (step : PlanStep) (last_output : String) (exit_code : Option ℤ)
      → ((repair S D l step last_output exit_code).0.passed ≡ (
          (verify_step D step last_output exit_code).passed
          || (ltb 0 l.max_attempts && (simulate S D step).passed)))
        × ((repair S D l step last_output exit_code).2 ≤ min l.max_attempts 3)
  unfolding repair
  repair-passed l step last_output exit_code =
      let o = verify_step D step last_output exit_code in
      let few = repair_from-attempts l.max_attempts 0 step o (omega arith) in
      (repair_from-passed l.max_attempts step o, omega (arith, few.0, few.1))
