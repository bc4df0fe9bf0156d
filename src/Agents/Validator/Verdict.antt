-- ===== src/Agents/Validator/Verdict.antt =====
-- When the validator accepts a plan.
use tiny_mite.Agents.Planner.{Plan, PlanStep, ids, plan_is_valid, step_count}
use tiny_mite.Agents.Validator.{
  ModelCapabilities, ValidationResult, new_result, is_ok, no_text, push_error, push_warning,
  missing_dependency, missing_capability, lack_capability, available, check_dependencies,
  check_capabilities, validate_step, validate_steps,
}
use tiny_mite.Agents.Validator.Whole.{
  validate_structure, validate_nonempty, validate_plan_steps, validate_plan,
}
use tiny_mite.Agents.Validator.Cycles.{has_circular_dependencies, IsCircular}
use tiny_mite.Agents.Validator.Cycles.Exact.{has_circular_dependencies-IsCircular}
use tiny_mite.Prelude.{
  ◌≡◌, ◌<◌, length, refl, Bool, true, false, not, ◌&&◌, String, List, [], ◌∷◌, ◌++◌, arith, all,
  contains, string_eq, ◌↔◌, Bool-cases, inl, inr,
}

no_text-append : (xs : List String) (x : String) → no_text (xs ++ (x ∷ [])) ≡ false
no_text-append [] x = refl
no_text-append (y ∷ ys) x = refl

-- What a round of checks does to a result: the errors stay empty exactly under the first test, the
-- capabilities are satisfied still exactly under the second.
record Judges (r : ValidationResult) (sound : Bool) (capable : Bool) (s : ValidationResult)
    : Type 0 where
  pub ok : is_ok s ≡ (is_ok r && sound)
  pub satisfied : s.capabilities_satisfied ≡ (r.capabilities_satisfied && capable)

Judges-then :
    {r s t : ValidationResult} {a b c d : Bool}
    → Judges r a b s
    → Judges s c d t
    → Judges r (a && c) (b && d) t
Judges-then j k = record {
  ok = ground (arith, j.ok, k.ok);
  satisfied = ground (arith, j.satisfied, k.satisfied);
}

push_error-Judges : (e : String) (r : ValidationResult) → Judges r false true (push_error e r)
unfolding push_error is_ok
push_error-Judges e r = record {
  ok = ground (arith, no_text-append r.errors e);
  satisfied = ground arith;
}

lack_capability-Judges :
    (w : String) (r : ValidationResult) → Judges r true false (lack_capability w r)
unfolding lack_capability push_warning is_ok
lack_capability-Judges w r = record { ok = ground arith; satisfied = ground arith }

module _ (step_ids : List String) (c : ModelCapabilities) where
  check_dependencies-Judges :
      (id : String) (deps : List String) (r : ValidationResult)
      → Judges r (all (contains step_ids) deps) true (check_dependencies step_ids id deps r)
  unfolding check_dependencies
  check_dependencies-Judges id [] r = record { ok = ground arith; satisfied = ground arith }
  check_dependencies-Judges id (dep ∷ deps) r = elim (Bool-cases (contains step_ids dep)) [
    | inl e ↦ rw e (check_dependencies-Judges id deps r)
    | inr e ↦
        let m = missing_dependency id dep in
        rw e
          (Judges-then (push_error-Judges m r) (check_dependencies-Judges id deps (push_error m r)))
  ]

  check_capabilities-Judges :
      (id : String) (caps : List String) (r : ValidationResult)
      → Judges r true (all (available c) caps) (check_capabilities c id caps r)
  unfolding check_capabilities
  check_capabilities-Judges id [] r = record { ok = ground arith; satisfied = ground arith }
  check_capabilities-Judges id (cap ∷ caps) r = elim (Bool-cases (available c cap)) [
    | inl e ↦ rw e (check_capabilities-Judges id caps r)
    | inr e ↦
        let w = missing_capability id cap in
        rw e (
          Judges-then (lack_capability-Judges w r)
            (check_capabilities-Judges id caps (lack_capability w r)))
  ]

  validate_steps-Judges :
      (steps : List PlanStep) (r : ValidationResult)
      → Judges r
          (all (λ s. all (contains step_ids) s.dependencies) steps)
          (all (λ s. all (available c) s.required_capabilities) steps)
          (validate_steps step_ids c steps r)
  unfolding validate_steps validate_step
  validate_steps-Judges [] r = record { ok = ground arith; satisfied = ground arith }
  validate_steps-Judges (s ∷ steps) r =
      let deps = check_dependencies-Judges s.id s.dependencies r in
      let checked = check_dependencies step_ids s.id s.dependencies r in
      let caps = check_capabilities-Judges s.id s.required_capabilities checked in
      let rest = validate_steps-Judges steps (validate_step step_ids c s r) in
      record {
        ok = ground (arith, deps.ok, caps.ok, rest.ok);
        satisfied = ground (arith, deps.satisfied, caps.satisfied, rest.satisfied);
      }

validate_structure-Judges :
    (steps : List PlanStep) (r : ValidationResult)
    → Judges r (not (has_circular_dependencies steps)) true (validate_structure steps r)
unfolding validate_structure push_warning is_ok
validate_structure-Judges steps r =
    let circular = push_error-Judges "Plan contains circular dependencies" r in
    record { ok = ground (arith, circular.ok); satisfied = ground (arith, circular.satisfied) }

abbrev no_steps : List PlanStep → Bool
no_steps [] = true
no_steps (_ ∷ _) = false

-- The three tests of the verdict on a plan.
abbrev pub accepts : List PlanStep → Bool
accepts steps =
    not (no_steps steps)
    && all (λ s. all (contains (ids steps)) s.dependencies) steps
    && not (has_circular_dependencies steps)

pub validate_plan_steps-valid :
    (steps : List PlanStep) (c : ModelCapabilities)
    → (validate_plan_steps steps c).valid ≡ accepts steps
unfolding validate_plan_steps validate_nonempty new_result push_error is_ok
validate_plan_steps-valid [] c = refl
validate_plan_steps-valid (s ∷ rest) c =
    let steps = s ∷ rest in
    let checked = validate_steps (ids steps) c steps new_result in
    ground (
      arith,
      (validate_steps-Judges (ids steps) c steps new_result).ok,
      (validate_structure-Judges steps checked).ok,
    )

pub validate_plan_steps-satisfied :
    (steps : List PlanStep) (c : ModelCapabilities)
    → 0 < length steps
    → (validate_plan_steps steps c).capabilities_satisfied
      ≡ all (λ s. all (available c) s.required_capabilities) steps
unfolding validate_plan_steps validate_nonempty new_result
validate_plan_steps-satisfied [] c h = absurd (omega arith)
validate_plan_steps-satisfied (s ∷ rest) c h =
    let steps = s ∷ rest in
    let checked = validate_steps (ids steps) c steps new_result in
    ground (
      arith,
      (validate_steps-Judges (ids steps) c steps new_result).satisfied,
      (validate_structure-Judges steps checked).satisfied,
    )

no_steps-length : (steps : List PlanStep) → (no_steps steps ≡ false) ↔ (0 < length steps)
no_steps-length [] = ground arith
no_steps-length (s ∷ steps) = ground arith

-- A plan is accepted exactly when it has a step, every dependency of a step is a step of the plan,
-- and no step depends on itself through a chain of dependencies between the steps, where of several
-- steps with one identifier only the last counts; the capabilities never decide it.
pub validate_plan_iff :
    (p : Plan) (c : ModelCapabilities)
    → ((validate_plan p c).valid ≡ true)
      ↔ ((0 < step_count p) × (plan_is_valid p ≡ true) × (IsCircular p.steps → ⊥))
unfolding validate_plan plan_is_valid step_count
validate_plan_iff p c =
    let verdict = validate_plan_steps-valid p.steps c in
    let exact = has_circular_dependencies-IsCircular p.steps in
    let some = no_steps-length p.steps in
    (
      λ h. (
        ground (arith, verdict, some),
        ground (arith, verdict),
        λ k. ground (arith, verdict, exact.1 k),
      ),
      λ (steps, deps, acyclic). elim (Bool-cases (has_circular_dependencies p.steps)) [
        | inl e ↦ absurd (acyclic (exact.0 e))
        | inr e ↦ ground (arith, verdict, some)
      ],
    )

-- The capabilities of a plan with a step are reported satisfied exactly when the model has every
-- capability that a step requires.
pub validate_plan-capabilities_satisfied :
    (p : Plan) (c : ModelCapabilities)
    → 0 < step_count p
    → (validate_plan p c).capabilities_satisfied
      ≡ all (λ s. all (available c) s.required_capabilities) p.steps
unfolding validate_plan step_count
validate_plan-capabilities_satisfied p c h = validate_plan_steps-satisfied p.steps c h
