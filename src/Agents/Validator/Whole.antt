-- ===== src/Agents/Validator/Whole.antt =====
-- `validate` of crates/tiny-mite-agents/src/validator.rs.
use tiny_mite.Agents.Planner.{Plan, PlanStep, ids}
use tiny_mite.Agents.Validator.{
  ModelCapabilities, ValidationResult, new_result, push_error, push_warning, validate_steps, is_ok,
}
use tiny_mite.Agents.Validator.Cycles.{has_circular_dependencies}
use tiny_mite.Agents.Validator.Orphans.{has_orphan_steps}
use tiny_mite.Prelude.{List, [], ◌∷◌, if◌then◌else◌}

unfoldable pub validate_structure : List PlanStep → ValidationResult → ValidationResult
validate_structure steps r =
    let checked =
      if has_circular_dependencies steps
      then push_error "Plan contains circular dependencies" r
      else r in
    if has_orphan_steps steps
    then push_warning
        "Plan contains steps with no execution path from the start. Consider reorganizing." checked
    else checked

-- `PlanValidator::validate`.
unfoldable pub validate_nonempty : List PlanStep → ModelCapabilities → ValidationResult
validate_nonempty steps c =
    let r = validate_structure steps (validate_steps (ids steps) c steps new_result) in
    record r { valid = is_ok r }

unfoldable pub validate_plan_steps : List PlanStep → ModelCapabilities → ValidationResult
validate_plan_steps [] c = push_error "Plan has no steps" new_result
validate_plan_steps (s ∷ steps) c = validate_nonempty (s ∷ steps) c

unfoldable pub validate_plan : Plan → ModelCapabilities → ValidationResult
validate_plan p c = validate_plan_steps p.steps c
