-- ===== src/Agents/Validator.antt =====
-- crates/tiny-mite-agents/src/validator.rs: the checks of a plan before it is executed, with the
-- capabilities of crates/tiny-mite-runtime/src/model.rs. A set of texts is a list; the order and the
-- repetitions are never read.
pub mod Cycles
pub mod Orphans
pub mod Whole
pub mod Verdict
pub mod Planned
use tiny_mite.Agents.Planner.{PlanStep}
use tiny_mite.Prelude.{
  Bool, true, false, ◌||◌, String, List, [], ◌∷◌, ◌++◌, if◌then◌else◌, contains, string_eq, ◌===◌,
  concat_all,
}

pub record ModelCapabilities : Type 0 where
  pub text_generation : Bool
  pub chat : Bool
  pub tool_calling : Bool
  pub structured_output : Bool
  pub embeddings : Bool
  pub reranking : Bool
  pub vision : Bool
  pub audio : Bool
  pub reasoning : Bool
  pub speculative_decoding : Bool
  pub grammar_constrained_output : Bool

unfoldable pub can_generate : ModelCapabilities → Bool
can_generate c = c.text_generation || c.chat

unfoldable pub can_use_tools : ModelCapabilities → Bool
can_use_tools c = c.tool_calling || c.structured_output

pub record ValidationResult : Type 0 where
  pub valid : Bool
  pub errors : List String
  pub warnings : List String
  pub capabilities_satisfied : Bool

-- `ValidationResult::new`.
unfoldable pub new_result : ValidationResult
new_result = record { valid = true; errors = []; warnings = []; capabilities_satisfied = true }

abbrev pub no_text : List String → Bool
no_text [] = true
no_text (_ ∷ _) = false

unfoldable pub is_ok : ValidationResult → Bool
is_ok r = no_text r.errors

unfoldable pub push_error : String → ValidationResult → ValidationResult
push_error e r = record r { errors = r.errors ++ (e ∷ []); valid = false }

unfoldable pub push_warning : String → ValidationResult → ValidationResult
push_warning w r = record r { warnings = r.warnings ++ (w ∷ []) }

-- The match on the name of a capability.
unfoldable pub available : ModelCapabilities → String → Bool
available c cap =
    if cap === "text_generation"
    then c.text_generation
    else if cap === "chat"
    then c.chat
    else if cap === "tool_calling"
    then c.tool_calling
    else if cap === "structured_output"
    then c.structured_output
    else if cap === "embeddings"
    then c.embeddings
    else if cap === "reranking"
    then c.reranking
    else if cap === "vision"
    then c.vision
    else if cap === "audio"
    then c.audio
    else if cap === "reasoning"
    then c.reasoning
    else if cap === "speculative_decoding"
    then c.speculative_decoding
    else if cap === "grammar_constrained_output"
    then c.grammar_constrained_output
    else false

unfoldable pub missing_dependency : String → String → String
missing_dependency id dep =
    concat_all ("Step '" ∷ id ∷ "' depends on non-existent step '" ∷ dep ∷ "'" ∷ [])

unfoldable pub missing_capability : String → String → String
missing_capability id cap =
    concat_all ("Step '" ∷ id ∷ "' requires capability '" ∷ cap ∷ "' which is not available" ∷ [])

unfoldable pub lack_capability : String → ValidationResult → ValidationResult
lack_capability w r = record (push_warning w r) { capabilities_satisfied = false }

unfoldable pub check_dependencies :
    List String → String → List String → ValidationResult → ValidationResult
check_dependencies step_ids id [] r = r
check_dependencies step_ids id (dep ∷ deps) r =
    check_dependencies step_ids id deps
      (if contains step_ids dep then r else push_error (missing_dependency id dep) r)

unfoldable pub check_capabilities :
    ModelCapabilities → String → List String → ValidationResult → ValidationResult
check_capabilities c id [] r = r
check_capabilities c id (cap ∷ caps) r =
    check_capabilities c id caps
      (if available c cap then r else lack_capability (missing_capability id cap) r)

unfoldable pub validate_step :
    List String → ModelCapabilities → PlanStep → ValidationResult → ValidationResult
validate_step step_ids c s r =
    check_capabilities c s.id s.required_capabilities
      (check_dependencies step_ids s.id s.dependencies r)

-- The loop of `validate` over the steps.
unfoldable pub validate_steps :
    List String → ModelCapabilities → List PlanStep → ValidationResult → ValidationResult
validate_steps step_ids c [] r = r
validate_steps step_ids c (s ∷ steps) r =
    validate_steps step_ids c steps (validate_step step_ids c s r)
