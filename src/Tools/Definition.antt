-- ===== src/Tools/Definition.antt =====
-- crates/tiny-mite-tools/src/schema.rs and registry.rs: risk levels, parameter schemas, tool
-- definitions and tool results.
use tiny_mite.Crates.{Crates}
use tiny_mite.Prelude.{ℕ, Bool, true, false, String, Option, List, [], ◌∷◌, ◌++◌}

pub data RiskLevel : Type 0 where
  none low medium high critical : RiskLevel

-- `Debug` of a risk level.
unfoldable pub risk_level_text : RiskLevel → String
risk_level_text RiskLevel.none = "None"
risk_level_text RiskLevel.low = "Low"
risk_level_text RiskLevel.medium = "Medium"
risk_level_text RiskLevel.high = "High"
risk_level_text RiskLevel.critical = "Critical"

-- `matches!(risk_level, RiskLevel::High | RiskLevel::Critical)`.
abbrev pub is_high_risk : RiskLevel → Bool
is_high_risk RiskLevel.high = true
is_high_risk RiskLevel.critical = true
is_high_risk _ = false

pub record ParameterSchema (X : Crates) : Type 0 where
  pub name : String
  pub description : String
  pub required : Bool
  pub param_type : String
  pub default : Option X.Json

pub record ToolDefinition (X : Crates) : Type 0 where
  pub id : X.Uuid
  pub name : String
  pub description : String
  pub risk_level : RiskLevel
  pub input_schema : List (ParameterSchema X)
  pub output_description : String
  pub supports_cancellation : Bool
  pub timeout_ms : ℕ
  pub requires_approval : Bool
  pub capabilities : List String

-- `i32` exit codes are 0 or 1 here, so a number serves.
pub record ToolResult (X : Crates) : Type 0 where
  pub tool_id : X.Uuid
  pub success : Bool
  pub output : String
  pub error : Option String
  pub exit_code : Option ℕ
  pub duration_ms : ℕ
  pub cancelled : Bool

module _ (X : Crates) where
  -- `ToolDefinition::new`.
  unfoldable pub new_tool : X.Uuid → String → String → RiskLevel → ToolDefinition X
  new_tool id name description risk_level = record {
    id = id;
    name = name;
    description = description;
    risk_level = risk_level;
    input_schema = [];
    output_description = "";
    supports_cancellation = false;
    timeout_ms = 30000;
    requires_approval = is_high_risk risk_level;
    capabilities = [];
  }

  unfoldable pub with_param : ToolDefinition X → ParameterSchema X → ToolDefinition X
  with_param t p = record t { input_schema = t.input_schema ++ p ∷ [] }

  unfoldable pub with_cancellation : ToolDefinition X → Bool → ToolDefinition X
  with_cancellation t enabled = record t { supports_cancellation = enabled }

  unfoldable pub with_capabilities : ToolDefinition X → List String → ToolDefinition X
  with_capabilities t caps = record t { capabilities = caps }

  unfoldable pub success_result : X.Uuid → String → ℕ → ToolResult X
  success_result id output duration_ms = record {
    tool_id = id;
    success = true;
    output = output;
    error = Option.none;
    exit_code = Option.some 0;
    duration_ms = duration_ms;
    cancelled = false;
  }

  unfoldable pub failure_result : X.Uuid → String → ℕ → ToolResult X
  failure_result id error duration_ms = record {
    tool_id = id;
    success = false;
    output = "";
    error = Option.some error;
    exit_code = Option.some 1;
    duration_ms = duration_ms;
    cancelled = false;
  }

  unfoldable pub cancelled_result : X.Uuid → ℕ → ToolResult X
  cancelled_result id duration_ms = record {
    tool_id = id;
    success = false;
    output = "";
    error = Option.some "Cancelled";
    exit_code = Option.none;
    duration_ms = duration_ms;
    cancelled = true;
  }
