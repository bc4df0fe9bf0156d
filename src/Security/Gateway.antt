-- ===== src/Security/Gateway.antt =====
-- crates/tiny-mite-security/src/gateway.rs: the tool gateway. The clock and the fresh identifiers
-- are arguments.
pub mod Decisions
pub mod Trail
use tiny_mite.Crates.{Crates}
use tiny_mite.Security.Capability.{Capability, CapabilityToken, has, is_valid, capability_text}
use tiny_mite.Security.Policy.{SecurityPolicy, new_policy}
use tiny_mite.Security.Audit.{AuditLevel, AuditEntry, AuditLog, new_log, record_entry}
use tiny_mite.Tools.Definition.{RiskLevel, ToolDefinition, risk_level_text}
use tiny_mite.Prelude.{
  ℕ, Bool, true, false, not, ◌&&◌, ◌||◌, String, Option, some, none, List, [], ◌∷◌, ltb, concat,
  contains_text, if◌then◌else◌,
}

pub data GatewayDecision : Type 0 where
  authorized : GatewayDecision
  requires_approval denied : String → GatewayDecision

pub record ToolGateway (X : Crates) : Type 0 where
  pub policy : SecurityPolicy
  pub audit : AuditLog (AuditEntry X)

unfoldable pub risk_level_value : RiskLevel → ℕ
risk_level_value RiskLevel.none = 0
risk_level_value RiskLevel.low = 1
risk_level_value RiskLevel.medium = 2
risk_level_value RiskLevel.high = 3
risk_level_value RiskLevel.critical = 4

-- `required_caps`, by the tool's name.
unfoldable pub required_caps : String → List Capability
required_caps name =
    if contains_text "compile" name || contains_text "run" name || contains_text "execute" name
    then Capability.code_execution ∷ Capability.shell_execute ∷ []
    else if contains_text "deploy" name || contains_text "network" name
    then Capability.network_access ∷ []
    else if contains_text "write" name || contains_text "save" name
    then Capability.filesystem_read ∷ Capability.filesystem_write ∷ []
    else if contains_text "read" name || contains_text "file" name
    then Capability.filesystem_read ∷ []
    else []

module _ (X : Crates) where
  unfoldable pub new_gateway : ToolGateway X
  new_gateway = record { policy = new_policy; audit = new_log 10000 }

  -- The first capability of the list that the token lacks.
  unfoldable pub missing_cap : CapabilityToken X → List Capability → Option Capability
  missing_cap t [] = none
  missing_cap t (cap ∷ caps) =
      let rest = missing_cap t caps in if not (has X t cap) then some cap else rest

  -- What a call reads from outside: the clock when the token is checked and when the entry is
  -- written, and the entry's identifier.
  pub record Reading : Type 0 where
    pub checked_at : X.Time
    pub recorded_at : X.Time
    pub entry_id : X.Uuid

  -- The entries of `audit_allow`, `audit_deny` and `audit_approval`.
  audit_entry : Reading → AuditLevel → String → String → Bool → String → AuditEntry X
  audit_entry r level name subject allowed description = record {
    id = X.uuid_text r.entry_id;
    timestamp = r.recorded_at;
    level = level;
    operation = concat "tool:" name;
    subject = subject;
    correlation_id = none;
    allowed = allowed;
    description = description;
    details = none;
  }

  unfoldable pub audit_allow : Reading → String → String → AuditEntry X
  unfolding audit_entry
  audit_allow r name subject =
      audit_entry r AuditLevel.info name subject true (concat "Authorized: " name)

  unfoldable pub audit_deny : Reading → String → String → String → AuditEntry X
  unfolding audit_entry
  audit_deny r name subject reason =
      audit_entry r AuditLevel.warning name subject false (concat "Denied: " reason)

  unfoldable pub audit_approval : Reading → String → String → AuditEntry X
  unfolding audit_entry
  audit_approval r name subject =
      audit_entry r AuditLevel.info name subject false (concat "Requires approval: " name)

  -- The checks of `authorize` in order, with the decision and the entry that it audits.
  unfoldable pub decide_call :
      SecurityPolicy
      → Reading
      → ToolDefinition X
      → CapabilityToken X
      → String
      → GatewayDecision × AuditEntry X
  unfolding audit_allow audit_deny audit_approval
  decide_call policy r tool t subject =
      if not (is_valid X r.checked_at t)
      then (
        GatewayDecision.denied "Token is invalid",
        audit_deny r tool.name subject "Token invalid",
      )
      else if ltb t.max_risk_level (risk_level_value tool.risk_level)
      then (
        GatewayDecision.denied
            (concat "Risk " (concat (risk_level_text tool.risk_level) " exceeds token max")),
        audit_deny r tool.name subject "Risk level exceeded",
      )
      else elim (missing_cap t (required_caps tool.name)) [
        | some cap ↦ (
          GatewayDecision.denied (concat "Missing capability: " (capability_text cap)),
          audit_deny r tool.name subject (concat "Missing capability: " (capability_text cap)),
        )
        | none ↦
            if tool.requires_approval
              && ltb policy.auto_approve_risk_limit (risk_level_value tool.risk_level)
            then (
              GatewayDecision.requires_approval
                  (concat "Tool '" (concat tool.name "' requires user approval")),
              audit_approval r tool.name subject,
            )
            else (GatewayDecision.authorized, audit_allow r tool.name subject)
      ]

  -- `authorize`; `none` is the audit log's panic.
  unfoldable pub authorize :
      ToolGateway X
      → Reading
      → ToolDefinition X
      → CapabilityToken X
      → String
      → Option (GatewayDecision × ToolGateway X)
  authorize g r tool t subject =
      let (decision, entry) = decide_call g.policy r tool t subject in
      elim (record_entry g.audit entry) [
        | none ↦ none
        | some log ↦ some (decision, record g { audit = log })
      ]
