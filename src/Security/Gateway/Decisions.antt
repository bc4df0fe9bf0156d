-- ===== src/Security/Gateway/Decisions.antt =====
-- When the gateway authorizes a call.
use tiny_mite.Crates.{Crates}
use tiny_mite.Security.Capability.{Capability, CapabilityToken, is_valid}
use tiny_mite.Security.Policy.{SecurityPolicy}
use tiny_mite.Security.Policy.Access.{HoldsAll}
use tiny_mite.Security.Gateway.{
  GatewayDecision, Reading, risk_level_value, required_caps, missing_cap, decide_call,
}
use tiny_mite.Tools.Definition.{ToolDefinition}
use tiny_mite.Prelude.{◌≤◌, ◌≡◌, refl, ◌↔◌, ◌⊎◌, true, false, String, none, List, [], ◌∷◌, arith}

module _ (X : Crates) where
  missing_cap_iff :
      (t : CapabilityToken X) (caps : List Capability)
      → (missing_cap X t caps ≡ none) ↔ HoldsAll X t caps
  unfolding missing_cap
  missing_cap_iff t [] = (λ _. tt, λ _. refl)
  missing_cap_iff t (cap ∷ caps) = (
    λ h. ground (arith, (missing_cap_iff t caps).0),
    λ h. ground (arith, (missing_cap_iff t caps).1 h.1),
  )

  -- What a call needs to be authorized.
  pub record Permitted (policy : SecurityPolicy) (now : X.Time) (tool : ToolDefinition X)
      (t : CapabilityToken X) : Type 0 where
    pub valid : is_valid X now t ≡ true
    pub risk_allowed : risk_level_value tool.risk_level ≤ t.max_risk_level
    pub caps_held : HoldsAll X t (required_caps tool.name)
    pub no_approval :
        (tool.requires_approval ≡ false)
        ⊎ (risk_level_value tool.risk_level ≤ policy.auto_approve_risk_limit)

  -- A call is authorized exactly if the token is valid, its risk limit admits the tool, it holds
  -- every capability that the tool's name requires, and the tool needs no approval or its risk is
  -- within the automatic limit.
  pub authorized_iff :
      (policy : SecurityPolicy) (r : Reading X) (tool : ToolDefinition X) (t : CapabilityToken X)
      (subject : String)
      → ((decide_call X policy r tool t subject).0 ≡ GatewayDecision.authorized)
        ↔ Permitted policy r.checked_at tool t
  unfolding decide_call
  authorized_iff policy r tool t subject = (
    λ h. ground (arith, (missing_cap_iff t (required_caps tool.name)).0),
    λ p. ground (arith, (missing_cap_iff t (required_caps tool.name)).1 p.caps_held),
  )

  -- The audited entry says that the call was allowed exactly if the decision is to authorize it.
  pub allowed_iff :
      (policy : SecurityPolicy) (r : Reading X) (tool : ToolDefinition X) (t : CapabilityToken X)
      (subject : String)
      → ((decide_call X policy r tool t subject).1.allowed ≡ true)
        ↔ ((decide_call X policy r tool t subject).0 ≡ GatewayDecision.authorized)
  unfolding decide_call
  allowed_iff policy r tool t subject = (λ h. ground arith, λ h. ground arith)
