-- ===== src/Security/Capability.antt =====
-- crates/tiny-mite-security/src/capability.rs: capabilities and the tokens that carry them.
use tiny_mite.Crates.{Crates}
use tiny_mite.Prelude.{
  ℕ, ◌≡◌, Bool, true, false, not, ◌&&◌, ◌||◌, String, Option, some, none, List, [], ◌∷◌, ◌++◌,
  arith, IsEq, Discrete-eq, contains, contains-append, if◌then◌else◌, ◌===◌, Bool-cases, inl, inr,
}

pub data Capability : Type 0 where
  filesystem_read filesystem_write shell_execute network_access code_execution : Capability
  memory_read memory_write retrieval_access model_inference : Capability
  tool_registration policy_modification : Capability

unfoldable pub Capability-discrete : Discrete Capability
Capability-discrete = hlevel

instance abbrev pub capability_eq : IsEq Capability
capability_eq = Discrete-eq Capability-discrete

-- `impl Display for Capability`.
unfoldable pub capability_text : Capability → String
capability_text Capability.filesystem_read = "filesystem:read"
capability_text Capability.filesystem_write = "filesystem:write"
capability_text Capability.shell_execute = "shell:execute"
capability_text Capability.network_access = "network:access"
capability_text Capability.code_execution = "code:execute"
capability_text Capability.memory_read = "memory:read"
capability_text Capability.memory_write = "memory:write"
capability_text Capability.retrieval_access = "retrieval:access"
capability_text Capability.model_inference = "model:inference"
capability_text Capability.tool_registration = "tool:register"
capability_text Capability.policy_modification = "policy:modify"

pub record CapabilityToken (X : Crates) : Type 0 where
  pub id : String
  pub subject : String
  pub capabilities : List Capability
  pub correlation_id : X.Uuid
  pub expires_at : Option X.Time
  pub max_risk_level : ℕ
  pub is_active : Bool

module _ (X : Crates) where
  -- `CapabilityToken::new`; the two fresh identifiers are arguments.
  unfoldable pub new_token : String → X.Uuid → X.Uuid → CapabilityToken X
  new_token subject id cid = record {
    id = X.uuid_text id;
    subject = subject;
    capabilities = [];
    correlation_id = cid;
    expires_at = none;
    max_risk_level = 3;
    is_active = true;
  }

  unfoldable pub grant : CapabilityToken X → Capability → CapabilityToken X
  grant t cap =
      if not (contains t.capabilities cap)
      then record t { capabilities = t.capabilities ++ cap ∷ [] }
      else t

  unfoldable pub has : CapabilityToken X → Capability → Bool
  has t cap = contains t.capabilities cap

  unexpired : X.Time → Option X.Time → Bool
  unexpired now none = true
  unexpired now (some t) = X.before now t

  -- `is_valid`, at the clock's time.
  unfoldable pub is_valid : X.Time → CapabilityToken X → Bool
  unfolding unexpired
  is_valid now t = t.is_active && unexpired now t.expires_at

  unfoldable pub revoke : CapabilityToken X → CapabilityToken X
  revoke t = record t { is_active = false }

  -- A token holds a capability after a grant exactly if it is the one granted or was held before,
  -- and the grant leaves the validity of the token as it was.
  pub has-grant :
      (t : CapabilityToken X) (cap c : Capability) (now : X.Time)
      → (has (grant t cap) c ≡ (cap === c || has t c))
        × (is_valid now (grant t cap) ≡ is_valid now t)
  unfolding has grant is_valid
  has-grant t cap c now = elim (Bool-cases (contains t.capabilities cap)) [
    | inl old ↦ (ground (arith, capability_eq.beq_iff cap c), rw old)
    | inr new ↦ (ground (arith, contains-append t.capabilities (cap ∷ []) c), rw new)
  ]
