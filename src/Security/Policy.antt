-- ===== src/Security/Policy.antt =====
-- crates/tiny-mite-security/src/policy.rs: access policies and the security policy.
pub mod Access
use tiny_mite.Crates.{Crates}
use tiny_mite.Security.Capability.{
  Capability, CapabilityToken, has, is_valid, grant, has-grant, capability_eq,
}
use tiny_mite.Prelude.{
  ℕ, ◌≡◌, refl, sym, ◌∙◌, ◌↔◌, ◌⊎◌, inl, inr, Bool, true, false, not, ◌&&◌, ◌||◌, String, Option,
  some, none, List, [], ◌∷◌, arith, all, All, lookup, insert, remove, lookup-insert, lookup-remove,
  string_eq, if◌then◌else◌, ◌===◌, Bool-cases, Option-cases,
}

pub record AccessPolicy : Type 0 where
  pub resource : String
  pub required_caps : List Capability
  pub require_approval : Bool
  pub allowed_paths : List String
  pub active : Bool

-- `AccessPolicy::requires`.
abbrev pub requires : String → List Capability → AccessPolicy
requires resource caps = record {
  resource = resource;
  required_caps = caps;
  require_approval = false;
  allowed_paths = [];
  active = true;
}

pub record SecurityPolicy : Type 0 where
  pub policies : List (String × AccessPolicy)
  pub network_requires : List Capability
  pub filesystem_requires : List Capability
  pub shell_requires : List Capability
  pub auto_approve_risk_limit : ℕ
  pub prompt_injection_defense : Bool

-- `SecurityPolicy::new`.
unfoldable pub new_policy : SecurityPolicy
unfolding insert
new_policy = record {
  policies = insert "network:access" (requires "network:access" (Capability.network_access ∷ [])) (
      insert "shell:execute" (requires "shell:execute" (Capability.shell_execute ∷ [])) (
        insert "filesystem:write"
          (requires "filesystem:write"
            (Capability.filesystem_read ∷ Capability.filesystem_write ∷ []))
          (insert "filesystem:read" (requires "filesystem:read" (Capability.filesystem_read ∷ []))
            [])));
  network_requires = Capability.network_access ∷ [];
  filesystem_requires = Capability.filesystem_read ∷ [];
  shell_requires = Capability.shell_execute ∷ [];
  auto_approve_risk_limit = 2;
  prompt_injection_defense = true;
}

unfoldable pub add_policy : SecurityPolicy → String → AccessPolicy → SecurityPolicy
add_policy p resource a = record p { policies = insert resource a p.policies }

unfoldable pub remove_policy : SecurityPolicy → String → SecurityPolicy
remove_policy p resource = record p { policies = remove resource p.policies }

module _ (X : Crates) where
  unfoldable pub is_satisfied_by : X.Time → AccessPolicy → CapabilityToken X → Bool
  is_satisfied_by now a t =
      if not a.active
      then true
      else if not (is_valid X now t)
      then false
      else all (λ cap. has X t cap) a.required_caps

  unfoldable pub can_access : X.Time → SecurityPolicy → String → CapabilityToken X → Bool
  unfolding is_satisfied_by
  can_access now p resource t = elim (lookup resource p.policies) [
    | some a ↦ is_satisfied_by now a t
    | none ↦ false
  ]
