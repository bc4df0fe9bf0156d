-- ===== src/Security/Policy/Access.antt =====
-- What the access policies grant.
use tiny_mite.Crates.{Crates}
use tiny_mite.Security.Capability.{Capability, CapabilityToken, has, is_valid}
use tiny_mite.Security.Policy.{AccessPolicy, SecurityPolicy, is_satisfied_by, can_access}
use tiny_mite.Prelude.{
  ◌≡◌, refl, ◌↔◌, ◌⊎◌, inl, inr, true, false, String, some, List, [], ◌∷◌, arith, all, All, lookup,
  Option-cases, string_eq,
}

module _ (X : Crates) where
  -- The token holds every listed capability.
  abbrev pub HoldsAll : CapabilityToken X → List Capability → Type 0
  HoldsAll t = All (λ cap. has X t cap ≡ true)

  all-has_iff :
      (t : CapabilityToken X) (caps : List Capability)
      → (all (λ cap. has X t cap) caps ≡ true) ↔ HoldsAll t caps
  all-has_iff t [] = (λ _. tt, λ _. refl)
  all-has_iff t (cap ∷ caps) =
      (λ h. ground (arith, (all-has_iff t caps).0), λ h. ground (arith, (all-has_iff t caps).1 h.1))

  -- When a policy lets a token through.
  abbrev pub Satisfies : X.Time → AccessPolicy → CapabilityToken X → Type 0
  Satisfies now a t = (a.active ≡ false) ⊎ ((is_valid X now t ≡ true) × HoldsAll t a.required_caps)

  is_satisfied_by_iff :
      (now : X.Time) (a : AccessPolicy) (t : CapabilityToken X)
      → (is_satisfied_by X now a t ≡ true) ↔ Satisfies now a t
  unfolding is_satisfied_by
  is_satisfied_by_iff now a t = (
    λ h. ground (arith, (all-has_iff t a.required_caps).0),
    λ h. ground (arith, (all-has_iff t a.required_caps).1),
  )

  -- A resource is open to a token exactly if it has a policy that is inactive, or whose
  -- capabilities the token all holds while valid: no policy means no access.
  pub can_access_iff :
      (now : X.Time) (p : SecurityPolicy) (resource : String) (t : CapabilityToken X)
      → (can_access X now p resource t ≡ true)
        ↔ ((a : AccessPolicy) × (lookup resource p.policies ≡ some a) × Satisfies now a t)
  unfolding can_access
  can_access_iff now p resource t = elim (Option-cases (lookup resource p.policies)) [
    | inl e ↦ (λ h. ground arith, λ (a, f, s). ground arith)
    | inr (a, e) ↦ (
      λ h. (a, e, (is_satisfied_by_iff now a t).0 (rw (e, can_access) at h)),
      λ (b, f, s). rw (f, can_access) ((is_satisfied_by_iff now b t).1 s),
    )
  ]
