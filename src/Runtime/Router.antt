-- ===== src/Runtime/Router.antt =====
-- crates/tiny-mite-runtime/src/router.rs: the choice of a provider. Providers are an interface; the
-- outcome of their health checks at a time is an argument.
pub mod Choice
use tiny_mite.Crates.{Crates}
use tiny_mite.Agents.Validator.{ModelCapabilities}
use tiny_mite.Prelude.{
  ℕ, Bool, true, false, not, ◌&&◌, String, Option, none, some, List, [], ◌∷◌, ◌++◌, length, retain,
  map, if◌then◌else◌, Result, ok, err, lookup, insert, string_eq, concat_all,
}

-- `ModelProvider`, as far as the router calls it.
pub record Providers : Type 1 where
  pub Provider : Type 0
  pub Request : Type 0
  pub Response : Type 0
  pub ProviderError : Type 0
  pub internal : String → ProviderError
  pub provider_capabilities : Provider → ModelCapabilities
  pub respond : Provider → Request → Result ProviderError Response

module _ (X : Crates) (V : Providers) where
  open V use {Provider, Request, Response, ProviderError, internal, provider_capabilities, respond}

  -- The models of a provider are never filled in here.
  pub record ProviderEntry : Type 0 where
    pub provider : Provider
    pub healthy : Bool
    pub last_checked : X.Time

  pub record ModelRouter : Type 0 where
    pub providers : List (String × ProviderEntry)
    pub preference_order : List String

  -- `ModelRouter::new`.
  unfoldable pub new_router : ModelRouter
  new_router = record { providers = []; preference_order = [] }

  unfoldable pub register_provider :
      (Provider → Bool) → X.Time → String → Provider → ModelRouter → ModelRouter
  register_provider health now name p r = record {
    providers =
        insert name (record { provider = p; healthy = health p; last_checked = now }) r.providers;
    preference_order = r.preference_order ++ (name ∷ []);
  }

  -- `satisfies`: what the provider has, and what is needed.
  unfoldable pub satisfies : ModelCapabilities → ModelCapabilities → Bool
  satisfies have need =
      if need.text_generation && not have.text_generation
      then false
      else if need.chat && not have.chat
      then false
      else if need.tool_calling && not have.tool_calling
      then false
      else if need.embeddings && not have.embeddings
      then false
      else if need.reasoning && not have.reasoning
      then false
      else true

  unfoldable pub usable : ModelCapabilities → ProviderEntry → Bool
  usable need e = if e.healthy then satisfies (provider_capabilities e.provider) need else false

  -- The loop over the preferred names.
  unfoldable pub first_preferred :
      ModelCapabilities → List (String × ProviderEntry) → List String → Option String
  first_preferred need providers [] = none
  first_preferred need providers (name ∷ names) =
      let rest = first_preferred need providers names in
      elim (lookup name providers) [
        | none ↦ rest
        | some e ↦ if usable need e then some name else rest
      ]

  -- The loop over all providers.
  unfoldable pub first_usable : ModelCapabilities → List (String × ProviderEntry) → Option String
  first_usable need [] = none
  first_usable need ((name, e) ∷ providers) =
      let rest = first_usable need providers in if usable need e then some name else rest

  unfoldable pub find_provider_name : ModelCapabilities → ModelRouter → Option String
  find_provider_name need r = elim (first_preferred need r.providers r.preference_order) [
    | some name ↦ some name
    | none ↦ first_usable need r.providers
  ]

  unfoldable pub find_provider :
      ModelCapabilities → ModelRouter → Option (String × ModelCapabilities)
  find_provider need r = elim (find_provider_name need r) [
    | none ↦ none
    | some name ↦ elim (lookup name r.providers) [
      | none ↦ none
      | some e ↦ some (name, provider_capabilities e.provider)
    ]
  ]

  unfoldable pub check_provider : String → ModelCapabilities → ModelRouter → Bool
  check_provider name need r = elim (lookup name r.providers) [
    | none ↦ false
    | some e ↦ usable need e
  ]

  -- An entry that fails its check keeps the time of the last one.
  unfoldable pub check_entry : (Provider → Bool) → X.Time → ProviderEntry → ProviderEntry
  check_entry health now e =
      if health e.provider
      then record e { healthy = true; last_checked = now }
      else record e { healthy = false }

  unfoldable pub health_check_all : (Provider → Bool) → X.Time → ModelRouter → ModelRouter
  health_check_all health now r = record r {
    providers = map (λ p. (p.0, check_entry health now (p.1))) r.providers;
  }

  unfoldable pub generate :
      ModelCapabilities → Request → ModelRouter → Result ProviderError Response
  generate need request r = elim (find_provider_name need r) [
    | none ↦ err (internal "No matching healthy provider found")
    | some name ↦ elim (lookup name r.providers) [
      | none ↦ err (internal (concat_all ("Provider '" ∷ name ∷ "' disappeared" ∷ [])))
      | some e ↦ respond e.provider request
    ]
  ]

  unfoldable pub healthy_count : ModelRouter → ℕ
  healthy_count r = length (retain (λ p. p.1.healthy) r.providers)

  unfoldable pub provider_names : ModelRouter → List String
  provider_names r = map (λ p. p.0) r.providers

  unfoldable pub set_preference : List String → ModelRouter → ModelRouter
  set_preference order r = record r { preference_order = order }
