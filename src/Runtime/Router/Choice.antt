-- ===== src/Runtime/Router/Choice.antt =====
-- Which provider the router chooses.
use tiny_mite.Crates.{Crates}
use tiny_mite.Agents.Validator.{ModelCapabilities}
use tiny_mite.Runtime.Router.{
  Providers, ProviderEntry, ModelRouter, usable, first_preferred, first_usable, find_provider_name,
  generate,
}
use tiny_mite.Prelude.{
  ◌≡◌, refl, true, false, String, none, some, List, [], ◌∷◌, arith, IsIn, here, there, IsIn-cases,
  not_in_nil, Bool-cases, Option-cases, inl, inr, ◌⊎◌, lookup, string_eq, ◌===◌, eq_iff, err,
  is_some, ap, sym, ◌∙◌, subst,
}

module _ (X : Crates) (V : Providers) where
  -- The name is that of a registered provider that is healthy and has what is needed.
  pub record Serves (need : ModelCapabilities) (r : List (String × ProviderEntry X V))
      (name : String) : Type 0 where
    pub entry : ProviderEntry X V
    pub registered : IsIn (name, entry) r
    pub fit : usable X V need entry ≡ true

  lookup-IsIn :
      (name : String) (r : List (String × ProviderEntry X V)) (e : ProviderEntry X V)
      → lookup name r ≡ some e
      → IsIn (name, e) r
  unfolding lookup
  lookup-IsIn name [] e h = absurd (ground arith)
  lookup-IsIn name ((j, v) ∷ r) e h = elim (Bool-cases (j === name)) [
    | inl s ↦
        let value : v ≡ e = ground arith in
        here (ap (λ k. (k, e)) (sym ((eq_iff j name).0 s)) ∙ ap (λ w. (j, w)) (sym value))
    | inr d ↦ there (lookup-IsIn name r e (ground arith))
  ]

  first_preferred-Serves :
      (need : ModelCapabilities) (r : List (String × ProviderEntry X V)) (names : List String)
      (name : String)
      → first_preferred X V need r names ≡ some name
      → Serves need r name
  unfolding first_preferred
  first_preferred-Serves need r [] name h = absurd (ground arith)
  first_preferred-Serves need r (n ∷ names) name h = elim (Option-cases (lookup n r)) [
    | inl e ↦ first_preferred-Serves need r names name (ground arith)
    | inr (v, e) ↦ elim (Bool-cases (usable X V need v)) [
      | inr u ↦ first_preferred-Serves need r names name (ground arith)
      | inl u ↦ record {
        entry = v;
        registered = lookup-IsIn name r v (subst (λ k. lookup k r ≡ some v) (ground arith) e);
        fit = u;
      }
    ]
  ]

  first_usable-Serves :
      (need : ModelCapabilities) (r : List (String × ProviderEntry X V)) (name : String)
      → first_usable X V need r ≡ some name
      → Serves need r name
  unfolding first_usable
  first_usable-Serves need [] name h = absurd (ground arith)
  first_usable-Serves need ((j, v) ∷ r) name h = elim (Bool-cases (usable X V need v)) [
    | inl u ↦
        let same : j ≡ name = ground arith in
        record { entry = v; registered = here (ap (λ k. (k, v)) (sym same)); fit = u }
    | inr u ↦
        let s = first_usable-Serves need r name (ground arith) in
        record { entry = s.entry; registered = there s.registered; fit = s.fit }
  ]

  first_usable-none :
      (need : ModelCapabilities) (r : List (String × ProviderEntry X V)) (name : String)
      (e : ProviderEntry X V)
      → first_usable X V need r ≡ none
      → IsIn (name, e) r
      → usable X V need e ≡ false
  unfolding first_usable
  first_usable-none need [] name e h m = absurd (not_in_nil m)
  first_usable-none need ((j, v) ∷ r) name e h m = elim (Bool-cases (usable X V need v)) [
    | inl u ↦ absurd (ground arith)
    | inr u ↦ elim (IsIn-cases m) [
      | inl same ↦ ap (λ p. usable X V need (p.1)) same ∙ u
      | inr later ↦ first_usable-none need r name e (ground arith) later
    ]
  ]

  IsIn-lookup :
      (name : String) (r : List (String × ProviderEntry X V)) (e : ProviderEntry X V)
      → IsIn (name, e) r
      → is_some (lookup name r) ≡ true
  unfolding lookup
  IsIn-lookup name [] e m = absurd (not_in_nil m)
  IsIn-lookup name ((j, v) ∷ r) e m = elim (Bool-cases (j === name)) [
    | inl s ↦ ground arith
    | inr d ↦ elim (IsIn-cases m) [
      | inl same ↦ absurd (ground (arith, eq_iff j name, ap (λ p. p.0) same))
      | inr later ↦ ground (arith, IsIn-lookup name r e later)
    ]
  ]

  -- None of the registered providers is usable.
  pub record NoneUsable (need : ModelCapabilities) (r : ModelRouter X V) : Type 0 where
    pub unfit :
        (name : String) (e : ProviderEntry X V)
        → IsIn (name, e) r.providers
        → usable X V need e ≡ false

  -- Either the router returns the name of a registered provider that is healthy and has what the
  -- router compares, or it returns none and no registered provider is such; the order of preference
  -- never hides one.
  pub find_provider_name_cases :
      (need : ModelCapabilities) (r : ModelRouter X V)
      → ((name : String) × ((find_provider_name X V need r ≡ some name)
            × Serves need r.providers name))
        ⊎ ((find_provider_name X V need r ≡ none) × NoneUsable need r)
  unfolding find_provider_name
  find_provider_name_cases need r =
      elim (Option-cases (first_preferred X V need r.providers r.preference_order)) [
        | inr (n, e) ↦ inl (
          n,
          (
            rw (e, find_provider_name) refl,
            first_preferred-Serves need r.providers r.preference_order n e,
          ),
        )
        | inl e ↦ elim (Option-cases (first_usable X V need r.providers)) [
          | inr (n, f) ↦
              inl (n, (rw (e, find_provider_name) f, first_usable-Serves need r.providers n f))
          | inl f ↦ inr (
            rw (e, find_provider_name) f,
            record { unfit = λ name v m. first_usable-none need r.providers name v f m },
          )
        ]
      ]

  -- How a request is answered: by a provider registered under the name that the router chooses, or
  -- not at all because it chooses none.
  pub record Answers (need : ModelCapabilities) (request : V.Request) (r : ModelRouter X V)
      : Type 0 where
    pub answered :
        (find_provider_name X V need r ≡ none)
          × (generate X V need request r ≡ err (V.internal "No matching healthy provider found"))
        ⊎ ((name : String) × ((e : ProviderEntry X V) × ((find_provider_name X V need r ≡ some name)
                × (IsIn (name, e) r.providers
                    × (generate X V need request r ≡ V.respond e.provider request)))))

  -- A request is answered as a provider registered under the chosen name answers it, or refused
  -- because the router finds none; the error of a provider that has disappeared never comes about.
  pub generate-Answers :
      (need : ModelCapabilities) (request : V.Request) (r : ModelRouter X V)
      → Answers need request r
  unfolding generate
  generate-Answers need request r = elim (find_provider_name_cases need r) [
    | inr (e, _) ↦ record { answered = inl (e, rw (e, generate) refl) }
    | inl (name, (e, s)) ↦ elim (Option-cases (lookup name r.providers)) [
      | inl l ↦ absurd (ground (arith, IsIn-lookup name r.providers s.entry s.registered))
      | inr (v, l) ↦ record {
        answered =
            inr (name, (v, (e, (lookup-IsIn name r.providers v l, rw (e, l, generate) refl))));
      }
    ]
  ]
