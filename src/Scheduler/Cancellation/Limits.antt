-- ===== src/Scheduler/Cancellation/Limits.antt =====
-- What a cancellation does not do: act twice, reach further than children, or reach later children.
use tiny_mite.Crates.{Crates}
use tiny_mite.Scheduler.Cancellation.{
  CancelReason, TokenState, Store, set_flags, children_of, cancel, is_cancelled, add_child,
}
use tiny_mite.Scheduler.Cancellation.Propagation.{
  lookup-set_flags, children_of-set_flags, cancel_children-none, children_of-cancel_children,
  cancel_frame, cancel_reaches, cancel_settled,
}
use tiny_mite.Prelude.{
  ℕ, ◌≡◌, ◌≢◌, sym, ◌∙◌, ◌⊎◌, inl, inr, true, false, String, some, none, [], ◌∷◌, ◌++◌, arith,
  adjust, lookup, lookup-adjust, contains, ◌==◌, ==_iff, nat_eq, Bool-cases, Option-cases,
}

module _ (X : Crates) where
  children_of-cancel :
      (m : Store X) (t j : ℕ) (r : CancelReason X) (src : String) (now : X.Time)
      (reads : ℕ → X.Uuid × X.Time)
      → children_of X (cancel X m t r src now reads) j ≡ children_of X m j
  unfolding cancel
  children_of-cancel m t j r src now reads =
      children_of-cancel_children X reads (set_flags X m t r src now) _ j
      ∙ children_of-set_flags X m t j r src now

  cancel_none :
      (m : Store X) (t j : ℕ) (r : CancelReason X) (src : String) (now : X.Time)
      (reads : ℕ → X.Uuid × X.Time)
      → lookup j m ≡ none
      → lookup j (cancel X m t r src now reads) ≡ none
  unfolding cancel
  cancel_none m t j r src now reads e =
      cancel_children-none X reads (set_flags X m t r src now) _ j
        (ground (arith, lookup-set_flags X m t j r src now))

  touched :
      (m : Store X) (t j : ℕ)
      → ((t ≡ j) ⊎ (contains (children_of X m t) j ≡ true))
        ⊎ ((t ≢ j) × (contains (children_of X m t) j ≡ false))
  touched m t j = elim (Bool-cases (t == j)) [
    | inl h ↦ inl (inl ((==_iff t j).0 h))
    | inr h ↦ elim (Bool-cases (contains (children_of X m t) j)) [
      | inl c ↦ inl (inr c)
      | inr c ↦ inr (λ e. ground arith, c)
    ]
  ]

  -- No cancellation takes a token out of the store.
  pub cancel_tracks :
      (m : Store X) (t j : ℕ) (r : CancelReason X) (src : String) (now : X.Time)
      (reads : ℕ → X.Uuid × X.Time) (s : TokenState X)
      → lookup j m ≡ some s
      → (s' : TokenState X) × (lookup j (cancel X m t r src now reads) ≡ some s')
  cancel_tracks m t j r src now reads s e = elim (touched m t j) [
    | inl hit ↦ let (s', e', _) = cancel_reaches X m t j r src now reads s e hit in (s', e')
    | inr (apart, outside) ↦ (s, cancel_frame X m t j r src now reads apart outside ∙ e)
  ]

  -- To cancel a token again, for whatever reason, changes no token of the store.
  pub cancel_twice :
      (m : Store X) (t j : ℕ) (r r' : CancelReason X) (src src' : String) (now now' : X.Time)
      (reads reads' : ℕ → X.Uuid × X.Time)
      → lookup j (cancel X (cancel X m t r src now reads) t r' src' now' reads')
        ≡ lookup j (cancel X m t r src now reads)
  cancel_twice m t j r r' src src' now now' reads reads' =
      let once = cancel X m t r src now reads in
      elim (Option-cases (lookup j m)) [
        | inl e ↦
            let still = cancel_none m t j r src now reads e in
            cancel_none once t j r' src' now' reads' still ∙ sym still
        | inr (s, e) ↦ elim (touched m t j) [
          | inl hit ↦
              let (s', e', settled) = cancel_reaches X m t j r src now reads s e hit in
              cancel_settled X once t j r' src' now' reads' s' e' settled ∙ sym e'
          | inr (apart, outside) ↦
              cancel_frame X once t j r' src' now' reads' apart
                (rw (children_of-cancel m t t r src now reads) outside)
        ]
      ]

  -- A child of a child that is not itself a child of the cancelled token stays uncancelled, although
  -- its own parent has become cancelled.
  pub grandchild_missed :
      (m : Store X) (t child j : ℕ) (r : CancelReason X) (src : String) (now : X.Time)
      (reads : ℕ → X.Uuid × X.Time) (sc sj : TokenState X)
      → contains (children_of X m t) child ≡ true
      → contains (children_of X m child) j ≡ true
      → contains (children_of X m t) j ≡ false
      → t ≢ j
      → lookup child m ≡ some sc
      → lookup j m ≡ some sj
      → sj.cancelled ≡ false
      → (is_cancelled X (cancel X m t r src now reads) child ≡ true)
        × (contains (children_of X (cancel X m t r src now reads) child) j ≡ true)
        × (is_cancelled X (cancel X m t r src now reads) j ≡ false)
  unfolding is_cancelled
  grandchild_missed m t child j r src now reads sc sj h hj out apart e ej live =
      let (s', e', settled) = cancel_reaches X m t child r src now reads sc e (inr h) in
      (
        ground (arith, settled.done),
        rw (children_of-cancel m t child r src now reads) hj,
        ground (arith, cancel_frame X m t j r src now reads apart out),
      )

  -- To add a child changes no token's cancellation: a child of a token that is already cancelled is
  -- not cancelled with it.
  pub is_cancelled-add_child :
      (m : Store X) (t child j : ℕ) → is_cancelled X (add_child X m t child) j ≡ is_cancelled X m j
  unfolding is_cancelled add_child
  is_cancelled-add_child m t child j = ground (
    arith,
    lookup-adjust child j (λ (s : TokenState X). record s { parent = some t }) m,
    lookup-adjust t j (λ (s : TokenState X). record s { children = s.children ++ child ∷ [] })
        (adjust child (λ s. record s { parent = some t }) m),
  )
