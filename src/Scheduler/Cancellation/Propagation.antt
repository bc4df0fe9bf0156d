-- ===== src/Scheduler/Cancellation/Propagation.antt =====
-- Which tokens a cancellation reaches, what it records, and that it acts once.
use tiny_mite.Crates.{Crates}
use tiny_mite.Scheduler.Cancellation.{
  CancelReason, TokenState, Store, flagged, set_flags, cancel_children, children_of, cancel,
}
use tiny_mite.Prelude.{
  ℕ, ◌≡◌, ◌≢◌, refl, ◌∙◌, ◌⊎◌, inl, inr, true, false, String, some, none, List, [], ◌∷◌, arith,
  is_some, lookup, lookup-adjust, contains, ◌===◌, ◌==◌, nat_eq, if◌then◌else◌, Bool-cases,
  Option-cases,
}

module _ (X : Crates) where
  -- The token is cancelled and its reason, source and time are recorded.
  pub record IsSettled (s : TokenState X) : Type 0 where
    pub done : s.cancelled ≡ true
    pub has_reason : is_some s.reason ≡ true
    pub has_source : is_some s.source ≡ true
    pub has_time : is_some s.requested_at ≡ true

  flagged-IsSettled :
      (r : CancelReason X) (src : String) (now : X.Time) (s : TokenState X)
      → IsSettled (flagged X r src now s)
  unfolding flagged
  flagged-IsSettled r src now s = ground arith

  flagged_of_IsSettled :
      (r : CancelReason X) (src : String) (now : X.Time) (s : TokenState X)
      → IsSettled s
      → flagged X r src now s ≡ s
  unfolding flagged
  flagged_of_IsSettled r src now s h = ground arith

  pub lookup-set_flags :
      (m : Store X) (t j : ℕ) (r : CancelReason X) (src : String) (now : X.Time)
      → lookup j (set_flags X m t r src now) ≡ (
          if t === j
          then (elim (lookup j m) [ none ↦ none | some s ↦ some (flagged X r src now s) ])
          else lookup j m)
  unfolding set_flags
  lookup-set_flags m t j r src now = lookup-adjust t j (flagged X r src now) m

  -- Flags on a settled token change no token.
  set_flags-settled :
      (m : Store X) (t j : ℕ) (r : CancelReason X) (src : String) (now : X.Time) (s : TokenState X)
      → lookup j m ≡ some s
      → IsSettled s
      → lookup j (set_flags X m t r src now) ≡ some s
  set_flags-settled m t j r src now s e h =
      ground (arith, lookup-set_flags m t j r src now, flagged_of_IsSettled r src now s h)

  pub children_of-set_flags :
      (m : Store X) (t j : ℕ) (r : CancelReason X) (src : String) (now : X.Time)
      → children_of X (set_flags X m t r src now) j ≡ children_of X m j
  unfolding flagged
  children_of-set_flags m t j r src now = ground (arith, lookup-set_flags m t j r src now)

  module _ (reads : ℕ → X.Uuid × X.Time) where
    abbrev child_reason : ℕ → CancelReason X
    child_reason c = CancelReason.parent_cancelled (reads c).0

    abbrev flag_child : Store X → ℕ → Store X
    flag_child m c = set_flags X m c (child_reason c) "parent-cancellation" (reads c).1

    lookup-flag_child :
        (m : Store X) (c j : ℕ)
        → lookup j (flag_child m c) ≡ (
            if c === j
            then (elim (lookup j m) [
              | none ↦ none
              | some s ↦ some (flagged X (child_reason c) "parent-cancellation" (reads c).1 s)
            ])
            else lookup j m)
    lookup-flag_child m c j = lookup-set_flags m c j _ _ _

    cancel_children-frame :
        (m : Store X) (cs : List ℕ) (j : ℕ)
        → contains cs j ≡ false
        → lookup j (cancel_children X m reads cs) ≡ lookup j m
    unfolding cancel_children
    cancel_children-frame m [] j h = refl
    cancel_children-frame m (c ∷ cs) j h =
        cancel_children-frame (flag_child m c) cs j (ground arith)
        ∙ ground (arith, lookup-flag_child m c j)

    pub cancel_children-none :
        (m : Store X) (cs : List ℕ) (j : ℕ)
        → lookup j m ≡ none
        → lookup j (cancel_children X m reads cs) ≡ none
    unfolding cancel_children
    cancel_children-none m [] j e = e
    cancel_children-none m (c ∷ cs) j e =
        cancel_children-none (flag_child m c) cs j (ground (arith, lookup-flag_child m c j))

    cancel_children-settled :
        (m : Store X) (cs : List ℕ) (j : ℕ) (s : TokenState X)
        → lookup j m ≡ some s
        → IsSettled s
        → lookup j (cancel_children X m reads cs) ≡ some s
    unfolding cancel_children
    cancel_children-settled m [] j s e h = e
    cancel_children-settled m (c ∷ cs) j s e h =
        cancel_children-settled (flag_child m c) cs j s (set_flags-settled m c j _ _ _ s e h) h

    cancel_children-marks :
        (m : Store X) (cs : List ℕ) (j : ℕ) (s : TokenState X)
        → contains cs j ≡ true
        → lookup j m ≡ some s
        → (s' : TokenState X) × (lookup j (cancel_children X m reads cs) ≡ some s') × IsSettled s'
    unfolding cancel_children
    cancel_children-marks m [] j s h e = cc
    cancel_children-marks m (c ∷ cs) j s h e = elim (Bool-cases (c == j)) [
      | inl hit ↦
          let s' = flagged X (child_reason c) "parent-cancellation" (reads c).1 s in
          let settled = flagged-IsSettled (child_reason c) "parent-cancellation" (reads c).1 s in
          (
            s',
            cancel_children-settled (flag_child m c) cs j s'
                (ground (arith, lookup-flag_child m c j)) settled,
            settled,
          )
      | inr miss ↦
          cancel_children-marks (flag_child m c) cs j s (ground arith)
            (ground (arith, lookup-flag_child m c j))
    ]

    pub children_of-cancel_children :
        (m : Store X) (cs : List ℕ) (j : ℕ)
        → children_of X (cancel_children X m reads cs) j ≡ children_of X m j
    unfolding cancel_children
    children_of-cancel_children m [] j = refl
    children_of-cancel_children m (c ∷ cs) j =
        children_of-cancel_children (flag_child m c) cs j ∙ children_of-set_flags m c j _ _ _

  -- A token that is neither the cancelled one nor one of its own children is left as it was: the
  -- children of a child are not reached.
  pub cancel_frame :
      (m : Store X) (t j : ℕ) (r : CancelReason X) (src : String) (now : X.Time)
      (reads : ℕ → X.Uuid × X.Time)
      → t ≢ j
      → contains (children_of X m t) j ≡ false
      → lookup j (cancel X m t r src now reads) ≡ lookup j m
  unfolding cancel
  cancel_frame m t j r src now reads apart outside =
      cancel_children-frame reads (set_flags X m t r src now) _ j
        (rw (children_of-set_flags m t t r src now) outside)
      ∙ ground (arith, lookup-set_flags m t j r src now)

  -- The cancelled token and each of its children that is in the store is cancelled, with a reason, a source and a time.
  pub cancel_reaches :
      (m : Store X) (t j : ℕ) (r : CancelReason X) (src : String) (now : X.Time)
      (reads : ℕ → X.Uuid × X.Time) (s : TokenState X)
      → lookup j m ≡ some s
      → (t ≡ j) ⊎ (contains (children_of X m t) j ≡ true)
      → (s' : TokenState X) × (lookup j (cancel X m t r src now reads) ≡ some s') × IsSettled s'
  unfolding cancel
  cancel_reaches m t j r src now reads s e (inl same) =
      let s' = flagged X r src now s in
      let settled = flagged-IsSettled r src now s in
      (
        s',
        cancel_children-settled reads (set_flags X m t r src now) _ j s'
            (ground (arith, lookup-set_flags m t j r src now)) settled,
        settled,
      )
  cancel_reaches m t j r src now reads s e (inr child) =
      elim (Option-cases (lookup j (set_flags X m t r src now))) [
        | inl gone ↦ absurd (ground (arith, lookup-set_flags m t j r src now))
        | inr (s'', e') ↦
            cancel_children-marks reads (set_flags X m t r src now) _ j s''
              (rw (children_of-set_flags m t t r src now) child) e'
      ]

  -- A token that was cancelled before keeps its whole state, its first reason, source and time and
  -- its one notification included, whichever token a later cancellation starts at.
  pub cancel_settled :
      (m : Store X) (t j : ℕ) (r : CancelReason X) (src : String) (now : X.Time)
      (reads : ℕ → X.Uuid × X.Time) (s : TokenState X)
      → lookup j m ≡ some s
      → IsSettled s
      → lookup j (cancel X m t r src now reads) ≡ some s
  unfolding cancel
  cancel_settled m t j r src now reads s e h =
      cancel_children-settled reads (set_flags X m t r src now) _ j s
        (set_flags-settled m t j r src now s e h) h
