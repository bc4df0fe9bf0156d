-- ===== src/Scheduler/Cancellation.antt =====
-- crates/tiny-mite-scheduler/src/cancellation.rs: cancellation tokens. A token is a set of `Arc`s,
-- so its clones share one state: a token is an address, and the states lie in a store.
pub mod Propagation
pub mod Limits
use tiny_mite.Crates.{Crates}
use tiny_mite.Prelude.{
  ℕ, ◌+◌, Bool, true, false, not, String, Option, some, none, List, [], ◌∷◌, ◌++◌, or_else, lookup,
  insert, adjust, if◌then◌else◌, nat_eq,
}

pub data CancelReason (X : Crates) : Type 0 where
  user system resource_pressure : String → CancelReason X
  timeout : X.Time → CancelReason X
  parent_cancelled : X.Uuid → CancelReason X

-- `notified` counts the calls of `notify_waiters`.
pub record TokenState (X : Crates) : Type 0 where
  pub cancelled : Bool
  pub reason : Option (CancelReason X)
  pub source : Option String
  pub requested_at : Option X.Time
  pub grace_until : Option X.Time
  pub notified : ℕ
  pub parent : Option ℕ
  pub children : List ℕ

module _ (X : Crates) where
  -- `CancelReason::as_str` and `category`.
  unfoldable pub reason_text : CancelReason X → String
  reason_text (CancelReason.user m) = m
  reason_text (CancelReason.system m) = m
  reason_text (CancelReason.resource_pressure m) = m
  reason_text (CancelReason.timeout _) = "task timed out"
  reason_text (CancelReason.parent_cancelled _) = "parent task cancelled"

  unfoldable pub category : CancelReason X → String
  category (CancelReason.user _) = "User"
  category (CancelReason.system _) = "System"
  category (CancelReason.resource_pressure _) = "ResourcePressure"
  category (CancelReason.timeout _) = "Timeout"
  category (CancelReason.parent_cancelled _) = "ParentCancelled"

  abbrev pub new_token : TokenState X
  new_token = record {
    cancelled = false;
    reason = none;
    source = none;
    requested_at = none;
    grace_until = none;
    notified = 0;
    parent = none;
    children = [];
  }

  abbrev pub Store : Type 0
  Store = List (ℕ × TokenState X)

  -- The effect of `set_flags` on the state, at the clock's time.
  unfoldable pub flagged : CancelReason X → String → X.Time → TokenState X → TokenState X
  flagged reason source now s = record s {
    reason = or_else s.reason (some reason);
    source = or_else s.source (some source);
    requested_at = or_else s.requested_at (some now);
    cancelled = true;
    notified = if not s.cancelled then s.notified + 1 else s.notified;
  }

  unfoldable pub set_flags : Store → ℕ → CancelReason X → String → X.Time → Store
  set_flags m t reason source now = adjust t (flagged reason source now) m

  -- The loop over the children; each gets a fresh parent identifier and its own reading of the clock.
  unfoldable pub cancel_children : Store → (ℕ → X.Uuid × X.Time) → List ℕ → Store
  unfolding set_flags
  cancel_children m reads [] = m
  cancel_children m reads (c ∷ cs) =
      let (fresh, now) = reads c in
      cancel_children
        (set_flags m c (CancelReason.parent_cancelled fresh) "parent-cancellation" now) reads cs

  abbrev pub children_of : Store → ℕ → List ℕ
  children_of m t = elim (lookup t m) [ none ↦ [] | some s ↦ s.children ]

  unfoldable pub cancel :
      Store → ℕ → CancelReason X → String → X.Time → (ℕ → X.Uuid × X.Time) → Store
  cancel m t reason source now reads =
      let m' = set_flags m t reason source now in cancel_children m' reads (children_of m' t)

  unfoldable pub is_cancelled : Store → ℕ → Bool
  is_cancelled m t = elim (lookup t m) [ none ↦ false | some s ↦ s.cancelled ]

  -- `*grace_until = Some(now + duration)`, and whether it has passed.
  unfoldable pub set_grace_period : Store → ℕ → X.Time → Store
  set_grace_period m t deadline = adjust t (λ s. record s { grace_until = some deadline }) m

  unfoldable pub grace_period_expired : Store → ℕ → X.Time → Bool
  grace_period_expired m t now = elim (lookup t m) [
    | none ↦ false
    | some s ↦ elim s.grace_until [ none ↦ false | some d ↦ not (X.before now d) ]
  ]

  -- `add_child`; `set_parent` is the same with the two tokens exchanged.
  unfoldable pub add_child : Store → ℕ → ℕ → Store
  add_child m t child =
      adjust t (λ s. record s { children = s.children ++ child ∷ [] })
        (adjust child (λ s. record s { parent = some t }) m)

  unfoldable pub set_parent : Store → ℕ → ℕ → Store
  unfolding add_child
  set_parent m t parent = add_child m parent t
