-- ===== src/Scheduler/Manager/Shutdown.antt =====
-- What the manager's shutdown leaves.
use tiny_mite.Crates.{Crates}
use tiny_mite.Events.Envelope.{Publisher}
use tiny_mite.Scheduler.Cancellation.{CancelReason, TokenState, Store, cancel}
use tiny_mite.Scheduler.Cancellation.Limits.{cancel_tracks}
use tiny_mite.Scheduler.Cancellation.Propagation.{IsSettled, cancel_reaches, cancel_settled}
use tiny_mite.Scheduler.Manager.{TokenMap, System, get_token, cancel_each, shutdown}
use tiny_mite.Scheduler.Registry.Table.{TaskTable}
use tiny_mite.Prelude.{
  ℕ, ◌≡◌, ◌==◌, ==_iff, inl, inr, true, some, none, List, [], ◌∷◌, map, arith, lookup, contains,
  nat_eq, Bool-cases,
}

module _ (X : Crates) (T : TaskTable) (P : Publisher X) (D : TokenMap X) where
  abbrev stop : Store X → (ℕ → X.Time) → (ℕ → ℕ → X.Uuid × X.Time) → ℕ → Store X
  stop m times reads t =
      cancel X m t (CancelReason.system "system shutdown") "shutdown" (times t) (reads t)

  cancel_each-settled :
      (m : Store X) (times : ℕ → X.Time) (reads : ℕ → ℕ → X.Uuid × X.Time) (ts : List ℕ) (j : ℕ)
      (s : TokenState X)
      → lookup j m ≡ some s
      → IsSettled X s
      → lookup j (cancel_each X T P D m times reads ts) ≡ some s
  unfolding cancel_each
  cancel_each-settled m times reads [] j s e h = e
  cancel_each-settled m times reads (t ∷ ts) j s e h =
      cancel_each-settled (stop m times reads t) times reads ts j s
        (cancel_settled X m t j _ _ _ (reads t) s e h) h

  cancel_each-reaches :
      (m : Store X) (times : ℕ → X.Time) (reads : ℕ → ℕ → X.Uuid × X.Time) (ts : List ℕ) (j : ℕ)
      (s : TokenState X)
      → lookup j m ≡ some s
      → contains ts j ≡ true
      → (s' : TokenState X) × (lookup j (cancel_each X T P D m times reads ts) ≡ some s')
        × IsSettled X s'
  unfolding cancel_each
  cancel_each-reaches m times reads [] j s e h = cc
  cancel_each-reaches m times reads (t ∷ ts) j s e h = elim (Bool-cases (t == j)) [
    | inl hit ↦
        let (s', e', settled) =
          cancel_reaches X m t j (CancelReason.system "system shutdown") "shutdown" (times t)
            (reads t) s e (inl ((==_iff t j).0 hit)) in
        (s', cancel_each-settled (stop m times reads t) times reads ts j s' e' settled, settled)
    | inr miss ↦
        let (s', e') =
          cancel_tracks X m t j (CancelReason.system "system shutdown") "shutdown" (times t)
            (reads t) s e in
        cancel_each-reaches (stop m times reads t) times reads ts j s' e' (ground arith)
  ]

  -- Shutdown settles every token that is registered, and leaves no task with a token.
  pub shutdown_settles :
      (s : System X T P D) (times : ℕ → X.Time) (reads : ℕ → ℕ → X.Uuid × X.Time) (id : X.Uuid)
      (token : ℕ) (state : TokenState X)
      → get_token X T P D s id ≡ some token
      → lookup token s.store ≡ some state
      → ((state' : TokenState X) × (lookup token (shutdown X T P D s times reads).store
            ≡ some state')
          × IsSettled X state')
        × ((other : X.Uuid) → get_token X T P D (shutdown X T P D s times reads) other ≡ none)
  unfolding shutdown get_token
  shutdown_settles s times reads id token state registered e = (
    cancel_each-reaches s.store times reads (map (λ e. e.1) (D.entries s.tokens)) token state e
        (D.entries-complete id token s.tokens registered),
    λ other. D.get-no_tokens other,
  )
