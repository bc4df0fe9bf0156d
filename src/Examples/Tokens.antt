-- ===== src/Examples/Tokens.antt =====
-- The theorems on cancellation tokens at concrete tokens.
use tiny_mite.Examples.Crates.{texts}
use tiny_mite.Scheduler.Cancellation.{
  CancelReason, TokenState, Store, new_token, cancel, children_of,
}
use tiny_mite.Scheduler.Cancellation.Propagation.{IsSettled, cancel_reaches}
use tiny_mite.Prelude.{ℕ, ◌≡◌, inr, refl, true, String, some, [], ◌∷◌, lookup, nat_eq, string_eq}

abbrev pub user : CancelReason texts
user = CancelReason.user "stop"

abbrev pub child_reads : ℕ → String × String
child_reads _ = ("p", "n")

-- Token 0 has the child 1, which has the child 2.
abbrev pub family : Store texts
family =
    (0, record (new_token texts) { children = 1 ∷ [] })
    ∷ (1, record (new_token texts) { parent = some 0; children = 2 ∷ [] })
    ∷ (2, record (new_token texts) { parent = some 1 })
    ∷ []

abbrev first_child : TokenState texts
first_child = record (new_token texts) { parent = some 0; children = 2 ∷ [] }

abbrev grandchild : TokenState texts
grandchild = record (new_token texts) { parent = some 1 }

child_found : lookup 1 family ≡ some first_child
unfolding lookup
child_found = refl

grandchild_found : lookup 2 family ≡ some grandchild
unfolding lookup
grandchild_found = refl

root_children : (children_of texts family 0) ≡ 1 ∷ []
unfolding lookup
root_children = refl

child_children : (children_of texts family 1) ≡ 2 ∷ []
unfolding lookup
child_children = refl

cancel_reaches_example :
    (s' : TokenState texts) × (lookup 1 (cancel texts family 0 user "user" "n" child_reads)
      ≡ some s')
    × IsSettled texts s'
cancel_reaches_example =
    cancel_reaches texts family 0 1 user "user" "n" child_reads first_child child_found
      (inr (rw root_children refl))

abbrev settled : TokenState texts
settled = record (new_token texts) {
  cancelled = true;
  reason = some user;
  source = some "user";
  requested_at = some "n";
  notified = 1;
}

abbrev one_settled : Store texts
one_settled = (0, settled) ∷ []

settled_found : lookup 0 one_settled ≡ some settled
unfolding lookup
settled_found = refl
