-- ===== src/Security/Secrets/Redaction.antt =====
-- Nothing that is printed or serialized depends on the value of a secret.
use tiny_mite.Security.Secrets.{
  Secret, new_secret, display_secret, serialize_secret, SecretStore, set_secret, get_secret,
  remove_secret, debug_secret, debug_entries, debug_store,
}
use tiny_mite.Prelude.{
  ◌≡◌, refl, String, some, none, List, [], ◌∷◌, arith, string_eq, ◌===◌, if◌then◌else◌,
  lookup-insert, lookup-remove, lookup, Option, Option-cases, inl, inr,
}
use mathlib.Core.Option

-- What may be seen of a store under a key: the label of its secret, if there is one.
abbrev pub visible_label : String → SecretStore → Option String
visible_label k m = Option.map (λ s. s.label) (get_secret k m)

module _ (debug_text : String → String) (debug_map : List (String × String) → String) where
  debug_secret-same :
      (s t : Secret)
      → s.label ≡ t.label
      → debug_secret debug_text debug_map s ≡ debug_secret debug_text debug_map t
  unfolding debug_secret
  debug_secret-same s t h = rw h refl

  debug_entries-same :
      (order : List String) (m n : SecretStore)
      → ((k : String) → visible_label k m ≡ visible_label k n)
      → debug_entries debug_text debug_map order m ≡ debug_entries debug_text debug_map order n
  unfolding debug_entries get_secret
  debug_entries-same [] m n h = refl
  debug_entries-same (k ∷ order) m n h =
      let rest = debug_entries-same order m n h in
      let seen = h k in
      elim (Option-cases (lookup k m)) [
        | inl e ↦ elim (Option-cases (lookup k n)) [
          | inl f ↦ rw (debug_entries, e, f, debug_entries) rest
          | inr (t, f) ↦ absurd (ground arith)
        ]
        | inr (s, e) ↦ elim (Option-cases (lookup k n)) [
          | inl f ↦ absurd (ground arith)
          | inr (t, f) ↦
              let label : s.label ≡ t.label = ground arith in
              ground (arith, debug_secret-same s t label)
        ]
      ]

  -- Two stores that have the same keys with the same labels are printed alike where their maps are
  -- visited in the same order, and two secrets with the same label are displayed and serialized
  -- alike, whatever the values.
  pub redacted :
      (order : List String) (m n : SecretStore) (s t : Secret)
      → ((k : String) → visible_label k m ≡ visible_label k n)
      → s.label ≡ t.label
      → (debug_store debug_text debug_map order m ≡ debug_store debug_text debug_map order n)
        × (display_secret s ≡ display_secret t)
        × (serialize_secret s ≡ serialize_secret t)
  unfolding debug_store display_secret serialize_secret
  redacted order m n s t h label = (rw (debug_entries-same order m n h) refl, rw label refl, refl)

-- A secret that is set is found under its key and under no other; one that is removed is returned
-- and no longer found.
pub get_secret_lem :
    (key other value label : String) (m : SecretStore)
    → (get_secret other (set_secret key value label m)
        ≡ (if key === other then some (new_secret value label) else get_secret other m))
      × ((remove_secret key m).0 ≡ get_secret key m)
      × (get_secret other (remove_secret key m).1
          ≡ (if key === other then none else get_secret other m))
unfolding get_secret set_secret remove_secret
get_secret_lem key other value label m =
    (lookup-insert key other (new_secret value label) m, refl, lookup-remove key other m)
