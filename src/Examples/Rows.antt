-- ===== src/Examples/Rows.antt =====
-- Rows of any table, as an association list from their keys.
use tiny_mite.Prelude.{
  ◌≡◌, ◌↔◌, refl, Bool, true, false, not, ◌&&◌, String, some, List, [], ◌∷◌, arith, string_eq,
  ◌===◌, eq_iff, if◌then◌else◌, contains, lookup, Bool-cases, inl, inr, IsIn, here, there,
  not_in_nil, IsIn-cases,
}

module _ {R : Type 0} (key : R → String) where
  -- The rows that a SELECT by their own key returns.
  abbrev pub visible : List String → (R → Bool) → List (String × R) → List R
  visible seen p [] = []
  visible seen p ((k, r) ∷ es) =
      let rest = visible (k ∷ seen) p es in
      if not (contains seen k) && (k === key r) && p r then r ∷ rest else rest

  row_hidden :
      (seen : List String) (p : R → Bool) (k : String) (q r : R)
      → (not (contains seen k) && (k === key q) && p q) ≡ false
      → k ≡ key r
      → q ≡ r
      → contains seen (key r) ≡ false
      → p r ≡ true
      → ⊥
  row_hidden seen p k q r h e same a c =
      let h' = rw (same, e) at h in ground (arith, eq_iff (key r) (key r))

  pub visible_iff :
      (seen : List String) (p : R → Bool) (es : List (String × R)) (r : R)
      → IsIn r (visible seen p es)
        ↔ ((contains seen (key r) ≡ false) × (lookup (key r) es ≡ some r) × (p r ≡ true))
  unfolding lookup
  visible_iff seen p [] r = (λ m. absurd (not_in_nil m), λ (_, e, _). absurd (ground arith))
  visible_iff seen p ((k, q) ∷ es) r =
      let (to, from) = visible_iff (k ∷ seen) p es r in
      elim (Bool-cases (not (contains seen k) && (k === key q) && p q)) [
        | inl shown ↦
            let same : k ≡ key q = (eq_iff k (key q)).0 (ground arith) in
            let fresh : contains seen k ≡ false = ground arith in
            (
              λ m. elim (IsIn-cases (rw (shown, visible) at m)) [
                | inl e ↦
                    rw e (rw same at fresh, ground (arith, (eq_iff k (key q)).1), ground arith)
                | inr rest ↦ let (a, b, c) = to rest in (ground arith, ground arith, c)
              ],
              λ (a, b, c). elim (Bool-cases (k === key r)) [
                | inl hit ↦ rw (shown, visible) (here (ground arith))
                | inr miss ↦ rw (shown, visible) (there (from (ground arith, ground arith, c)))
              ],
            )
        | inr hidden ↦ (
          λ m. let (a, b, c) = to (rw (hidden, visible) at m) in (ground arith, ground arith, c),
          λ (a, b, c). elim (Bool-cases (k === key r)) [
            | inl hit ↦
                let at : k ≡ key r = (eq_iff k (key r)).0 hit in
                let same : q ≡ r = ground arith in
                absurd (row_hidden seen p k q r hidden at same a c)
            | inr miss ↦ rw (hidden, visible) (from (ground arith, ground arith, c))
          ],
        )
      ]

  pub visible-all_iff :
      (d : List (String × R)) (p : R → Bool) (r : R)
      → IsIn r (visible [] p d) ↔ ((lookup (key r) d ≡ some r) × (p r ≡ true))
  visible-all_iff d p r =
      let (to, from) = visible_iff [] p d r in
      (λ m. let (_, b, c) = to m in (b, c), λ (b, c). from (refl, b, c))
