-- ===== src/Runtime/Context/Eviction/Outcome.antt =====
-- The outcome of the eviction from a zone: it ends without a panic and loses no item.
use tiny_mite.Crates.{Crates}
use tiny_mite.Runtime.Context.{ContextItem, ContextZone}
use tiny_mite.Runtime.Context.Eviction.{over_budget, without, evict, evict_zone}
use tiny_mite.Runtime.Context.Eviction.Kept.{
  sum_tokens, At, sum-remove_at, remove_at-keeps, remove_at-subset, Target, select-Target,
  List-cases,
}
use tiny_mite.Prelude.{
  ℕ, zero, suc, ◌≤◌, ◌≡◌, refl, true, false, some, List, [], ◌∷◌, arith, length, IsIn, here, there,
  IsIn-cases, not_in_nil, ◌⊎◌, inl, inr, Bool-cases, sym, ap, ◌∙◌,
}

module _ (X : Crates) where
  -- The zone counts the tokens of its items.
  abbrev pub Counted : ContextZone X → Type 0
  Counted z = z.used_tokens ≡ sum_tokens X z.items

  -- What the eviction makes of a zone: within its budget or empty, with its tokens counted, every
  -- item left or evicted, no item new, and a pinned item evicted only where all that are left are
  -- pinned.
  pub record Evicts (z after : ContextZone X) (evicted : List (ContextItem X)) : Type 0 where
    pub fits : (after.used_tokens ≤ z.max_tokens) ⊎ (after.items ≡ [])
    pub counted : Counted after
    pub fewer : sum_tokens X after.items ≤ sum_tokens X z.items
    pub kept : (y : ContextItem X) → IsIn y z.items → IsIn y after.items ⊎ IsIn y evicted
    pub subset : (y : ContextItem X) → IsIn y after.items → IsIn y z.items
    pub spared :
        (y : ContextItem X)
        → IsIn y evicted
        → y.pinned ≡ true
        → (x : ContextItem X) → IsIn x after.items
        → x.pinned ≡ true

  Evicts-nothing :
      (z : ContextZone X)
      → Counted z
      → (z.used_tokens ≤ z.max_tokens) ⊎ (z.items ≡ [])
      → Evicts z z []
  Evicts-nothing z c f = record {
    fits = f;
    counted = c;
    fewer = omega arith;
    kept = λ y m. inl m;
    subset = λ y m. m;
    spared = λ y m. absurd (not_in_nil m);
  }

  Evicts-target :
      (z after : ContextZone X) (t : ℕ × ContextItem X) (evicted : List (ContextItem X))
      → Counted z
      → Target X z t
      → Evicts (without X z t) after evicted
      → Evicts z after (t.1 ∷ evicted)
  Evicts-target z after t evicted c target e = record {
    fits = e.fits;
    counted = e.counted;
    fewer = omega (arith, e.fewer, (sum-remove_at X (t.0) (t.1) z.items target.stands).0);
    kept = λ y m. elim (remove_at-keeps X (t.0) (t.1) z.items target.stands y m) [
      | inl same ↦ inr (here same)
      | inr left ↦ elim (e.kept y left) [ inl k ↦ inl k | inr v ↦ inr (there v) ]
    ];
    subset = λ y m. remove_at-subset X (t.0) z.items y (e.subset y m);
    spared = λ y m p. elim (IsIn-cases m) [
      | inl same ↦ λ x k.
          target.spares (sym (ap (λ i. i.pinned) same) ∙ p) x
            (remove_at-subset X (t.0) z.items x (e.subset x k))
      | inr later ↦ e.spared y later p
    ];
  }

  without-Counted :
      (z : ContextZone X) (t : ℕ × ContextItem X)
      → Counted z
      → At X (t.1) (t.0) z.items
      → Counted (without X z t)
  without-Counted z t c a = omega (arith, (sum-remove_at X (t.0) (t.1) z.items a).0)

  over_budget-cases :
      (z : ContextZone X)
      → over_budget X z ≡ false
      → (z.used_tokens ≤ z.max_tokens) ⊎ (z.items ≡ [])
  over_budget-cases z h = elim (List-cases X z.items) [
    | inl e ↦ inr e
    | inr (x, (xs, e)) ↦ inl (ground arith)
  ]

  -- The loop on a zone, with as many rounds as items.
  record Ends (n : ℕ) (z : ContextZone X) : Type 0 where
    after : ContextZone X
    evicted : List (ContextItem X)
    result : evict X n z ≡ some (after, evicted)
    outcome : Evicts z after evicted

  evict-Ends : (n : ℕ) (z : ContextZone X) → length z.items ≤ n → Counted z → Ends n z
  unfolding evict
  evict-Ends zero z h c = elim (List-cases X z.items) [
    | inl e ↦ record {
      after = z;
      evicted = [];
      result = refl;
      outcome = Evicts-nothing z c (inr e);
    }
    | inr (x, (xs, e)) ↦ absurd (ground arith)
  ]
  evict-Ends (suc n) z h c = elim (Bool-cases (over_budget X z)) [
    | inl over ↦
        let (t, target) = select-Target X z (ground arith) in
        let rest =
          evict-Ends n (without X z t)
            (omega (arith, (sum-remove_at X (t.0) (t.1) z.items target.stands).1))
            (without-Counted z t c target.stands) in
        record {
          after = rest.after;
          evicted = t.1 ∷ rest.evicted;
          result = rw (over, target.chosen, rest.result) refl;
          outcome = Evicts-target z rest.after t rest.evicted c target rest.outcome;
        }
    | inr under ↦ record {
      after = z;
      evicted = [];
      result = rw under refl;
      outcome = Evicts-nothing z c (over_budget-cases z under);
    }
  ]

  -- The eviction from a zone that counts its tokens ends without a panic: the zone is then within
  -- its budget or empty, every item is left or evicted, and a pinned item is evicted only where all
  -- that are left are pinned.
  pub evict_zone-Evicts :
      (z : ContextZone X)
      → Counted z
      → (after : ContextZone X) × ((evicted : List (ContextItem X)) × ((evict_zone X z
              ≡ some (after, evicted))
            × Evicts z after evicted))
  unfolding evict_zone
  evict_zone-Evicts z c =
      let e = evict-Ends (length z.items) z (omega arith) c in
      (e.after, (e.evicted, (e.result, e.outcome)))
