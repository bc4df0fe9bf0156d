-- ===== src/Runtime/Context/Eviction/Kept.antt =====
-- What the eviction from a zone takes and leaves.
use tiny_mite.Crates.{Crates}
use tiny_mite.Runtime.Context.{ContextItem, ContextZone, EvictionPolicy}
use tiny_mite.Runtime.Context.Eviction.{
  candidates, min_by_key, choose, last_item, target_of, select_eviction_target, remove_at, is_empty,
}
use tiny_mite.Prelude.{
  ℕ, zero, suc, ◌+◌, ◌≡◌, refl, true, false, some, List, [], ◌∷◌, arith, length, ltb, IsIn, here,
  there, IsIn-cases, not_in_nil, ◌⊎◌, inl, inr, Bool-cases, subst, sym, ap, ◌∙◌,
}

module _ (X : Crates) where
  abbrev pub sum_tokens : List (ContextItem X) → ℕ
  sum_tokens [] = 0
  sum_tokens (i ∷ is) = i.token_count + sum_tokens is

  -- The item stands at the position.
  pub data At (x : ContextItem X) : ℕ → List (ContextItem X) → Type 0 where
    at_first : {y : ContextItem X} {xs : List (ContextItem X)} → y ≡ x → At x zero (y ∷ xs)
    at_later :
        {i : ℕ} {y : ContextItem X} {xs : List (ContextItem X)} → At x i xs → At x (suc i) (y ∷ xs)

  pub sum-remove_at :
      (i : ℕ) (x : ContextItem X) (xs : List (ContextItem X))
      → At x i xs
      → (sum_tokens (remove_at X i xs) + x.token_count ≡ sum_tokens xs)
        × (suc (length (remove_at X i xs)) ≡ length xs)
  unfolding remove_at
  sum-remove_at zero x [] a = elim a [ ]
  sum-remove_at (suc i) x [] a = elim a [ ]
  sum-remove_at zero x (y ∷ xs) (at_first e) = (
    subst (λ w. sum_tokens xs + w.token_count ≡ y.token_count + sum_tokens xs) e (omega arith),
    refl,
  )
  sum-remove_at (suc i) x (y ∷ xs) (at_later a) =
      let later = sum-remove_at i x xs a in (omega (arith, later.0), omega (arith, later.1))

  pub remove_at-keeps :
      (i : ℕ) (x : ContextItem X) (xs : List (ContextItem X))
      → At x i xs
      → (y : ContextItem X) → IsIn y xs
      → (y ≡ x) ⊎ IsIn y (remove_at X i xs)
  unfolding remove_at
  remove_at-keeps zero x [] a y m = elim a [ ]
  remove_at-keeps (suc i) x [] a y m = elim a [ ]
  remove_at-keeps zero x (z ∷ xs) (at_first e) y m = elim (IsIn-cases m) [
    | inl same ↦ inl (same ∙ e)
    | inr later ↦ inr later
  ]
  remove_at-keeps (suc i) x (z ∷ xs) (at_later a) y m = elim (IsIn-cases m) [
    | inl same ↦ inr (here same)
    | inr later ↦ elim (remove_at-keeps i x xs a y later) [
      | inl same ↦ inl same
      | inr kept ↦ inr (there kept)
    ]
  ]

  pub remove_at-subset :
      (i : ℕ) (xs : List (ContextItem X)) (y : ContextItem X)
      → IsIn y (remove_at X i xs)
      → IsIn y xs
  unfolding remove_at
  remove_at-subset i [] y m = m
  remove_at-subset zero (x ∷ xs) y m = there m
  remove_at-subset (suc i) (x ∷ xs) y m = elim (IsIn-cases m) [
    | inl same ↦ here same
    | inr later ↦ there (remove_at-subset i xs y later)
  ]

  -- A candidate at its position among the items, which are numbered from the given position on.
  record Stands (k : ℕ) (xs : List (ContextItem X)) (c : ℕ × ContextItem X) : Type 0 where
    offset : ℕ
    number : c.0 ≡ k + offset
    place : At (c.1) offset xs
    free : c.1.pinned ≡ false

  Stands-later :
      (k : ℕ) (x : ContextItem X) (xs : List (ContextItem X)) (c : ℕ × ContextItem X)
      → Stands (k + 1) xs c
      → Stands k (x ∷ xs) c
  Stands-later k x xs c s = record {
    offset = suc s.offset;
    number = omega (arith, s.number);
    place = at_later s.place;
    free = s.free;
  }

  candidates-Stands :
      (k : ℕ) (xs : List (ContextItem X)) (c : ℕ × ContextItem X)
      → IsIn c (candidates X k xs)
      → Stands k xs c
  unfolding candidates
  candidates-Stands k [] c m = absurd (not_in_nil m)
  candidates-Stands k (x ∷ xs) c m = elim (Bool-cases x.pinned) [
    | inl p ↦ Stands-later k x xs c (candidates-Stands (k + 1) xs c (subst (IsIn c) (rw p refl) m))
    | inr p ↦
        elim (IsIn-cases {x = (k, x)} {xs = candidates X (k + 1) xs}
          (subst (IsIn c) (rw p refl) m)) [
            | inl same ↦ record {
              offset = 0;
              number = ap (λ d. d.0) same ∙ omega arith;
              place = at_first (sym (ap (λ d. d.1) same));
              free = ap (λ d. d.1.pinned) same ∙ p;
            }
            | inr later ↦ Stands-later k x xs c (candidates-Stands (k + 1) xs c later)
          ]
  ]

  min_by_key-IsIn :
      (key : ContextItem X → ℕ) (best : ℕ × ContextItem X) (cs : List (ℕ × ContextItem X))
      → IsIn (min_by_key X key best cs) (best ∷ cs)
  unfolding min_by_key
  min_by_key-IsIn key best [] = here refl
  min_by_key-IsIn key best (c ∷ cs) = elim (Bool-cases (ltb (key (c.1)) (key (best.1)))) [
    | inl e ↦ rw e (there (min_by_key-IsIn key c cs))
    | inr e ↦ rw e (elim (IsIn-cases (min_by_key-IsIn key best cs)) [
      | inl same ↦ here same
      | inr later ↦ there (there later)
    ])
  ]

  choose-IsIn :
      (p : EvictionPolicy) (c : ℕ × ContextItem X) (cs : List (ℕ × ContextItem X))
      → IsIn (choose X p c cs) (c ∷ cs)
  unfolding choose
  choose-IsIn EvictionPolicy.lowest_priority c cs = min_by_key-IsIn (λ i. i.priority) c cs
  choose-IsIn EvictionPolicy.lowest_relevance c cs = min_by_key-IsIn (λ i. i.relevance) c cs
  choose-IsIn EvictionPolicy.oldest_first c cs = here refl
  choose-IsIn EvictionPolicy.no_eviction c cs = here refl

  last_item-At :
      (k : ℕ) (x : ContextItem X) (xs : List (ContextItem X))
      → (j : ℕ) × ((y : ContextItem X) × ((last_item X k (x ∷ xs) ≡ some (k + j, y))
            × At y j (x ∷ xs)))
  unfolding last_item
  last_item-At k x [] = (0, (x, (ap (λ n. some (n, x)) (omega arith), at_first refl)))
  last_item-At k x (y ∷ xs) =
      let (j, (z, (e, a))) = last_item-At (k + 1) y xs in
      (suc j, (z, (e ∙ ap (λ n. some (n, z)) (omega arith), at_later a)))

  no_candidate-pinned :
      (k : ℕ) (xs : List (ContextItem X))
      → candidates X k xs ≡ []
      → (y : ContextItem X) → IsIn y xs
      → y.pinned ≡ true
  unfolding candidates
  no_candidate-pinned k [] e y m = absurd (not_in_nil m)
  no_candidate-pinned k (x ∷ xs) e y m = elim (Bool-cases x.pinned) [
    | inl p ↦ elim (IsIn-cases m) [
      | inl same ↦ ap (λ i. i.pinned) same ∙ p
      | inr later ↦ no_candidate-pinned (k + 1) xs (sym (rw p refl) ∙ e) y later
    ]
    | inr p ↦ absurd (ground arith)
  ]

  -- What is chosen from a zone with items stands among them, and is pinned only where all are.
  pub record Target (z : ContextZone X) (t : ℕ × ContextItem X) : Type 0 where
    pub chosen : select_eviction_target X z ≡ some t
    pub stands : At (t.1) (t.0) z.items
    pub spares : t.1.pinned ≡ true → (y : ContextItem X) → IsIn y z.items → y.pinned ≡ true

  pub List-cases :
      {A : Type 0} (xs : List A) → (xs ≡ []) ⊎ ((x : A) × ((rest : List A) × (xs ≡ x ∷ rest)))
  List-cases [] = inl refl
  List-cases (x ∷ xs) = inr (x, (xs, refl))

  pub select-Target :
      (z : ContextZone X) → is_empty X z.items ≡ false → (t : ℕ × ContextItem X) × Target z t
  unfolding select_eviction_target
  select-Target z full = elim (List-cases z.items) [
    | inl nothing ↦ absurd (ground arith)
    | inr (first, (others, f)) ↦ elim (List-cases (candidates X 0 z.items)) [
      | inl e ↦
          let (j, (y, (last, place))) = last_item-At 0 first others in
          (
            (0 + j, y),
            record {
              chosen = ap (target_of X z) e ∙ (ap (last_item X 0) f ∙ last);
              stands =
                  subst (At y (0 + j)) (sym f)
                    (subst (λ n. At y n (first ∷ others)) (omega arith) place);
              spares = λ p. no_candidate-pinned 0 z.items e;
            },
          )
      | inr (c, (cs, e)) ↦
          let t = choose X z.eviction c cs in
          let s =
            candidates-Stands 0 z.items t (subst (IsIn t) (sym e) (choose-IsIn z.eviction c cs)) in
          let position : s.offset ≡ t.0 = omega (arith, s.number) in
          (
            t,
            record {
              chosen = ap (target_of X z) e;
              stands = subst (λ n. At (t.1) n z.items) position s.place;
              spares = λ p. absurd (ground (arith, s.free));
            },
          )
    ]
  ]
