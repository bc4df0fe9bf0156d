-- ===== src/Runtime/Context/Compile/Packing.antt =====
-- When a compilation succeeds.
use tiny_mite.Crates.{Crates}
use tiny_mite.Security.Validation.{Lowercase}
use tiny_mite.Runtime.Context.{ContextItem, Shares}
use tiny_mite.Runtime.Context.Eviction.Kept.{sum_tokens}
use tiny_mite.Runtime.Context.Compile.{
  Packed, not_after, place, sort, pack, pinned_warning, warnings_of, drop_duplicates, assemble,
}
use tiny_mite.Prelude.{
  ℕ, ◌+◌, ◌≤◌, ◌<◌, ◌≡◌, refl, Bool, true, false, not, ◌&&◌, ◌||◌, String, List, [], ◌∷◌, arith,
  all, all-append, ltb, leb, if◌then◌else◌, has_prefix, Bool-cases, inl, inr, ap, ◌∙◌, u64,
  saturating_add,
}

module _ (X : Crates) where
  abbrev pub pinned_tokens : List (ContextItem X) → ℕ
  pinned_tokens [] = 0
  pinned_tokens (i ∷ is) = if i.pinned then i.token_count + pinned_tokens is else pinned_tokens is

  -- Once an item is not pinned, none after it is.
  abbrev PinnedFirst : List (ContextItem X) → Type 0
  PinnedFirst [] = Unit
  PinnedFirst (i ∷ is) = (i.pinned ≡ false → pinned_tokens is ≡ 0) × PinnedFirst is

  sum-place :
      (i : ContextItem X) (is : List (ContextItem X))
      → (sum_tokens X (place X i is) ≡ i.token_count + sum_tokens X is)
        × (pinned_tokens (place X i is) ≡ pinned_tokens (i ∷ is))
  unfolding place
  sum-place i [] = (refl, refl)
  sum-place i (j ∷ js) = elim (Bool-cases (not_after X i j)) [
    | inl e ↦ rw e (refl, refl)
    | inr e ↦ rw e (omega (arith, (sum-place i js).0), ground (arith, (sum-place i js).1))
  ]

  place-PinnedFirst :
      (i : ContextItem X) (is : List (ContextItem X)) → PinnedFirst is → PinnedFirst (place X i is)
  unfolding place not_after
  place-PinnedFirst i [] p = ((λ h. refl), p)
  place-PinnedFirst i (j ∷ js) p = elim (Bool-cases (not_after X i j)) [
    | inl e ↦ rw e ((λ free. later free e), p)
    | inr e ↦ rw e ((λ free. earlier free e), place-PinnedFirst i js p.1)
  ]
    where
      later : i.pinned ≡ false → not_after X i j ≡ true → pinned_tokens (j ∷ js) ≡ 0
      later free e = ground (arith, p.0)

      earlier : j.pinned ≡ false → not_after X i j ≡ false → pinned_tokens (place X i js) ≡ 0
      earlier free e = ground (arith, p.0, (sum-place i js).1)

  sort-PinnedFirst :
      (is : List (ContextItem X))
      → PinnedFirst (sort X is)
        × (sum_tokens X (sort X is) ≡ sum_tokens X is)
        × (pinned_tokens (sort X is) ≡ pinned_tokens is)
  unfolding sort
  sort-PinnedFirst [] = (tt, refl, refl)
  sort-PinnedFirst (i ∷ is) =
      let (first, sum, pinned) = sort-PinnedFirst is in
      let placed = sum-place i (sort X is) in
      (
        place-PinnedFirst i (sort X is) first,
        omega (arith, placed.0, sum),
        ground (arith, placed.1, pinned),
      )

  pinned_tokens-le-sum : (is : List (ContextItem X)) → pinned_tokens is ≤ sum_tokens X is
  pinned_tokens-le-sum [] = omega arith
  pinned_tokens-le-sum (i ∷ is) = ground (arith, pinned_tokens-le-sum is)

abbrev about_pinned : String → Bool
about_pinned w = not (has_prefix "Pinned content" w)

module _ (X : Crates) (L : Lowercase) where
  -- Where the pinned items fit, the total stays within the budget and nothing is said of them.
  pack-fits :
      (available total : ℕ) (warned : Bool) (is : List (ContextItem X))
      → PinnedFirst X is
      → total + pinned_tokens X is ≤ available
      → available < 18446744073709551616
      → total + sum_tokens X is < 18446744073709551616
      → ((pack X L available total warned is).total ≤ available)
        × ((pack X L available total warned is).notes ≡ [])
  unfolding pack
  pack-fits available total warned [] p fit small bound = (omega arith, refl)
  pack-fits available total warned (i ∷ is) p fit small bound =
      let sum = u64 (total + i.token_count) in
      let exact : sum ≡ total + i.token_count = omega arith in
      let grown : saturating_add total i.token_count ≡ total + i.token_count = omega arith in
      elim (Bool-cases (ltb available sum)) [
        | inl over ↦ elim (Bool-cases i.pinned) [
          | inl pin ↦ absurd (ground arith)
          | inr free ↦
              rw (over, free, pack)
                (pack-fits available total (warned || false) is p.1 (ground (arith, p.0)) small
                  (omega arith))
        ]
        | inr under ↦ elim (Bool-cases i.pinned) [
          | inl pin ↦
              rw (under, grown, pin, pack)
                (pack-fits available (total + i.token_count) (warned || false) is p.1 (ground arith)
                  small (omega arith))
          | inr free ↦
              rw (under, grown, free, pack)
                (pack-fits available (total + i.token_count) (warned || false) is p.1
                  (ground (arith, p.0)) small (omega arith))
        ]
      ]

  pack-warns :
      (available total : ℕ) (is : List (ContextItem X))
      → PinnedFirst X is
      → total ≤ available
      → available < total + pinned_tokens X is
      → total + sum_tokens X is < 18446744073709551616
      → all about_pinned (pack X L available total false is).notes ≡ false
  unfolding pack pinned_warning
  pack-warns available total [] p fit over bound = absurd (omega arith)
  pack-warns available total (i ∷ is) p fit beyond bound =
      let sum = u64 (total + i.token_count) in
      let exact : sum ≡ total + i.token_count = omega arith in
      let grown : saturating_add total i.token_count ≡ total + i.token_count = omega arith in
      elim (Bool-cases i.pinned) [
        | inr free ↦ absurd (ground (arith, p.0))
        | inl pin ↦ elim (Bool-cases (ltb available sum)) [
          | inl over ↦ rw (over, pin, pack) refl
          | inr under ↦
              rw (under, grown, pin, pack)
                (pack-warns available (total + i.token_count) is p.1 (ground arith) (ground arith)
                  (omega arith))
        ]
      ]

  -- The warnings that are added after the loop are not about pinned items.
  warnings_of-notes :
      (available : ℕ) (p : Packed X) (dropped : ℕ)
      → all about_pinned (warnings_of X L available p dropped) ≡ all about_pinned p.notes
  unfolding warnings_of
  warnings_of-notes available p dropped =
      all-append about_pinned p.notes _
      ∙ (elim (Bool-cases (ltb available p.total && not p.overflow_warned)) [
        | inl a ↦ elim (Bool-cases (ltb 0 dropped)) [
          | inl b ↦ rw (a, b) (and_true (all about_pinned p.notes))
          | inr b ↦ rw (a, b) (and_true (all about_pinned p.notes))
        ]
        | inr a ↦ elim (Bool-cases (ltb 0 dropped)) [
          | inl b ↦ rw (a, b) (and_true (all about_pinned p.notes))
          | inr b ↦ rw (a, b) (and_true (all about_pinned p.notes))
        ]
      ])
    where
      and_true : (b : Bool) → (b && true) ≡ b
      and_true b = ground arith

  -- A compilation of items whose token counts add up to a `usize` succeeds exactly when the pinned
  -- ones among them fit the tokens available, and never with a total beyond these.
  pub assemble-success :
      (S : Shares) (context_total available : ℕ) (items evicted : List (ContextItem X))
      → available < 18446744073709551616
      → sum_tokens X items < 18446744073709551616
      → ((assemble X L S context_total available items evicted).success
          ≡ leb (pinned_tokens X items) available)
        × (((assemble X L S context_total available items evicted).success
              && ltb available (assemble X L S context_total available items evicted).total_tokens)
            ≡ false)
  unfolding assemble
  assemble-success S context_total available items evicted small bound =
      let sorted = sort-PinnedFirst X items in
      let p = pack X L available 0 false (sort X items) in
      let dropped = (drop_duplicates X [] p.final_items).1 in
      let quiet = warnings_of-notes available p dropped in
      (
        elim (Bool-cases (leb (pinned_tokens X items) available)) [
          | inl fit ↦
              let (within, silent) =
                pack-fits available 0 false (sort X items) sorted.0 (ground (arith, sorted.2)) small
                  (omega (arith, sorted.1)) in
              ground (arith, quiet, within, ap (all about_pinned) silent)
          | inr beyond ↦
              let warned =
                pack-warns available 0 (sort X items) sorted.0 (omega arith)
                  (ground (arith, sorted.2)) (omega (arith, sorted.1)) in
              ground (arith, quiet, warned)
        ],
        ground arith,
      )
