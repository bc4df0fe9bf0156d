-- ===== src/Runtime/Compaction/Budget.antt =====
-- The dropping strategies meet the budget, where the token counts add up to a `usize`.
use tiny_mite.Runtime.Compaction.{
  ContextItem, CompactionStrategy, CompactionResult, ContextCompactor, sum_tokens, minus_usize,
  drop_over, place_item, sort_items, outcome, reduce, compact, merges, unchanged,
}
use tiny_mite.Prelude.{
  ℕ, ◌+◌, ◌≤◌, ◌<◌, ◌≡◌, refl, ◌∙◌, true, false, not, ◌&&◌, some, List, [], ◌∷◌, arith, leb, Bool,
  length, Bool-cases, inl, inr,
}

-- The tokens of the items as a number without bound.
abbrev pub exact_sum : List ContextItem → ℕ
exact_sum [] = 0
exact_sum (i ∷ is) = i.token_count + exact_sum is

-- Nothing wraps where the exact sum is a `usize`.
sum_tokens-exact :
    (is : List ContextItem) → exact_sum is < 18446744073709551616 → sum_tokens is ≡ exact_sum is
unfolding sum_tokens
sum_tokens-exact [] h = refl
sum_tokens-exact (i ∷ is) h = omega (arith, sum_tokens-exact is (omega arith))

sum-place_item :
    (i : ContextItem) (is : List ContextItem)
    → exact_sum (place_item i is) ≡ i.token_count + exact_sum is
unfolding place_item
sum-place_item i [] = refl
sum-place_item i (j ∷ js) = ground (arith, sum-place_item i js)

sum-sort_items : (is : List ContextItem) → exact_sum (sort_items is) ≡ exact_sum is
unfolding sort_items
sum-sort_items [] = refl
sum-sort_items (i ∷ is) = omega (arith, sum-place_item i (sort_items is), sum-sort_items is)

drop_over-meets :
    (budget total : ℕ) (is : List ContextItem)
    → total ≡ exact_sum is
    → total < 18446744073709551616
    → (exact_sum (drop_over budget total is).0 ≤ budget)
      × (exact_sum (drop_over budget total is).0 ≤ total)
unfolding drop_over
drop_over-meets budget total [] h k = (omega arith, omega arith)
drop_over-meets budget total (i ∷ is) h k =
    let left : minus_usize total i.token_count ≡ exact_sum is = omega arith in
    let rest = drop_over-meets budget (minus_usize total i.token_count) is left (omega arith) in
    (ground (arith, rest, left), ground (arith, rest, left))

length-place_item :
    (i : ContextItem) (is : List ContextItem) → length (place_item i is) ≡ length is + 1
unfolding place_item
length-place_item i [] = refl
length-place_item i (j ∷ js) = ground (arith, length-place_item i js)

length-sort_items : (is : List ContextItem) → length (sort_items is) ≡ length is
unfolding sort_items
length-sort_items [] = refl
length-sort_items (i ∷ is) =
    omega (arith, length-place_item i (sort_items is), length-sort_items is)

drop_over-length :
    (budget total : ℕ) (is : List ContextItem)
    → (drop_over budget total is).1 + length (drop_over budget total is).0 ≡ length is
unfolding drop_over
drop_over-length budget total [] = refl
drop_over-length budget total (i ∷ is) =
    ground (arith, drop_over-length budget (minus_usize total i.token_count) is)

abbrev pub drops : CompactionStrategy → Bool
drops CompactionStrategy.drop_oldest = true
drops CompactionStrategy.drop_low_priority = true
drops _ = false

-- What a compaction by dropping promises of its answer.
abbrev pub Met : ContextCompactor → List ContextItem → List ContextItem × CompactionResult → Type 0
Met c items r =
    (exact_sum r.0 ≤ c.budget)
    × (r.1.target_met ≡ true)
    × (r.1.tokens_after ≡ exact_sum r.0)
    × (r.1.items_removed + length r.0 ≡ length items)

outcome-Met :
    (c : ContextCompactor) (items from : List ContextItem)
    → exact_sum items < 18446744073709551616
    → exact_sum from ≡ exact_sum items
    → length from ≡ length items
    → Met c items (
        outcome c
          (sum_tokens items)
          (drop_over c.budget (sum_tokens items) from).0
          (drop_over c.budget (sum_tokens items) from).1
          0)
unfolding outcome
outcome-Met c items from small same size =
    let before = sum_tokens-exact items small in
    let fits =
      drop_over-meets c.budget (sum_tokens items) from (omega (arith, same, before))
        (omega (arith, before)) in
    let after =
      sum_tokens-exact (drop_over c.budget (sum_tokens items) from).0
        (omega (arith, before, fits)) in
    let counted = drop_over-length c.budget (sum_tokens items) from in
    (fits.0, ground (arith, fits, after), after, counted ∙ size)

reduce-Met :
    (c : ContextCompactor) (s : CompactionStrategy) (items : List ContextItem)
    → exact_sum items < 18446744073709551616
    → drops s ≡ true
    → (r : List ContextItem × CompactionResult) × (reduce c s items ≡ some r) × Met c items r
unfolding reduce
reduce-Met c CompactionStrategy.drop_oldest items small h =
    (_, refl, outcome-Met c items items small refl refl)
reduce-Met c CompactionStrategy.drop_low_priority items small h = (
  _,
  refl,
  outcome-Met c items (sort_items items) small (sum-sort_items items) (length-sort_items items),
)
reduce-Met c CompactionStrategy.truncate_to_headline items small h = absurd (ground arith)
reduce-Met c CompactionStrategy.merge_adjacent items small h = absurd (ground arith)

-- A compaction that drops items, whose token counts add up to a `usize`, always returns, and always
-- meets its budget: what is left has no more tokens than the budget, the answer says so and gives
-- the count, and every item is left or counted as removed.
pub compact-Met :
    (c : ContextCompactor) (items : List ContextItem)
    → exact_sum items < 18446744073709551616
    → drops c.strategy ≡ true
    → (r : List ContextItem × CompactionResult) × (compact c items ≡ some r) × Met c items r
unfolding compact
compact-Met c items small h =
    elim (Bool-cases (leb (sum_tokens items) c.budget && not (merges c.strategy))) [
      | inl e ↦ (
        unchanged items,
        rw (e, compact) refl,
        (
          let before = sum_tokens-exact items small in ground (arith, before),
          refl,
          sum_tokens-exact items small,
          omega arith,
        ),
      )
      | inr e ↦
          let (r, found, met) = reduce-Met c c.strategy items small h in
          (r, rw (e, compact) found, met)
    ]
