-- ===== src/Runtime/Context/Eviction.antt =====
-- The eviction from a zone, in `ContextCompiler::compile` of
-- crates/tiny-mite-runtime/src/context.rs.
pub mod Kept
pub mod Outcome
use tiny_mite.Crates.{Crates}
use tiny_mite.Runtime.Context.{ContextItem, ContextZone, EvictionPolicy}
use tiny_mite.Prelude.{
  ℕ, zero, suc, ◌+◌, ◌-◌, Bool, true, false, not, ◌&&◌, Option, none, some, List, [], ◌∷◌, ◌++◌,
  length, ltb, leb, if◌then◌else◌,
}

module _ (X : Crates) where
  -- The items that are not pinned, with their positions from the given one on.
  unfoldable pub candidates : ℕ → List (ContextItem X) → List (ℕ × ContextItem X)
  candidates i [] = []
  candidates i (item ∷ items) =
      let rest = candidates (i + 1) items in if item.pinned then rest else (i, item) ∷ rest

  -- `min_by_key`, which returns the first of several minima.
  unfoldable pub min_by_key :
      (ContextItem X → ℕ) → ℕ × ContextItem X → List (ℕ × ContextItem X) → ℕ × ContextItem X
  min_by_key key best [] = best
  min_by_key key best (c ∷ cs) =
      min_by_key key (if ltb (key (c.1)) (key (best.1)) then c else best) cs

  unfoldable pub choose :
      EvictionPolicy → ℕ × ContextItem X → List (ℕ × ContextItem X) → ℕ × ContextItem X
  choose EvictionPolicy.lowest_priority c cs = min_by_key (λ i. i.priority) c cs
  choose EvictionPolicy.lowest_relevance c cs = min_by_key (λ i. i.relevance) c cs
  choose _ c cs = c

  -- `slice::last`, with its position.
  unfoldable pub last_item : ℕ → List (ContextItem X) → Option (ℕ × ContextItem X)
  last_item i [] = none
  last_item i (item ∷ []) = some (i, item)
  last_item i (item ∷ (next ∷ items)) = last_item (i + 1) (next ∷ items)

  abbrev pub target_of : ContextZone X → List (ℕ × ContextItem X) → Option (ℕ × ContextItem X)
  target_of z [] = last_item 0 z.items
  target_of z (c ∷ cs) = some (choose z.eviction c cs)

  -- `select_eviction_target`; it is called on zones with items, and without an item it panics.
  unfoldable pub select_eviction_target : ContextZone X → Option (ℕ × ContextItem X)
  select_eviction_target z = target_of z (candidates 0 z.items)

  -- `Vec::remove`.
  unfoldable pub remove_at : ℕ → List (ContextItem X) → List (ContextItem X)
  remove_at i [] = []
  remove_at zero (item ∷ items) = items
  remove_at (suc i) (item ∷ items) = item ∷ remove_at i items

  abbrev pub is_empty : List (ContextItem X) → Bool
  is_empty [] = true
  is_empty (_ ∷ _) = false

  abbrev pub over_budget : ContextZone X → Bool
  over_budget z = ltb z.max_tokens z.used_tokens && not (is_empty z.items)

  abbrev pub without : ContextZone X → ℕ × ContextItem X → ContextZone X
  without z (idx, item) = record z {
    used_tokens = z.used_tokens - item.token_count;
    items = remove_at idx z.items;
  }

  -- The loop of `compile` on a zone: the zone after it, and the items that it evicts in their
  -- order. A missing target is a panic.
  unfoldable pub evict : ℕ → ContextZone X → Option (ContextZone X × List (ContextItem X))
  evict zero z = some (z, [])
  evict (suc n) z =
      if over_budget z
      then (elim (select_eviction_target z) [
        | none ↦ none
        | some target ↦ elim (evict n (without z target)) [
          | none ↦ none
          | some (after, evicted) ↦ some (after, target.1 ∷ evicted)
        ]
      ])
      else some (z, [])

  -- Each round takes an item, so that the number of the items is enough.
  unfoldable pub evict_zone : ContextZone X → Option (ContextZone X × List (ContextItem X))
  evict_zone z = evict (length z.items) z

  -- The loop over the zones: the zones after it, all items that are left, and those evicted.
  unfoldable pub evict_zones :
      List (ContextZone X)
      → Option (List (ContextZone X) × List (ContextItem X) × List (ContextItem X))
  evict_zones [] = some ([], [], [])
  evict_zones (z ∷ zs) =
      let rest = evict_zones zs in
      elim (evict_zone z) [
        | none ↦ none
        | some (after, evicted) ↦ elim rest [
          | none ↦ none
          | some (zones, items, others) ↦
              some (after ∷ zones, after.items ++ items, evicted ++ others)
        ]
      ]
