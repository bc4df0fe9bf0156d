-- ===== src/Runtime/Context/Compile/Kept.antt =====
-- No item of a window is lost in its compilation.
use tiny_mite.Crates.{Crates}
use tiny_mite.Runtime.Context.{ContextItem, ContextZone, ContextWindow}
use tiny_mite.Runtime.Context.Eviction.{evict_zones}
use tiny_mite.Runtime.Context.Compile.{CompiledContext, duplicate_key}
use tiny_mite.Prelude.{ℕ, ◌≡◌, some, String, List, IsIn, ◌⊎◌, unwrap_or, lookup, string_eq}

module _ (X : Crates) where
  -- An item of the same kind and content is among those left.
  pub record Represented (items : List (ContextItem X)) (y : ContextItem X) : Type 0 where
    pub witness_item : ContextItem X
    pub among : IsIn witness_item items
    pub same_key : duplicate_key X witness_item ≡ duplicate_key X y

  abbrev occurrences : String → List (String × ℕ) → ℕ
  occurrences key seen = unwrap_or (lookup key seen) 0

  -- The loop over the zones ends without a panic, and keeps or evicts every item.
  record ZonesEnd (zs : List (ContextZone X)) : Type 0 where
    zones : List (ContextZone X)
    items : List (ContextItem X)
    evicted : List (ContextItem X)
    result : evict_zones X zs ≡ some (zones, items, evicted)
    kept :
        (z : ContextZone X) (y : ContextItem X)
        → IsIn z zs
        → IsIn y z.items
        → IsIn y items ⊎ IsIn y evicted

  -- Every item of the window's zones is evicted, or one of its kind and content is compiled.
  pub record Keeps (w : ContextWindow X) (c : CompiledContext X) : Type 0 where
    pub keeps :
        (z : ContextZone X) (y : ContextItem X)
        → IsIn z w.zones
        → IsIn y z.items
        → IsIn y c.evicted ⊎ Represented c.items y
