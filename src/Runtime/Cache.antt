-- ===== src/Runtime/Cache.antt =====
-- crates/tiny-mite-runtime/src/cache.rs: the generic LRU cache. The counter `tick` is not wrapped:
-- 64 bits outlast any run.
pub mod Eviction
use tiny_mite.Prelude.{
  ℕ, ◌+◌, Option, none, some, List, [], ◌∷◌, IsEq, length, leb, lookup, insert, remove, adjust,
  if◌then◌else◌,
}

module _ (K V : Type 0) where
  -- Each entry has its value and the tick at which it was last used.
  abbrev pub Entries : Type 0
  Entries = List (K × (V × ℕ))

  pub record LruCache : Type 0 where
    pub capacity : ℕ
    pub entries : Entries
    pub tick : ℕ

  unfoldable pub new_cache : ℕ → LruCache
  new_cache capacity = record { capacity = capacity; entries = []; tick = 0 }

  unfoldable pub clear_cache : LruCache → LruCache
  clear_cache c = record c { entries = [] }

  abbrev pub older : K × ℕ → Option (K × ℕ) → K × ℕ
  older x none = x
  older x (some y) = if leb x.1 y.1 then x else y

  -- `min_by_key` on the ticks.
  unfoldable pub oldest : Entries → Option (K × ℕ)
  oldest [] = none
  oldest ((k, x) ∷ es) = some (older (k, x.1) (oldest es))

module _ (K V : Type 0) ⦃e : IsEq K⦄ where
  unfoldable pub get_cached : LruCache K V → K → Option V × LruCache K V
  get_cached c k = elim (lookup k c.entries) [
    | none ↦ (none, c)
    | some x ↦ (
      some x.0,
      record c { entries = adjust k (λ y. (y.0, c.tick)) c.entries; tick = c.tick + 1 },
    )
  ]

  unfoldable pub make_room : ℕ → Entries K V → Entries K V
  make_room capacity es =
      if leb capacity (length es)
      then (elim (oldest K V es) [ none ↦ es | some x ↦ remove x.0 es ])
      else es

  unfoldable pub insert_cached : LruCache K V → K → V → LruCache K V
  insert_cached c k v = record c {
    entries = insert k (v, c.tick) (make_room c.capacity c.entries);
    tick = c.tick + 1;
  }
