-- ===== src/Examples/Caches.antt =====
-- The theorem on the LRU cache at a full cache.
use tiny_mite.Prelude.{ℕ, String, [], ◌∷◌, string_eq}
use tiny_mite.Runtime.Cache.{LruCache, insert_cached}

abbrev cache : LruCache String ℕ
cache = record { capacity = 2; entries = ("a", (1, 3)) ∷ ("b", (2, 1)) ∷ []; tick = 4 }

abbrev after : LruCache String ℕ
after = insert_cached String ℕ cache "c" 9
