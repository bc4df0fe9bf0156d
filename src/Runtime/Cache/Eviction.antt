-- ===== src/Runtime/Cache/Eviction.antt =====
-- What an insertion into the cache keeps, and what it evicts.
use tiny_mite.Runtime.Cache.{Entries, LruCache, oldest, make_room, insert_cached}
use tiny_mite.Prelude.{
  ℕ, ◌≤◌, ◌<◌, ◌≡◌, ◌⊎◌, inl, inr, refl, arith, false, none, some, [], ◌∷◌, All, IsEq, ◌===◌,
  length, length-insert, length-remove-le, leb, lookup, lookup-insert, lookup-remove, remove,
  Option-cases, Bool-cases,
}

module _ (K V : Type 0) ⦃e : IsEq K⦄ where
  -- Every entry was used at this tick or later.
  abbrev pub AllSince : ℕ → Entries K V → Type 0
  AllSince t = All (λ x. t ≤ x.1.1)

  AllSince-mono : (t u : ℕ) (es : Entries K V) → t ≤ u → AllSince u es → AllSince t es
  AllSince-mono t u [] h w = tt
  AllSince-mono t u (x ∷ es) h (hx, w) = (omega arith, AllSince-mono t u es h w)

  -- The entry that is chosen is the least recently used, and to remove it makes room.
  record IsOldest (es : Entries K V) (k : K) (t : ℕ) : Type 0 where
    since : AllSince t es
    shorter : length (remove k es) < length es

  IsOldest-head :
      (j : K) (x : V × ℕ) (es : Entries K V) → AllSince x.1 es → IsOldest ((j, x) ∷ es) j x.1
  unfolding remove
  IsOldest-head j x es w = record {
    since = (omega arith, w);
    shorter = ground (arith, e.beq_iff j j, length-remove-le j es);
  }

  IsOldest-tail :
      (j k : K) (t : ℕ) (x : V × ℕ) (es : Entries K V)
      → t ≤ x.1
      → IsOldest es k t
      → IsOldest ((j, x) ∷ es) k t
  unfolding remove
  IsOldest-tail j k t x es h w = record {
    since = (h, w.since);
    shorter = ground (arith, w.shorter);
  }

  oldest-none : (es : Entries K V) (t : ℕ) → oldest K V es ≡ none → (length es ≡ 0) × AllSince t es
  unfolding oldest
  oldest-none [] t h = (refl, tt)
  oldest-none (x ∷ es) t h = ground arith

  oldest-IsOldest : (es : Entries K V) (y : K × ℕ) → oldest K V es ≡ some y → IsOldest es y.0 y.1
  unfolding oldest
  oldest-IsOldest [] y h = ground arith
  oldest-IsOldest ((j, x) ∷ es) y h = elim (Option-cases (oldest K V es)) [
    | inl none_left ↦
        let same : y ≡ (j, x.1) = ground arith in
        rw same (IsOldest-head j x es (oldest-none es x.1 none_left).1)
    | inr (z, later) ↦
        let w = oldest-IsOldest es z later in
        elim (Bool-cases (leb x.1 z.1)) [
          | inl le ↦
              let same : y ≡ (j, x.1) = ground arith in
              let below : x.1 ≤ z.1 = ground arith in
              rw same (IsOldest-head j x es (AllSince-mono x.1 z.1 es below w.since))
          | inr gt ↦
              let same : y ≡ z = ground arith in
              let below : z.1 ≤ x.1 = ground arith in rw same (IsOldest-tail j z.0 z.1 x es below w)
        ]
  ]

  make_room-keeps :
      (capacity : ℕ) (es : Entries K V)
      → 0 < capacity
      → length es ≤ capacity
      → (length (make_room K V capacity es) < capacity)
        × ((j : K)
            → (lookup j (make_room K V capacity es) ≡ lookup j es)
              ⊎ ((t : ℕ) × (capacity ≤ length es)
                  × AllSince t es
                  × (lookup j (make_room K V capacity es) ≡ none)))
  unfolding make_room
  make_room-keeps capacity es positive within = elim (Bool-cases (leb capacity (length es))) [
    | inr free ↦ (ground arith, λ j. inl (ground arith))
    | inl full ↦ elim (Option-cases (oldest K V es)) [
      | inl empty ↦ absurd (ground (arith, (oldest-none es 0 empty).0))
      | inr ((i, t), found) ↦
          let w = oldest-IsOldest es (i, t) found in
          (
            ground (arith, w.shorter),
            λ j. elim (Bool-cases (i === j)) [
              | inl hit ↦ inr (t, ground arith, w.since, ground (arith, lookup-remove i j es))
              | inr miss ↦ inl (ground (arith, lookup-remove i j es))
            ],
          )
    ]
  ]

  -- A cache of positive capacity that is within its capacity stays so when a value is inserted; the
  -- value is then found under its key; and any other key is looked up as before, unless the cache was
  -- full and the key was that of the least recently used entry, which is evicted.
  pub insert_cached-evicts :
      (c : LruCache K V) (k : K) (v : V)
      → 0 < c.capacity
      → length c.entries ≤ c.capacity
      → let c' = insert_cached K V c k v in
        (length c'.entries ≤ c.capacity)
        × (lookup k c'.entries ≡ some (v, c.tick))
        × ((j : K)
            → (k === j) ≡ false
            → (lookup j c'.entries ≡ lookup j c.entries)
              ⊎ ((t : ℕ) × (c.capacity ≤ length c.entries)
                  × AllSince t c.entries
                  × (lookup j c'.entries ≡ none)))
  unfolding insert_cached
  insert_cached-evicts c k v positive within =
      let room = make_room K V c.capacity c.entries in
      let (short, kept) = make_room-keeps c.capacity c.entries positive within in
      (
        ground (arith, length-insert k (v, c.tick) room),
        ground (arith, lookup-insert k k (v, c.tick) room, e.beq_iff k k),
        λ j apart. elim (kept j) [
          | inl same ↦ inl (ground (arith, lookup-insert k j (v, c.tick) room))
          | inr (t, full, since, gone) ↦
              inr (t, full, since, ground (arith, lookup-insert k j (v, c.tick) room))
        ],
      )
