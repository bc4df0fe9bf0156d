-- ===== src/Runtime/Pressure.antt =====
-- crates/tiny-mite-runtime/src/cache.rs: the caches of the runtime, their eviction under memory
-- pressure, and the trace of latencies. A panic is `none`.
use tiny_mite.Crates.{Crates}
use tiny_mite.Runtime.Cache.{LruCache, new_cache, clear_cache}
use tiny_mite.Prelude.{
  ℕ, ℤ, ◌≤◌, ◌<◌, ◌≡◌, refl, Bool, false, String, Option, none, some, List, [], ◌∷◌, ◌++◌, arith,
  length, length-append, split_first, ltb, leb, if◌then◌else◌, Bool-cases, inl, inr,
}

-- `f64`, and the embedding vectors of `f32`.
pub record Doubles : Type 1 where
  pub F64 : Type 0
  pub Vector : Type 0
  pub decimal : ℕ → ℕ → F64
  pub of_usize : ℕ → F64
  pub fadd : F64 → F64 → F64
  pub fdiv : F64 → F64 → F64

module _ (D : Doubles) where
  pub record RuntimeCaches : Type 0 where
    pub token_cache : LruCache String (List ℤ)
    pub embedding_cache : LruCache String D.Vector
    pub metadata_cache : LruCache String String

  unfoldable pub with_capacities : ℕ → ℕ → ℕ → RuntimeCaches
  with_capacities tokens embeddings metadata = record {
    token_cache = new_cache String (List ℤ) tokens;
    embedding_cache = new_cache String D.Vector embeddings;
    metadata_cache = new_cache String String metadata;
  }

  -- `RuntimeCaches::new`.
  unfoldable pub new_caches : RuntimeCaches
  new_caches = with_capacities 1024 256 64

  pub record MemoryPressureManager : Type 0 where
    pub high_water_mark_bytes : ℕ
    pub low_water_mark_bytes : ℕ
    pub evict_fraction : D.F64

  -- `MemoryPressureManager::new`.
  unfoldable pub new_pressure_manager : MemoryPressureManager
  new_pressure_manager = record {
    high_water_mark_bytes = 12884901888;
    low_water_mark_bytes = 8589934592;
    evict_fraction = D.decimal 25 2;
  }

  unfoldable pub is_under_pressure : MemoryPressureManager → ℕ → Bool
  is_under_pressure m usage = ltb m.high_water_mark_bytes usage

  unfoldable pub is_pressure_relieved : MemoryPressureManager → ℕ → Bool
  is_pressure_relieved m usage = ltb usage m.low_water_mark_bytes

  unfoldable pub evict_if_pressured : MemoryPressureManager → RuntimeCaches → ℕ → RuntimeCaches
  evict_if_pressured m c usage =
      if is_under_pressure m usage
      then record c {
        token_cache = clear_cache String (List ℤ) c.token_cache;
        embedding_cache = clear_cache String D.Vector c.embedding_cache;
      }
      else c

-- `LatencyTracer`.
module _ (X : Crates) (D : Doubles) where
  pub record LatencySample : Type 0 where
    pub operation : String
    pub duration_ms : D.F64
    pub timestamp : X.Time

  pub record LatencyTracer : Type 0 where
    pub samples : List LatencySample
    pub max_samples : ℕ

  unfoldable pub new_tracer : ℕ → LatencyTracer
  new_tracer max_samples = record { samples = []; max_samples = max_samples }

  -- `remove(0)` panics on an empty list.
  unfoldable pub make_room_for_sample : LatencyTracer → Option (List LatencySample)
  make_room_for_sample t =
      if leb t.max_samples (length t.samples)
      then (elim (split_first t.samples) [ none ↦ none | some (_, rest) ↦ some rest ])
      else some t.samples

  unfoldable pub record_latency : X.Time → String → D.F64 → LatencyTracer → Option LatencyTracer
  record_latency now operation duration_ms t = elim (make_room_for_sample t) [
    | none ↦ none
    | some samples ↦ some (record t {
      samples =
          samples
          ++ (record { operation = operation; duration_ms = duration_ms; timestamp = now } ∷ []);
    })
  ]

  unfoldable pub sum_durations : D.F64 → List LatencySample → D.F64
  sum_durations acc [] = acc
  sum_durations acc (s ∷ samples) = sum_durations (D.fadd acc s.duration_ms) samples

  abbrev pub average_of : List LatencySample → D.F64
  average_of [] = D.decimal 0 1
  average_of (s ∷ samples) =
      D.fdiv (sum_durations (D.decimal 0 1) (s ∷ samples)) (D.of_usize (length (s ∷ samples)))

  unfoldable pub average_ms : LatencyTracer → D.F64
  average_ms t = average_of t.samples

  unfoldable pub sample_count : LatencyTracer → ℕ
  sample_count t = length t.samples

  record_latency_of :
      (now : X.Time) (operation : String) (duration_ms : D.F64) (limit : ℕ)
      (samples : List LatencySample)
      → 0 < limit
      → length samples ≤ limit
      → (after : List LatencySample) × ((record_latency now operation duration_ms
              (record { samples = samples; max_samples = limit })
            ≡ some (record { samples = after; max_samples = limit }))
          × (length after ≤ limit))
  unfolding record_latency make_room_for_sample
  record_latency_of now operation duration_ms limit [] room h =
      let under : leb limit 0 ≡ false = ground arith in
      (
        record { operation = operation; duration_ms = duration_ms; timestamp = now } ∷ [],
        (rw (under, record_latency, make_room_for_sample) refl, omega arith),
      )
  record_latency_of now operation duration_ms limit (s ∷ rest) room h =
      let one : List LatencySample =
        record { operation = operation; duration_ms = duration_ms; timestamp = now } ∷ [] in
      elim (Bool-cases (leb limit (length (s ∷ rest)))) [
        | inr under ↦ (
          (s ∷ rest) ++ one,
          (
            rw (under, record_latency, make_room_for_sample) refl,
            ground (arith, length-append rest one),
          ),
        )
        | inl full ↦ (
          rest ++ one,
          (
            rw (full, record_latency, make_room_for_sample) refl,
            ground (arith, length-append rest one),
          ),
        )
      ]

  -- A tracer that has room for a sample and is within its limit takes a sample without a panic and
  -- stays within its limit.
  pub record_latency-bounded :
      (now : X.Time) (operation : String) (duration_ms : D.F64) (t : LatencyTracer)
      → 0 < t.max_samples
      → length t.samples ≤ t.max_samples
      → (after : List LatencySample) × ((record_latency now operation duration_ms t
            ≡ some (record t { samples = after }))
          × (length after ≤ t.max_samples))
  record_latency-bounded now operation duration_ms t room within =
      record_latency_of now operation duration_ms t.max_samples t.samples room within
