-- ===== src/Runtime/Reliability/Limits.antt =====
-- The limit of concurrent tasks stays within its bounds; a checkpoint is what was saved last.
use tiny_mite.Crates.{Crates}
use tiny_mite.Runtime.Reliability.{
  AdaptiveConcurrency, new_concurrency, increase, decrease, adjust, adjust_each, TaskCheckpoint,
  CrashRecovery, save, load, clear,
}
use tiny_mite.Prelude.{
  ℕ, ◌/◌, ◌≤◌, ◌<◌, ◌≡◌, refl, Bool-cases, inl, inr, ◌||◌, ◌&&◌, ltb, String, none, some, List, [],
  ◌∷◌, arith, if◌then◌else◌, ◌===◌, string_eq, lookup-insert, lookup-remove,
}

-- The bounds do not cross, and the limit is between them.
pub record Bounded (low high : ℕ) (a : AdaptiveConcurrency) : Type 0 where
  pub low_is : a.min_concurrent ≡ low
  pub high_is : a.max_concurrent ≡ high
  pub fits : high < 18446744073709551615
  pub at_least : low ≤ a.current
  pub at_most : a.current ≤ high

increase-Bounded :
    (low high : ℕ) (a : AdaptiveConcurrency) → Bounded low high a → Bounded low high (increase a)
unfolding increase
increase-Bounded low high a b = record {
  low_is = b.low_is;
  high_is = b.high_is;
  fits = b.fits;
  at_least = ground (arith, b.high_is, b.at_least, b.at_most, b.fits);
  at_most = ground (arith, b.high_is);
}

decrease-Bounded :
    (low high : ℕ) (a : AdaptiveConcurrency) → Bounded low high a → Bounded low high (decrease a)
unfolding decrease
decrease-Bounded low high a b = record {
  low_is = b.low_is;
  high_is = b.high_is;
  fits = b.fits;
  at_least = ground (arith, b.low_is);
  at_most = ground (arith, b.low_is, b.at_least, b.at_most);
}

adjust-Bounded :
    (low high cpu memory : ℕ) (a : AdaptiveConcurrency)
    → Bounded low high a
    → Bounded low high (adjust cpu memory a)
unfolding adjust
adjust-Bounded low high cpu memory a b =
    elim (Bool-cases (ltb a.cpu_threshold cpu || ltb a.memory_threshold memory)) [
      | inl e ↦ rw (e, adjust) (decrease-Bounded low high a b)
      | inr e ↦
          elim (Bool-cases (ltb cpu (a.cpu_threshold / 2) && ltb memory (a.memory_threshold / 2))) [
            | inl f ↦ rw (e, adjust, f) (increase-Bounded low high a b)
            | inr f ↦ rw (e, adjust, f) b
          ]
    ]

adjust_each-Bounded :
    (low high : ℕ) (seen : List (ℕ × ℕ)) (a : AdaptiveConcurrency)
    → Bounded low high a
    → Bounded low high (adjust_each seen a)
unfolding adjust_each
adjust_each-Bounded low high [] a b = b
adjust_each-Bounded low high ((cpu, memory) ∷ seen) a b =
    adjust_each-Bounded low high seen (adjust cpu memory a) (adjust-Bounded low high cpu memory a b)

-- The limit of a new controller stays between its two bounds, whatever load is observed and however
-- often, if the bounds do not cross and the upper one is less than the largest `usize`.
pub adjust_each-new_concurrency :
    (low high : ℕ) (seen : List (ℕ × ℕ))
    → low ≤ high
    → high < 18446744073709551615
    → (low ≤ (adjust_each seen (new_concurrency low high)).current)
      × ((adjust_each seen (new_concurrency low high)).current ≤ high)
unfolding new_concurrency
adjust_each-new_concurrency low high seen h fits =
    let start : Bounded low high (new_concurrency low high) = record {
      low_is = refl;
      high_is = refl;
      fits = fits;
      at_least = omega arith;
      at_most = h;
    } in
    let b = adjust_each-Bounded low high seen (new_concurrency low high) start in
    (b.at_least, b.at_most)

-- After a save, a task's checkpoint is the one saved, and those of the other tasks are as before;
-- after a clear it is gone, and those of the others are as before.
pub load_lem :
    (X : Crates) (c : TaskCheckpoint X) (cleared task_id : String) (m : CrashRecovery X)
    → (load X task_id (save X c m) ≡ (if c.task_id === task_id then some c else load X task_id m))
      × (load X task_id (clear X cleared m)
          ≡ (if cleared === task_id then none else load X task_id m))
unfolding load save clear
load_lem X c cleared task_id m =
    (lookup-insert c.task_id task_id c m, lookup-remove cleared task_id m)
