-- ===== src/Scheduler/Queue/Order.antt =====
-- The order of the queue: sorted by score, ties by arrival, bounded.
use tiny_mite.Crates.{Crates}
use tiny_mite.Domain.Values.{Priority}
use tiny_mite.Scheduler.Queue.{
  QueueEntry, Scheduler, EnqueueError, priority_bonus, score, place, sort, enqueue,
}
use tiny_mite.Scheduler.Queue.Steady.{place_at, sort_at, IsSteady, sort-IsSteady}
use tiny_mite.Prelude.{
  ℕ, ◌+◌, ◌≤◌, ◌≡◌, ◌<◌, refl, arith, false, ok, err, List, [], ◌∷◌, ◌++◌, length, length-append,
  retain, All, leb, ◌==◌, Bool-cases, inl, inr,
}

module _ (X : Crates) (waited : X.Time → X.Time → ℕ) where
  abbrev pub Entries : Type 0
  Entries = List (QueueEntry X)

  -- Every entry scores at least as much as all that follow it.
  abbrev pub IsRanked : X.Time → Entries → Type 0
  IsRanked now [] = Unit
  IsRanked now (e ∷ es) =
      All (λ x. score X waited now x ≤ score X waited now e) es × IsRanked now es

  -- The entries of one score, in their order.
  abbrev pub scoring : X.Time → ℕ → Entries → Entries
  scoring now k es = retain (λ e. score X waited now e == k) es

  All-place :
      (now : X.Time) (k : ℕ) (e : QueueEntry X) (es : Entries)
      → score X waited now e ≤ k
      → All (λ x. score X waited now x ≤ k) es
      → All (λ x. score X waited now x ≤ k) (place_at X waited now e es)
  unfolding place
  All-place now k e [] h w = (h, tt)
  All-place now k e (x ∷ es) h (hx, w) =
      elim (Bool-cases (leb (score X waited now x) (score X waited now e))) [
        | inl le ↦ rw le (h, (hx, w))
        | inr gt ↦ rw gt (hx, All-place now k e es h w)
      ]

  All-mono :
      (now : X.Time) (k l : ℕ) (es : Entries)
      → k ≤ l
      → All (λ x. score X waited now x ≤ k) es
      → All (λ x. score X waited now x ≤ l) es
  All-mono now k l [] h w = tt
  All-mono now k l (x ∷ es) h (hx, w) = (omega arith, All-mono now k l es h w)

  place-IsRanked :
      (now : X.Time) (e : QueueEntry X) (es : Entries)
      → IsRanked now es
      → IsRanked now (place_at X waited now e es)
  unfolding place
  place-IsRanked now e [] w = (tt, tt)
  place-IsRanked now e (x ∷ es) (wx, w) =
      let a = score X waited now x in
      let b = score X waited now e in
      elim (Bool-cases (leb a b)) [
        | inl le ↦
            let a_le : a ≤ b = ground arith in rw le ((a_le, All-mono now a b es a_le wx), (wx, w))
        | inr gt ↦
            let b_le : b ≤ a = ground arith in
            rw gt (All-place now a e es b_le wx, place-IsRanked now e es w)
      ]

  sort-IsRanked : (now : X.Time) (es : Entries) → IsRanked now (sort_at X waited now es)
  unfolding sort
  sort-IsRanked now [] = tt
  sort-IsRanked now (e ∷ es) = place-IsRanked now e (sort_at X waited now es) (sort-IsRanked now es)

  scoring-place :
      (now : X.Time) (k : ℕ) (e : QueueEntry X) (es : Entries)
      → IsRanked now es
      → scoring now k (place_at X waited now e es) ≡ scoring now k (e ∷ es)
  unfolding place
  scoring-place now k e [] w = refl
  scoring-place now k e (x ∷ es) (wx, w) = ground (arith, scoring-place now k e es w)

  scoring-sort :
      (now : X.Time) (k : ℕ) (es : Entries)
      → scoring now k (sort_at X waited now es) ≡ scoring now k es
  unfolding sort
  scoring-sort now k [] = refl
  scoring-sort now k (e ∷ es) = ground (
    arith,
    scoring-place now k e (sort_at X waited now es) (sort-IsRanked now es),
    scoring-sort now k es,
  )

  length-place :
      (now : X.Time) (e : QueueEntry X) (es : Entries)
      → length (place_at X waited now e es) ≡ length es + 1
  unfolding place
  length-place now e [] = refl
  length-place now e (x ∷ es) = ground (arith, length-place now e es)

  length-sort : (now : X.Time) (es : Entries) → length (sort_at X waited now es) ≡ length es
  unfolding sort
  length-sort now [] = refl
  length-sort now (e ∷ es) =
      omega (arith, length-place now e (sort_at X waited now es), length-sort now es)

  -- A task is refused exactly when the queue is at its bound, and then nothing changes. Otherwise, if
  -- the readings of the clock during the sort give every entry the score that it has at `at`, the
  -- queue is ranked by these scores, and the entries of each score are those that it had in the same
  -- order, the new one last.
  pub enqueue_ranks :
      (s : Scheduler X) (now at : X.Time) (clock : ℕ → ℕ → X.Time × X.Time) (id : X.Uuid)
      (priority : Priority) (ram cpu : ℕ)
      → let e : QueueEntry X = record {
        task_id = id;
        priority = priority;
        enqueued_at = now;
        estimated_ram_bytes = ram;
        estimated_cpu = cpu;
      } in
        let (r, s') = enqueue X waited s now clock id priority ram cpu in
        (s.max_queue_size ≤ length s.queue → (r ≡ err EnqueueError.queue_full) × (s' ≡ s))
        × (length s.queue < s.max_queue_size
            → IsSteady X waited at clock (s.queue ++ e ∷ [])
            → (r ≡ ok tt)
              × IsRanked at s'.queue
              × ((k : ℕ) → scoring at k s'.queue ≡ scoring at k (s.queue ++ e ∷ []))
              × (length s'.queue ≡ length s.queue + 1))
  unfolding enqueue
  enqueue_ranks s now at clock id priority ram cpu =
      let e : QueueEntry X = record {
        task_id = id;
        priority = priority;
        enqueued_at = now;
        estimated_ram_bytes = ram;
        estimated_cpu = cpu;
      } in
      let es = s.queue ++ e ∷ [] in
      (
        λ full. (ground arith, ground arith),
        λ free steady.
            let ready : leb s.max_queue_size (length s.queue) ≡ false = ground arith in
            rw (ready, enqueue, sort-IsSteady X waited at clock es steady)
              (
                refl,
                sort-IsRanked at es,
                λ k. scoring-sort at k es,
                omega (arith, length-sort at es, length-append s.queue (e ∷ [])),
              ),
      )

  -- Waiting makes up for priority: an entry that has waited 990 seconds longer than another scores
  -- at least as much, whatever the two priorities.
  pub score_ages :
      (now : X.Time) (a b : QueueEntry X)
      → waited now b.enqueued_at + 990 ≤ waited now a.enqueued_at
      → score X waited now b ≤ score X waited now a
  unfolding score priority_bonus
  score_ages now a b h = ground arith
