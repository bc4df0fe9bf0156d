-- ===== src/Scheduler/Queue/Steady.antt =====
-- The sort of the queue while no score changes: it is the sort at one time.
use tiny_mite.Crates.{Crates}
use tiny_mite.Scheduler.Queue.{QueueEntry, score, place, sort}
use tiny_mite.Prelude.{
  ℕ, suc, ◌≡◌, refl, List, [], ◌∷◌, IsIn, here, there, IsIn-cases, leb, Bool-cases, inl, inr,
}

module _ (X : Crates) (waited : X.Time → X.Time → ℕ) where
  -- Placing and sorting with all scores taken at one time.
  abbrev pub place_at : X.Time → QueueEntry X → List (QueueEntry X) → List (QueueEntry X)
  place_at now = place X waited (λ k. (now, now))

  abbrev pub sort_at : X.Time → List (QueueEntry X) → List (QueueEntry X)
  sort_at now = sort X waited (λ j k. (now, now))

  -- Read in any of the comparisons, an entry scores what it scores at `now`.
  abbrev pub Steady : X.Time → (ℕ → X.Time × X.Time) → QueueEntry X → Type 0
  Steady now clock e =
      (k : ℕ)
      → (score X waited (clock k).0 e ≡ score X waited now e)
        × (score X waited (clock k).1 e ≡ score X waited now e)

  -- So it is for all the entries, in all the comparisons of a sort.
  abbrev pub IsSteady : X.Time → (ℕ → ℕ → X.Time × X.Time) → List (QueueEntry X) → Type 0
  IsSteady now clock es = (e : QueueEntry X) → IsIn e es → (j : ℕ) → Steady now (clock j) e

  place-Steady :
      (now : X.Time) (clock : ℕ → X.Time × X.Time) (e : QueueEntry X) (es : List (QueueEntry X))
      → Steady now clock e
      → ((x : QueueEntry X) → IsIn x es → Steady now clock x)
      → place X waited clock e es ≡ place_at now e es
  unfolding place
  place-Steady now clock e [] h w = refl
  place-Steady now clock e (x ∷ xs) h w =
      let rest =
        place-Steady now (λ k. clock (suc k)) e xs (λ k. h (suc k))
          (λ y m k. w y (there m) (suc k)) in
      rw ((w x (here refl) 0).0, (h 0).1, rest) refl

  IsIn-place :
      (clock : ℕ → X.Time × X.Time) (e : QueueEntry X) (es : List (QueueEntry X)) (y : QueueEntry X)
      → IsIn y (place X waited clock e es)
      → IsIn y (e ∷ es)
  unfolding place
  IsIn-place clock e [] y m = m
  IsIn-place clock e (x ∷ xs) y m =
      elim (Bool-cases (leb (score X waited (clock 0).0 x) (score X waited (clock 0).1 e))) [
        | inl le ↦ rw le at m
        | inr gt ↦ elim (IsIn-cases (rw gt at m)) [
          | inl first ↦ there (here first)
          | inr later ↦ elim (IsIn-cases (IsIn-place (λ k. clock (suc k)) e xs y later)) [
            | inl first ↦ here first
            | inr deeper ↦ there (there deeper)
          ]
        ]
      ]

  IsIn-sort :
      (clock : ℕ → ℕ → X.Time × X.Time) (es : List (QueueEntry X)) (y : QueueEntry X)
      → IsIn y (sort X waited clock es)
      → IsIn y es
  unfolding sort
  IsIn-sort clock [] y m = m
  IsIn-sort clock (e ∷ es) y m =
      elim (IsIn-cases (IsIn-place (clock 0) e (sort X waited (λ j. clock (suc j)) es) y m)) [
        | inl first ↦ here first
        | inr later ↦ there (IsIn-sort (λ j. clock (suc j)) es y later)
      ]

  pub sort-IsSteady :
      (now : X.Time) (clock : ℕ → ℕ → X.Time × X.Time) (es : List (QueueEntry X))
      → IsSteady now clock es
      → sort X waited clock es ≡ sort_at now es
  unfolding sort
  sort-IsSteady now clock [] h = refl
  sort-IsSteady now clock (e ∷ es) h =
      let rest = sort-IsSteady now (λ j. clock (suc j)) es (λ x m j. h x (there m) (suc j)) in
      let placed =
        place-Steady now (clock 0) e (sort X waited (λ j. clock (suc j)) es) (h e (here refl) 0)
          (λ x m. h x (there (IsIn-sort (λ j. clock (suc j)) es x m)) 0) in
      rw (placed, rest) refl
