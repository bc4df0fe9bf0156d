-- ===== src/Agents/ToolParser/Brackets/Whole.antt =====
-- What the walk to the matching bracket finds.
use Prim.Native.Char.{code}
use tiny_mite.Agents.ToolParser.Brackets.{Walk, step_walk, walk, matched}
use tiny_mite.Prelude.{
  ℕ, ◌≡◌, refl, ap, sym, String, some, concat, arith, Option-cases, Bool-cases, false, inl, inr,
}

walk-Whole :
    (left right : ℕ) (w : Walk) (s p : String)
    → walk left right w s ≡ some p
    → (rest : String) × (s ≡ concat p rest)
      × ((t : String) → walk left right w (concat p t) ≡ some p)
unfolding walk
walk-Whole left right w String.[] p h = absurd (ground arith)
walk-Whole left right w (String.◌∷◌ c s) p h =
    let next = step_walk left right w (code c) in
    elim (Bool-cases next.1) [
      | inl e ↦
          let one : String.◌∷◌ c String.[] ≡ p = ground arith in
          (s, rw (sym one) refl, λ t. rw (sym one) (rw (e, walk) refl))
      | inr e ↦ elim (Option-cases (walk left right next.0 s)) [
        | inl f ↦ absurd (ground arith)
        | inr (q, f) ↦
            let more : String.◌∷◌ c q ≡ p = ground arith in
            let (rest, split, whole) = walk-Whole left right next.0 s q f in
            (
              rest,
              rw (sym more) (ap (String.◌∷◌ c) split),
              λ t. rw (sym more) (rw (e, walk, whole t) refl),
            )
      ]
    ]

-- The bracketed text that is found is the beginning of the text that is searched, and it is found
-- whatever stands behind it.
pub matched-Whole :
    (left right : ℕ) (s p : String)
    → matched left right s ≡ some p
    → (rest : String) × (s ≡ concat p rest)
      × ((t : String) → matched left right (concat p t) ≡ some p)
matched-Whole left right s p h =
    walk-Whole left right (record { depth = 0; in_string = false; escaped = false }) s p h
