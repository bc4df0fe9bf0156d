-- ===== src/Prelude/Lists.antt =====
-- Lists measured by native numbers, for `Vec` and `VecDeque`.
use Prim.Native.Nat.{ℕ, zero, suc, ◌+◌, ◌-◌, ◌≤◌, ◌<◌}
use mathlib.Core.Path.{◌≡◌, refl}
use mathlib.Core.Bool.{Bool, true, false, ◌&&◌, ◌||◌}
use mathlib.Core.List.{List, [], ◌∷◌, ◌++◌}
use mathlib.Core.Option.{Option, none, some}
use mathlib.Core.Logic.{◌⊎◌, inl, inr}
use native.Mathlib.Omega.{arith}
use tiny_mite.Prelude.Tests.{if◌then◌else◌}

module _ {ℓ} {A : Type ℓ} where
  abbrev pub length : List A → ℕ
  length [] = 0
  length (x ∷ xs) = suc (length xs)

  pub length-append : (xs ys : List A) → length (xs ++ ys) ≡ length xs + length ys
  length-append [] ys = omega arith
  length-append (x ∷ xs) ys = omega (arith, length-append xs ys)

  -- `iter().all` and `iter().any`.
  abbrev pub all : (A → Bool) → List A → Bool
  all p [] = true
  all p (x ∷ xs) = p x && all p xs

  abbrev pub any : (A → Bool) → List A → Bool
  any p [] = false
  any p (x ∷ xs) = p x || any p xs

  -- `Vec::retain`, `iter().filter`.
  abbrev pub retain : (A → Bool) → List A → List A
  retain p [] = []
  retain p (x ∷ xs) = let rest = retain p xs in if p x then x ∷ rest else rest

  pub length-retain-le : (p : A → Bool) (xs : List A) → length (retain p xs) ≤ length xs
  length-retain-le p [] = omega arith
  length-retain-le p (x ∷ xs) = ground (arith, length-retain-le p xs)

  pub all-append : (p : A → Bool) (xs ys : List A) → all p (xs ++ ys) ≡ (all p xs && all p ys)
  all-append p [] ys = refl
  all-append p (x ∷ xs) ys = ground (arith, all-append p xs ys)

  -- Every element satisfies the predicate.
  abbrev pub All {κ} : (A → Type κ) → List A → Type κ
  All P [] = Unit
  All P (x ∷ xs) = P x × All P xs

  abbrev pub drop : ℕ → List A → List A
  drop zero xs = xs
  drop (suc n) [] = []
  drop (suc n) (x ∷ xs) = drop n xs

  pub length-drop : (n : ℕ) (xs : List A) → length (drop n xs) ≡ length xs - n
  length-drop zero xs = omega arith
  length-drop (suc n) [] = omega arith
  length-drop (suc n) (x ∷ xs) = omega (arith, length-drop n xs)

  pub drop-append : (n : ℕ) (xs ys : List A) → n ≤ length xs → drop n (xs ++ ys) ≡ drop n xs ++ ys
  drop-append zero xs ys h = refl
  drop-append (suc n) [] ys h = absurd (omega arith)
  drop-append (suc n) (x ∷ xs) ys h = drop-append n xs ys (omega arith)

  -- `Vec::remove(0)` and `VecDeque::pop_front`: the first element and the rest.
  abbrev pub split_first : List A → Option (A × List A)
  split_first [] = none
  split_first (x ∷ xs) = some (x, xs)

  pub split_first-drop :
      (n : ℕ) (xs : List A)
      → n < length xs
      → (x : A) × (split_first (drop n xs) ≡ some (x, drop (suc n) xs))
  split_first-drop n [] h = absurd (omega arith)
  split_first-drop zero (x ∷ xs) h = (x, refl)
  split_first-drop (suc n) (x ∷ xs) h = split_first-drop n xs (omega arith)

  -- The element stands somewhere in the list.
  pub data IsIn (a : A) : List A → Type ℓ where
    here : {x : A} {xs : List A} → a ≡ x → IsIn a (x ∷ xs)
    there : {x : A} {xs : List A} → IsIn a xs → IsIn a (x ∷ xs)

  pub not_in_nil : {a : A} → IsIn a [] → ⊥
  not_in_nil h = elim h [ ]

  pub IsIn-cases : {a x : A} {xs : List A} → IsIn a (x ∷ xs) → (a ≡ x) ⊎ IsIn a xs
  IsIn-cases (here e) = inl e
  IsIn-cases (there m) = inr m
