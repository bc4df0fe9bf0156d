-- ===== src/Prelude/Eq.antt =====
-- Rust's `Eq`, with the law that `HashMap` keys and `contains` rely on.
use Prim.Native.Nat.{ℕ}
use Prim.Native.String.{String}
use mathlib.Core.Path.{◌≡◌, refl}
use mathlib.Core.Logic.{◌↔◌}
use mathlib.Core.Bool.{Bool, true, false, ◌||◌, decide, decide_iff}
use mathlib.Core.List.{List, [], ◌∷◌, ◌++◌}
use native.Mathlib.Omega.{arith}
use text.Mathlib.Text.{◌==◌ as str_eq}
use text.Mathlib.TextEquality.{eq_iff}
use tiny_mite.Prelude.Tests.{◌==◌ as nat_beq, ==_iff}

pub record IsEq {ℓ} (A : Type ℓ) : Type ℓ where
  pub beq : A → A → Bool
  pub beq_iff : (a b : A) → (beq a b ≡ true) ↔ (a ≡ b)

infix 50 ◌===◌
abbrev pub ◌===◌ {ℓ} : {A : Type ℓ} ⦃e : IsEq A⦄ → A → A → Bool
◌===◌ ⦃e⦄ = e.beq

instance abbrev pub nat_eq : IsEq ℕ
nat_eq = record { beq = nat_beq; beq_iff = ==_iff }

instance abbrev pub string_eq : IsEq String
string_eq = record { beq = str_eq; beq_iff = eq_iff }

-- `derive(PartialEq, Eq)` on an enum.
abbrev pub Discrete-eq {ℓ} : {A : Type ℓ} → Discrete A → IsEq A
Discrete-eq d = record { beq = λ a b. decide (d a b); beq_iff = λ a b. decide_iff (d a b) }

module _ {ℓ} {A : Type ℓ} ⦃e : IsEq A⦄ where
  -- `slice::contains`.
  abbrev pub contains : List A → A → Bool
  contains [] a = false
  contains (x ∷ xs) a = x === a || contains xs a

  pub contains-append :
      (xs ys : List A) (a : A) → contains (xs ++ ys) a ≡ (contains xs a || contains ys a)
  contains-append [] ys a = refl
  contains-append (x ∷ xs) ys a = ground (arith, contains-append xs ys a)
