-- ===== src/Prelude/Texts.antt =====
-- `str`: concatenation, prefixes and substring search, by characters.
use Prim.Native.Char.{code}
use Prim.Native.Nat.{ℕ, zero, suc, ◌+◌, ◌≤◌, ◌<◌}
use Prim.Native.String.{String}
use mathlib.Core.Path.{◌≡◌, refl}
use mathlib.Core.Bool.{Bool, false, ◌||◌}
use mathlib.Core.Logic.{inl, inr}
use native.Mathlib.Omega.{arith}
use mathlib.Core.Option.{Option, none, some}
use mathlib.Core.List.{List, [], ◌∷◌}
use tiny_mite.Prelude.Tests.{◌==◌, if◌then◌else◌, is_some, ==_iff, Option-cases}

abbrev pub concat : String → String → String
concat String.[] t = t
concat (String.◌∷◌ c s) t = String.◌∷◌ c (concat s t)

-- `format!` of the parts in order.
abbrev pub concat_all : List String → String
concat_all [] = ""
concat_all (s ∷ ss) = concat s (concat_all ss)

-- `strip_prefix`: the prefix first.
abbrev pub strip_prefix : String → String → Option String
strip_prefix String.[] t = some t
strip_prefix (String.◌∷◌ c s) String.[] = none
strip_prefix (String.◌∷◌ c s) (String.◌∷◌ d t) =
    let rest = strip_prefix s t in if code c == code d then rest else none

-- `starts_with`: the prefix first.
abbrev pub has_prefix : String → String → Bool
has_prefix p s = is_some (strip_prefix p s)

-- `str::contains`: the needle first.
abbrev pub contains_text : String → String → Bool
contains_text n String.[] = has_prefix n String.[]
contains_text n (String.◌∷◌ c s) = has_prefix n (String.◌∷◌ c s) || contains_text n s

pub strip_prefix-concat : (p s : String) → strip_prefix p (concat p s) ≡ some s
strip_prefix-concat String.[] s = refl
strip_prefix-concat (String.◌∷◌ c p) s =
    rw ((==_iff (code c) (code c)).1 refl) (strip_prefix-concat p s)

abbrev pub text_length : String → ℕ
text_length String.[] = 0
text_length (String.◌∷◌ c s) = suc (text_length s)

pub strip_prefix-length :
    (p s t : String) → strip_prefix p s ≡ some t → text_length s ≡ text_length p + text_length t
strip_prefix-length String.[] s t h = ground arith
strip_prefix-length (String.◌∷◌ c p) String.[] t h = ground arith
strip_prefix-length (String.◌∷◌ c p) (String.◌∷◌ d s) t h =
    ground (arith, strip_prefix-length p s t)

-- `trim_start_matches` of a text that is not empty: the prefix is removed again and again. The
-- number bounds the removals.
abbrev trim_within : ℕ → String → String → String
trim_within zero p s = s
trim_within (suc n) p s = elim (strip_prefix p s) [ none ↦ s | some t ↦ trim_within n p t ]

unfoldable pub trim_prefix : String → String → String
trim_prefix p s = trim_within (text_length s) p s

trim_within-unprefixed : (n : ℕ) (p s : String) → has_prefix p s ≡ false → trim_within n p s ≡ s
trim_within-unprefixed zero p s h = refl
trim_within-unprefixed (suc n) p s h = ground arith

pub trim_prefix-unprefixed : (p s : String) → has_prefix p s ≡ false → trim_prefix p s ≡ s
unfolding trim_prefix
trim_prefix-unprefixed p s h = trim_within-unprefixed (text_length s) p s h

trim_within-enough :
    (n : ℕ) (p s : String)
    → 0 < text_length p
    → text_length s ≤ n
    → has_prefix p (trim_within n p s) ≡ false
trim_within-enough zero p s hp hs = elim (Option-cases (strip_prefix p s)) [
  | inl e ↦ ground arith
  | inr (t, e) ↦ absurd (omega (arith, strip_prefix-length p s t e))
]
trim_within-enough (suc n) p s hp hs = elim (Option-cases (strip_prefix p s)) [
  | inl e ↦ rw (e, trim_within) (rw e)
  | inr (t, e) ↦
      rw (e, trim_within) (trim_within-enough n p t hp (omega (arith, strip_prefix-length p s t e)))
]

-- What is left no longer has the prefix: the length of the text bounds the removals.
pub trim_prefix-stops : (p s : String) → 0 < text_length p → has_prefix p (trim_prefix p s) ≡ false
unfolding trim_prefix
trim_prefix-stops p s hp = trim_within-enough (text_length s) p s hp (omega arith)

pub trim_prefix-concat :
    (p s : String) → 0 < text_length p → has_prefix p s ≡ false → trim_prefix p (concat p s) ≡ s
unfolding trim_prefix
trim_prefix-concat String.[] s hp h = absurd (omega arith)
trim_prefix-concat (String.◌∷◌ c p) s hp h =
    rw (strip_prefix-concat (String.◌∷◌ c p) s, trim_within)
      (trim_within-unprefixed (text_length (concat p s)) (String.◌∷◌ c p) s h)
