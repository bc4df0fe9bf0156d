-- ===== src/Prelude/Slices.antt =====
-- `str`: search, replacement, trimming and splitting. A text that is searched for is not empty.
use Prim.Native.Char.{Char, code}
use Prim.Native.Nat.{ℕ, zero, suc, ◌+◌, ◌-◌}
use Prim.Native.String.{String}
use mathlib.Core.Path.{◌≡◌, refl, ap, sym}
use mathlib.Core.Bool.{Bool, true, false, not, ◌&&◌, ◌||◌}
use mathlib.Core.List.{List, [], ◌∷◌}
use mathlib.Core.Logic.{inl, inr}
use mathlib.Core.Option.{Option, none, some}
use mathlib.Core.Option
use native.Mathlib.Omega.{arith}
use tiny_mite.Prelude.Tests.{◌==◌, leb, ltb, if◌then◌else◌, Option-cases, Bool-cases}
use tiny_mite.Prelude.Texts.{concat, strip_prefix, has_prefix, text_length, strip_prefix-length}

-- `find`, and the slices before and behind the place found: the needle first.
unfoldable pub cut : String → String → Option (String × String)
cut n String.[] = elim (strip_prefix n String.[]) [ none ↦ none | some t ↦ some (String.[], t) ]
cut n (String.◌∷◌ c s) = elim (strip_prefix n (String.◌∷◌ c s)) [
  | some t ↦ some (String.[], t)
  | none ↦ Option.map (λ p. (String.◌∷◌ c p.0, p.1)) (cut n s)
]

-- `replace` with the empty text; the number of characters still to be passed over comes first.
unfoldable pub erase : ℕ → String → String → String
erase k n String.[] = String.[]
erase (suc k) n (String.◌∷◌ c s) = erase k n s
erase zero n (String.◌∷◌ c s) = elim (has_prefix n (String.◌∷◌ c s)) [
  | true ↦ erase (text_length n - 1) n s
  | false ↦ String.◌∷◌ c (erase zero n s)
]

abbrev pub remove_all : String → String → String
remove_all n s = erase zero n s

-- `char::is_whitespace`.
abbrev pub is_whitespace : ℕ → Bool
is_whitespace c =
    (leb 9 c && leb c 13)
    || c == 32
    || c == 133
    || c == 160
    || c == 5760
    || (leb 8192 c && leb c 8202)
    || c == 8232
    || c == 8233
    || c == 8239
    || c == 8287
    || c == 12288

-- `trim_matches`, by the codes of the characters.
unfoldable pub trim_start : (ℕ → Bool) → String → String
trim_start p String.[] = String.[]
trim_start p (String.◌∷◌ c s) = elim (p (code c)) [ true ↦ trim_start p s | false ↦ String.◌∷◌ c s ]

-- A character in front of a trimmed end: it stays unless nothing is left behind it.
abbrev in_front : Bool → String → String → String
in_front true one String.[] = String.[]
in_front true one (String.◌∷◌ d t) = concat one (String.◌∷◌ d t)
in_front false one t = concat one t

unfoldable pub trim_end : (ℕ → Bool) → String → String
trim_end p String.[] = String.[]
trim_end p (String.◌∷◌ c s) = in_front (p (code c)) (String.◌∷◌ c String.[]) (trim_end p s)

abbrev pub trim_matches : (ℕ → Bool) → String → String
trim_matches p s = trim_end p (trim_start p s)

abbrev pub trim : String → String
trim = trim_matches is_whitespace

-- The first part of a split grows by a character.
abbrev lengthen : String → List String → List String
lengthen one [] = one ∷ []
lengthen one (p ∷ ps) = concat one p ∷ ps

-- `split` at a character, given by its code.
unfoldable pub split_text : ℕ → String → List String
split_text sep String.[] = String.[] ∷ []
split_text sep (String.◌∷◌ c s) =
    let rest = split_text sep s in
    if code c == sep then String.[] ∷ rest else lengthen (String.◌∷◌ c String.[]) rest

-- `char::len_utf8`, by the code of the character.
abbrev pub utf8_width : ℕ → ℕ
utf8_width c = if ltb c 128 then 1 else if ltb c 2048 then 2 else if ltb c 65536 then 3 else 4

-- `str::len`: the bytes of UTF-8.
abbrev pub byte_length : String → ℕ
byte_length String.[] = 0
byte_length (String.◌∷◌ c s) = utf8_width (code c) + byte_length s

-- `String::truncate` to a number of bytes, which panics inside a character.
unfoldable pub truncate : ℕ → String → Option String
truncate n String.[] = some String.[]
truncate n (String.◌∷◌ c s) =
    let rest = truncate (n - utf8_width (code c)) s in
    if n == 0
    then some String.[]
    else if ltb n (utf8_width (code c))
    then none
    else Option.map (String.◌∷◌ c) rest

-- No character of the text has the code.
abbrev pub lacks : ℕ → String → Bool
lacks b String.[] = true
lacks b (String.◌∷◌ c s) = not (code c == b) && lacks b s

pub concat-nil : (s : String) → concat s String.[] ≡ s
concat-nil String.[] = refl
concat-nil (String.◌∷◌ c s) = ap (String.◌∷◌ c) (concat-nil s)

pub concat_assoc : (a b c : String) → concat (concat a b) c ≡ concat a (concat b c)
concat_assoc String.[] b c = refl
concat_assoc (String.◌∷◌ x a) b c = ap (String.◌∷◌ x) (concat_assoc a b c)

pub text_length-concat : (a b : String) → text_length (concat a b) ≡ text_length a + text_length b
text_length-concat String.[] b = omega arith
text_length-concat (String.◌∷◌ x a) b = omega (arith, text_length-concat a b)

map-same : (o : Option (String × String)) → o ≡ Option.map (λ (p : String × String). (p.0, p.1)) o
map-same none = refl
map-same (some p) = refl

-- The text begins with the character of the code.
abbrev pub first_is : ℕ → String → Bool
first_is b String.[] = false
first_is b (String.◌∷◌ c s) = code c == b

strip_prefix-differs :
    (b : ℕ) (n : String) (c : Char) (s : String)
    → first_is b n ≡ true
    → (code c == b) ≡ false
    → strip_prefix n (String.◌∷◌ c s) ≡ none
strip_prefix-differs b String.[] c s f h = ground arith
strip_prefix-differs b (String.◌∷◌ d m) c s f h = ground arith

-- A search passes over a text that lacks the needle's first character.
pub cut_skips :
    (b : ℕ) (n a s : String)
    → first_is b n ≡ true
    → lacks b a ≡ true
    → cut n (concat a s) ≡ Option.map (λ p. (concat a p.0, p.1)) (cut n s)
unfolding cut
cut_skips b n String.[] s f h = map-same (cut n s)
cut_skips b n (String.◌∷◌ c a) s f h =
    let rest = cut_skips b n a s f (ground arith) in
    rw (strip_prefix-differs b n c (concat a s) f (ground arith), cut, rest)
      (elim (Option-cases (cut n s)) [ inl e ↦ rw e refl | inr (p, e) ↦ rw e refl ])

-- What a search cuts out is not longer than the text.
pub cut-length :
    (n s a b : String)
    → cut n s ≡ some (a, b)
    → text_length s ≡ text_length a + text_length n + text_length b
unfolding cut
cut-length n String.[] a b h = elim (Option-cases (strip_prefix n String.[])) [
  | inl e ↦ ground arith
  | inr (t, e) ↦
      let before : String.[] ≡ a = ground arith in
      let behind : t ≡ b = ground arith in
      rw (sym before, sym behind) (omega (arith, strip_prefix-length n String.[] t e))
]
cut-length n (String.◌∷◌ c s) a b h = elim (Option-cases (strip_prefix n (String.◌∷◌ c s))) [
  | inl e ↦ elim (Option-cases (cut n s)) [
    | inl f ↦ ground arith
    | inr ((a', b'), f) ↦
        let before : String.◌∷◌ c a' ≡ a = ground arith in
        let behind : b' ≡ b = ground arith in
        rw (sym before, sym behind) (omega (arith, cut-length n s a' b' f))
  ]
  | inr (t, e) ↦
      let before : String.[] ≡ a = ground arith in
      let behind : t ≡ b = ground arith in
      rw (sym before, sym behind) (omega (arith, strip_prefix-length n (String.◌∷◌ c s) t e))
]

pub strip_prefix-lacks :
    (b : ℕ) (n s : String) → lacks b n ≡ false → lacks b s ≡ true → strip_prefix n s ≡ none
strip_prefix-lacks b String.[] s h k = ground arith
strip_prefix-lacks b (String.◌∷◌ d m) String.[] h k = refl
strip_prefix-lacks b (String.◌∷◌ d m) (String.◌∷◌ c s) h k = elim (Bool-cases (code d == code c)) [
  | inl e ↦ rw e (strip_prefix-lacks b m s (ground arith) (ground arith))
  | inr e ↦ rw e refl
]

-- Nothing is removed from a text that lacks a character of the needle.
pub erase_lacks : (b : ℕ) (n s : String) → lacks b n ≡ false → lacks b s ≡ true → remove_all n s ≡ s
unfolding erase
erase_lacks b n String.[] h k = refl
erase_lacks b n (String.◌∷◌ c s) h k =
    rw (strip_prefix-lacks b n (String.◌∷◌ c s) h k, erase, erase_lacks b n s h (ground arith)) refl

pub lacks-concat : (b : ℕ) (s t : String) → lacks b (concat s t) ≡ (lacks b s && lacks b t)
lacks-concat b String.[] t = refl
lacks-concat b (String.◌∷◌ c s) t = ground (arith, lacks-concat b s t)
