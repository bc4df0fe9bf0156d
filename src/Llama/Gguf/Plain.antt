-- ===== src/Llama/Gguf/Plain.antt =====
-- What crates/tiny-mite-llama-cpp/src/gguf.rs reads of numbers and texts written as the format says.
use tiny_mite.Llama.Gguf.{Decoding, GgufValue}
use tiny_mite.Llama.Gguf.Bytes.{
  read_exact, from_le, signed, read_le, read_u32le, read_u64le, read_i32le, read_f32le, read_string,
}
use tiny_mite.Llama.Gguf.Calm.{bind-ok}
use tiny_mite.Llama.Gguf.Format.{
  range, to_le, complement, InWidth, sized, Plain, plain_tag, plain_bytes, FitsPlain, plain_value,
}
use tiny_mite.Llama.Gguf.Values.{read_scalar}
use tiny_mite.Prelude.{
  Bool, ℤ, pos, negsuc, ℕ, zero, suc, ◌-◌, ◌*◌, ◌/◌, ◌^◌, ◌≤◌, ◌<◌, ◌≡◌, refl, true, false, List,
  [], ◌∷◌, ◌++◌, arith, length, ltb, if◌then◌else◌, ok, ap, ◌∙◌,
}
use mathlib.Core.List.{append_assoc}

length-to_le : (w n : ℕ) → length (to_le w n) ≡ w
unfolding to_le
length-to_le zero n = refl
length-to_le (suc w) n = omega (arith, length-to_le w (n / 256))

from_le-to_le : (w n : ℕ) → n < range w → from_le (to_le w n) ≡ n
unfolding from_le to_le
from_le-to_le zero n h = omega arith
from_le-to_le (suc w) n h = omega (arith, from_le-to_le w (n / 256) (omega arith))

read_exact-append : (xs rest : List ℕ) → read_exact (length xs) (xs ++ rest) ≡ ok (xs, rest)
unfolding read_exact
read_exact-append [] rest = refl
read_exact-append (x ∷ xs) rest = rw (read_exact-append xs rest) refl

read_le-to_le :
    (w n : ℕ) (rest : List ℕ) → n < range w → read_le w (to_le w n ++ rest) ≡ ok (n, rest)
unfolding read_le
read_le-to_le w n rest h =
    let exact = read_exact-append (to_le w n) rest in
    ground (arith, exact, length-to_le w n, from_le-to_le w n h)

pub read_u32le-to_le :
    (n : ℕ) (rest : List ℕ) → n < range 4 → read_u32le (to_le 4 n ++ rest) ≡ ok (n, rest)
unfolding read_u32le
read_u32le-to_le n rest h = read_le-to_le 4 n rest h

pub read_u64le-to_le :
    (n : ℕ) (rest : List ℕ) → n < range 8 → read_u64le (to_le 8 n ++ rest) ≡ ok (n, rest)
unfolding read_u64le
read_u64le-to_le n rest h = read_le-to_le 8 n rest h

-- A signed number is read back from its two's complement.
signed-complement :
    (w half : ℕ) (z : ℤ)
    → 2 ^ (8 * w - 1) ≡ half
    → 2 ^ (8 * w) ≡ 2 * half
    → InWidth w z
    → signed w (complement w z) ≡ z
unfolding signed
signed-complement w half (pos n) h k small = ground (arith, h, small)
signed-complement w half (negsuc n) h k small =
    let full : complement w (negsuc n) ≡ 2 * half - 1 - n = omega (arith, k) in
    let within : n < half = omega (arith, h, small) in
    let off : ltb (complement w (negsuc n)) (2 ^ (8 * w - 1)) ≡ false =
      ground (arith, full, h, within) in
    let back : 2 ^ (8 * w) - 1 - complement w (negsuc n) ≡ n = omega (arith, full, k, within) in
    rw (off, back) refl

complement-small :
    (w half : ℕ) (z : ℤ)
    → 2 ^ (8 * w - 1) ≡ half
    → 2 ^ (8 * w) ≡ 2 * half
    → 0 < half
    → InWidth w z
    → complement w z < 2 * half
complement-small w half (pos n) h k some small = omega (arith, h, small)
complement-small w half (negsuc n) h k some small = omega (arith, k)

module _ (D : Decoding) where
  pub read_string-sized :
      (bytes rest : List ℕ)
      → length bytes ≤ 10000000
      → read_string D (sized bytes ++ rest) ≡ ok (D.from_utf8_lossy bytes, rest)
  unfolding read_string
  read_string-sized bytes rest h =
      let size = length bytes in
      let short : ltb 10000000 size ≡ false = ground arith in
      let len = read_u64le-to_le size (bytes ++ rest) (omega arith) in
      ap (read_string D) (append_assoc (to_le 8 size) bytes rest)
      ∙ (bind-ok read_u64le _ (to_le 8 size ++ (bytes ++ rest)) size (bytes ++ rest) len
          ∙ rw short (
              bind-ok (read_exact size) _ (bytes ++ rest) bytes rest
                (read_exact-append bytes rest)))

  read_le-complement :
      (w half : ℕ) (z : ℤ) (rest : List ℕ)
      → 2 ^ (8 * w - 1) ≡ half
      → 2 ^ (8 * w) ≡ 2 * half
      → range w ≡ 2 * half
      → 0 < half
      → InWidth w z
      → read_le w (to_le w (complement w z) ++ rest) ≡ ok (complement w z, rest)
  read_le-complement w half z rest h k r some small =
      read_le-to_le w (complement w z) rest
        (omega (arith, r, complement-small w half z h k some small))

  read_le-flag :
      (b : Bool) (rest : List ℕ)
      → read_le 1 ((if b then 1 else 0) ∷ rest) ≡ ok ((if b then 1 else 0), rest)
  unfolding read_le read_exact from_le
  read_le-flag true rest = refl
  read_le-flag false rest = refl

  pub read_scalar-plain :
      (p : Plain) (rest : List ℕ)
      → FitsPlain p
      → read_scalar D (plain_tag p) (plain_bytes p ++ rest) ≡ ok (plain_value D p, rest)
  unfolding read_scalar read_u32le read_u64le read_i32le read_f32le
  read_scalar-plain (Plain.u8 n) rest h = bind-ok (read_le 1) _ _ n rest (read_le-to_le 1 n rest h)
  read_scalar-plain (Plain.u16 n) rest h = bind-ok (read_le 2) _ _ n rest (read_le-to_le 2 n rest h)
  read_scalar-plain (Plain.u32 n) rest h = bind-ok (read_le 4) _ _ n rest (read_le-to_le 4 n rest h)
  read_scalar-plain (Plain.u64 n) rest h = bind-ok (read_le 8) _ _ n rest (read_le-to_le 8 n rest h)
  read_scalar-plain (Plain.f32 n) rest h =
      bind-ok (read_f32le D) _ _ (D.f32_of_bits n) rest
        (bind-ok (read_le 4) _ _ n rest (read_le-to_le 4 n rest h))
  read_scalar-plain (Plain.f64 n) rest h = bind-ok (read_le 8) _ _ n rest (read_le-to_le 8 n rest h)
  read_scalar-plain (Plain.i8 z) rest h =
      bind-ok (read_le 1) _ _ (complement 1 z) rest
        (read_le-complement 1 128 z rest refl refl refl (omega arith) h)
      ∙ ap (λ v. ok (GgufValue.i8 v, rest)) (signed-complement 1 128 z refl refl h)
  read_scalar-plain (Plain.i16 z) rest h =
      bind-ok (read_le 2) _ _ (complement 2 z) rest
        (read_le-complement 2 32768 z rest refl refl refl (omega arith) h)
      ∙ ap (λ v. ok (GgufValue.i16 v, rest)) (signed-complement 2 32768 z refl refl h)
  read_scalar-plain (Plain.i32 z) rest h =
      bind-ok read_i32le _ _ (signed 4 (complement 4 z)) rest (
        bind-ok (read_le 4) _ _ (complement 4 z) rest
          (read_le-complement 4 2147483648 z rest refl refl refl (omega arith) h))
      ∙ ap (λ v. ok (GgufValue.i32 v, rest)) (signed-complement 4 2147483648 z refl refl h)
  read_scalar-plain (Plain.i64 z) rest h =
      bind-ok (read_le 8) _ _ (complement 8 z) rest
        (read_le-complement 8 9223372036854775808 z rest refl refl refl (omega arith) h)
      ∙ ap (λ v. ok (GgufValue.i64 v, rest)) (signed-complement 8 9223372036854775808 z refl refl h)
  read_scalar-plain (Plain.flag true) rest h =
      bind-ok (read_le 1) _ _ 1 rest (read_le-flag true rest)
  read_scalar-plain (Plain.flag false) rest h =
      bind-ok (read_le 1) _ _ 0 rest (read_le-flag false rest)
  read_scalar-plain (Plain.word bytes) rest h =
      bind-ok (read_string D) _ _ (D.from_utf8_lossy bytes) rest (read_string-sized bytes rest h)
