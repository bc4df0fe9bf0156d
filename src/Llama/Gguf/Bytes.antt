-- ===== src/Llama/Gguf/Bytes.antt =====
-- The readers of numbers and texts of crates/tiny-mite-llama-cpp/src/gguf.rs. A reader takes the
-- bytes that are left and returns what it has read with those left after it.
use tiny_mite.Llama.Gguf.{Decoding, IoError}
use tiny_mite.Prelude.{
  ℤ, pos, negsuc, ℕ, zero, suc, ◌+◌, ◌-◌, ◌*◌, ◌^◌, String, List, [], ◌∷◌, ltb, if◌then◌else◌,
  Result, ok, err,
}

abbrev pub Reader {ℓ} : Type ℓ → Type ℓ
Reader A = List ℕ → Result IoError (A × List ℕ)

abbrev pub done {ℓ} : {A : Type ℓ} → A → Reader A
done a bytes = ok (a, bytes)

abbrev pub refuse {ℓ} : {A : Type ℓ} → IoError → Reader A
refuse e bytes = err e

-- `?` and what follows.
infixl 5 ◌>>=◌
abbrev pub ◌>>=◌ {ℓ κ} : {A : Type ℓ} {B : Type κ} → Reader A → (A → Reader B) → Reader B
(m >>= f) bytes = elim (m bytes) [ err e ↦ err e | ok (a, rest) ↦ f a rest ]

-- `read_exact` into a buffer of the given size.
unfoldable pub read_exact : ℕ → Reader (List ℕ)
read_exact zero bytes = ok ([], bytes)
read_exact (suc n) [] = err IoError.unexpected_eof
read_exact (suc n) (b ∷ bytes) = elim (read_exact n bytes) [
  | err e ↦ err e
  | ok (buffer, rest) ↦ ok (b ∷ buffer, rest)
]

-- `from_le_bytes` of an unsigned number.
unfoldable pub from_le : List ℕ → ℕ
from_le [] = 0
from_le (b ∷ bytes) = b + 256 * from_le bytes

-- `from_le_bytes` of a signed number of so many bytes.
unfoldable pub signed : ℕ → ℕ → ℤ
signed width n = if ltb n (2 ^ (8 * width - 1)) then pos n else negsuc (2 ^ (8 * width) - 1 - n)

unfoldable pub read_le : ℕ → Reader ℕ
read_le width = read_exact width >>= λ buffer. done (from_le buffer)

unfoldable pub read_u32le : Reader ℕ
read_u32le = read_le 4

unfoldable pub read_u64le : Reader ℕ
read_u64le = read_le 8

unfoldable pub read_i32le : Reader ℤ
read_i32le = read_le 4 >>= λ n. done (signed 4 n)

module _ (D : Decoding) where
  unfoldable pub read_f32le : Reader D.F32
  read_f32le = read_le 4 >>= λ n. done (D.f32_of_bits n)

  unfoldable pub read_string : Reader String
  read_string = read_u64le >>= λ len.
      if ltb 10000000 len
      then refuse (IoError.invalid_data "string too long")
      else (read_exact len >>= λ buffer. done (D.from_utf8_lossy buffer))
