-- ===== src/Llama/Gguf/Values.antt =====
-- The metadata values of crates/tiny-mite-llama-cpp/src/gguf.rs. `depth` bounds the nesting of
-- arrays, as the stack does.
use tiny_mite.Llama.Gguf.{Decoding, IoError, GgufValue, GgufValues}
use tiny_mite.Llama.Gguf.Bytes.{
  Reader, done, refuse, ◌>>=◌, signed, read_le, read_u32le, read_u64le, read_i32le, read_f32le,
  read_string,
}
use tiny_mite.Prelude.{ℕ, zero, suc, not, String, ltb, ◌==◌, if◌then◌else◌, concat, byte_length}

module _ (D : Decoding) where
  -- The arms of `read_value` but that of arrays.
  unfoldable pub read_scalar : ℕ → Reader (GgufValue D)
  read_scalar gtype =
      if gtype == 0
      then (read_le 1 >>= λ n. done (GgufValue.u8 n))
      else if gtype == 1
      then (read_le 1 >>= λ n. done (GgufValue.i8 (signed 1 n)))
      else if gtype == 2
      then (read_le 2 >>= λ n. done (GgufValue.u16 n))
      else if gtype == 3
      then (read_le 2 >>= λ n. done (GgufValue.i16 (signed 2 n)))
      else if gtype == 4
      then (read_u32le >>= λ n. done (GgufValue.u32 n))
      else if gtype == 5
      then (read_i32le >>= λ z. done (GgufValue.i32 z))
      else if gtype == 6
      then (read_f32le D >>= λ x. done (GgufValue.f32 x))
      else if gtype == 7
      then (read_le 1 >>= λ n. done (GgufValue.boolean (not (n == 0))))
      else if gtype == 8
      then (read_string D >>= λ s. done (GgufValue.text s))
      else if gtype == 10
      then (read_u64le >>= λ n. done (GgufValue.u64 n))
      else if gtype == 11
      then (read_le 8 >>= λ n. done (GgufValue.i64 (signed 8 n)))
      else if gtype == 12
      then (read_le 8 >>= λ n. done (GgufValue.f64 (D.f64_of_bits n)))
      else refuse (IoError.invalid_data (concat "unknown gguf type " (D.number_text gtype)))

  -- The loop over the elements of an array.
  unfoldable pub read_elements : Reader (GgufValue D) → ℕ → Reader (GgufValues D)
  read_elements read zero = done GgufValues.empty
  read_elements read (suc n) =
      read >>= λ v. read_elements read n >>= λ vs. done (GgufValues.more v vs)

  unfoldable pub read_array : (ℕ → Reader (GgufValue D)) → Reader (GgufValue D)
  read_array read = read_u32le >>= λ it. read_u64le >>= λ n.
      if ltb 1000000 n
      then refuse (IoError.invalid_data "array too long")
      else (read_elements (read it) n >>= λ arr. done (GgufValue.array arr))

  unfoldable pub read_value : ℕ → ℕ → Reader (GgufValue D)
  read_value zero gtype = refuse IoError.stack_overflow
  read_value (suc depth) gtype =
      if gtype == 9 then read_array (read_value depth) else read_scalar gtype

  unfoldable pub read_kv : ℕ → Reader (String × GgufValue D)
  read_kv depth = read_string D >>= λ key.
      if ltb 1024 (byte_length key)
      then refuse (IoError.invalid_data "key too long")
      else (read_u32le >>= λ gtype. read_value depth gtype >>= λ val. done (key, val))
