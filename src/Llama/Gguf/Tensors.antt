-- ===== src/Llama/Gguf/Tensors.antt =====
-- The descriptions of tensors of crates/tiny-mite-llama-cpp/src/gguf.rs.
use tiny_mite.Llama.Gguf.{Decoding, IoError, GgufDtype}
use tiny_mite.Llama.Gguf.Bytes.{Reader, done, refuse, ◌>>=◌, read_u32le, read_u64le, read_string}
use tiny_mite.Prelude.{ℕ, zero, suc, String, List, [], ◌∷◌, ltb, ◌==◌, if◌then◌else◌, u32}

unfoldable pub dtype_of : ℕ → GgufDtype
dtype_of n =
    if n == 0
    then GgufDtype.f32
    else if n == 1
    then GgufDtype.f16
    else if n == 2
    then GgufDtype.q4_0
    else if n == 3
    then GgufDtype.q4_1
    else if n == 6
    then GgufDtype.q5_0
    else if n == 7
    then GgufDtype.q5_1
    else if n == 8
    then GgufDtype.q8_0
    else if n == 9
    then GgufDtype.q8_1
    else if n == 10
    then GgufDtype.q2k
    else if n == 11
    then GgufDtype.q3k
    else if n == 12
    then GgufDtype.q4k
    else if n == 13
    then GgufDtype.q5k
    else if n == 14
    then GgufDtype.q6k
    else if n == 15
    then GgufDtype.q8k
    else if n == 16
    then GgufDtype.iq2xxs
    else if n == 17
    then GgufDtype.iq2xs
    else if n == 18
    then GgufDtype.iq3xxs
    else if n == 19
    then GgufDtype.iq3s
    else if n == 20
    then GgufDtype.iq2s
    else if n == 21
    then GgufDtype.iq1s
    else if n == 22
    then GgufDtype.iq4nl
    else if n == 23
    then GgufDtype.iq4xs
    else if n == 30
    then GgufDtype.bf16
    else if n == 24
    then GgufDtype.i32
    else if n == 25
    then GgufDtype.i8
    else GgufDtype.other n

unfoldable pub read_dtype : Reader GgufDtype
read_dtype = read_u32le >>= λ n. done (dtype_of n)

-- The loop over the dimensions: `as u32` drops the upper half of each.
unfoldable pub read_dims : ℕ → Reader (List ℕ)
read_dims zero = done []
read_dims (suc n) = read_u64le >>= λ d. read_dims n >>= λ dims. done (u32 d ∷ dims)

pub record TensorInfo : Type 0 where
  pub name : String
  pub dims : List ℕ
  pub dtype : GgufDtype
  pub offset : ℕ

module _ (D : Decoding) where
  unfoldable pub read_tensor_info : Reader TensorInfo
  read_tensor_info = read_string D >>= λ name. read_u32le >>= λ ndim.
      if ltb 16 ndim
      then refuse (IoError.invalid_data "too many dims")
      else (read_dims ndim >>= λ dims. read_dtype >>= λ dtype. read_u64le >>= λ offset.
          done (record { name = name; dims = dims; dtype = dtype; offset = offset }))
