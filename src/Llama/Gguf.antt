-- ===== src/Llama/Gguf.antt =====
-- crates/tiny-mite-llama-cpp/src/gguf.rs: the header of a model file. Floating point is a parameter.
pub mod Bytes
pub mod Values
pub mod Tensors
pub mod Split
pub mod Metadata
pub mod Loops
pub mod Inspect
pub mod Calm
pub mod Depth
pub mod Format
pub mod Plain
pub mod Roundtrip
pub mod Limits
use tiny_mite.Prelude.{ℤ, ℕ, Bool, String, Option, none, some, List}

-- The floating-point numbers, from their bits; `decimal n k` is the literal with the digits of `n`,
-- the last `k` of them after the point. `fixed k x` prints with `k` decimals, `round_down` is `as
-- u64`, and `String::from_utf8_lossy` and `str::to_lowercase` stand here too.
pub record Decoding : Type 1 where
  pub F32 : Type 0
  pub F64 : Type 0
  pub f32_of_bits : ℕ → F32
  pub f64_of_bits : ℕ → F64
  pub decimal : ℕ → ℕ → F64
  pub of_u64 : ℕ → F64
  pub fmul : F64 → F64 → F64
  pub fdiv : F64 → F64 → F64
  pub fle : F64 → F64 → Bool
  pub fixed : ℕ → F64 → String
  pub round_down : F64 → ℕ
  pub from_utf8_lossy : List ℕ → String
  pub lower : String → String
  pub number_text : ℕ → String

-- Errors of the reader: `read_exact` beyond the end, the errors that the reader makes up, and the
-- overflow of the stack, which ends the process.
pub data IoError : Type 0 where
  unexpected_eof not_found stack_overflow : IoError
  invalid_data : String → IoError

pub data GgufError : Type 0 where
  io : IoError → GgufError
  invalid_magic : GgufError
  unsupported_version : (found : ℕ) (supported : List ℕ) → GgufError
  truncated_file : (expected : ℕ) (actual : ℕ) → GgufError
  excessive_count : ℕ → GgufError
  string_too_long : ℕ → GgufError
  not_regular_file : String → GgufError

mutual
  pub data GgufValue (D : Decoding) : Type 0 where
    u8 u16 u32 u64 : ℕ → GgufValue D
    i8 i16 i32 i64 : ℤ → GgufValue D
    f32 : D.F32 → GgufValue D
    f64 : D.F64 → GgufValue D
    boolean : Bool → GgufValue D
    text : String → GgufValue D
    array : GgufValues D → GgufValue D

  pub data GgufValues (D : Decoding) : Type 0 where
    empty : GgufValues D
    more : GgufValue D → GgufValues D → GgufValues D

module _ (D : Decoding) where
  unfoldable pub as_u32 : GgufValue D → Option ℕ
  as_u32 (GgufValue.u32 v) = some v
  as_u32 _ = none

  unfoldable pub as_u64 : GgufValue D → Option ℕ
  as_u64 (GgufValue.u64 v) = some v
  as_u64 _ = none

  unfoldable pub as_f32 : GgufValue D → Option D.F32
  as_f32 (GgufValue.f32 v) = some v
  as_f32 _ = none

  unfoldable pub as_str : GgufValue D → Option String
  as_str (GgufValue.text s) = some s
  as_str _ = none

  unfoldable pub as_bool : GgufValue D → Option Bool
  as_bool (GgufValue.boolean b) = some b
  as_bool _ = none

pub data GgufDtype : Type 0 where
  f32 f16 q4_0 q4_1 q5_0 q5_1 q8_0 q8_1 q2k q3k q4k q5k q6k q8k : GgufDtype
  iq2xxs iq2xs iq3xxs iq3s iq2s iq1s iq4nl iq4xs bf16 i32 i8 : GgufDtype
  other : ℕ → GgufDtype

unfoldable pub label : GgufDtype → String
label GgufDtype.f32 = "F32"
label GgufDtype.f16 = "F16"
label GgufDtype.q4_0 = "Q4_0"
label GgufDtype.q4_1 = "Q4_1"
label GgufDtype.q5_0 = "Q5_0"
label GgufDtype.q5_1 = "Q5_1"
label GgufDtype.q8_0 = "Q8_0"
label GgufDtype.q8_1 = "Q8_1"
label GgufDtype.q2k = "Q2_K"
label GgufDtype.q3k = "Q3_K"
label GgufDtype.q4k = "Q4_K"
label GgufDtype.q5k = "Q5_K"
label GgufDtype.q6k = "Q6_K"
label GgufDtype.q8k = "Q8_K"
label GgufDtype.iq2xxs = "IQ2_XXS"
label GgufDtype.iq2xs = "IQ2_XS"
label GgufDtype.iq3xxs = "IQ3_XXS"
label GgufDtype.iq3s = "IQ3_S"
label GgufDtype.iq2s = "IQ2_S"
label GgufDtype.iq1s = "IQ1_S"
label GgufDtype.iq4nl = "IQ4_NL"
label GgufDtype.iq4xs = "IQ4_XS"
label GgufDtype.bf16 = "BF16"
label GgufDtype.i32 = "I32"
label GgufDtype.i8 = "I8"
label (GgufDtype.other _) = "unknown"

module _ (D : Decoding) where
  unfoldable pub element_size : GgufDtype → D.F64
  element_size GgufDtype.f32 = D.decimal 40 1
  element_size GgufDtype.i32 = D.decimal 40 1
  element_size GgufDtype.f16 = D.decimal 20 1
  element_size GgufDtype.bf16 = D.decimal 20 1
  element_size GgufDtype.q4_0 = D.decimal 5 1
  element_size GgufDtype.q4_1 = D.decimal 5 1
  element_size GgufDtype.q5_0 = D.decimal 625 3
  element_size GgufDtype.q5_1 = D.decimal 625 3
  element_size GgufDtype.q8_0 = D.decimal 10 1
  element_size GgufDtype.q8_1 = D.decimal 10 1
  element_size GgufDtype.i8 = D.decimal 10 1
  element_size GgufDtype.q2k = D.decimal 3125 4
  element_size GgufDtype.q3k = D.decimal 4375 4
  element_size GgufDtype.q4k = D.decimal 5 1
  element_size GgufDtype.q5k = D.decimal 625 3
  element_size GgufDtype.q6k = D.decimal 75 2
  element_size GgufDtype.q8k = D.decimal 10 1
  element_size GgufDtype.iq2xxs = D.decimal 3125 4
  element_size GgufDtype.iq2xs = D.decimal 3125 4
  element_size GgufDtype.iq2s = D.decimal 3125 4
  element_size GgufDtype.iq3xxs = D.decimal 4375 4
  element_size GgufDtype.iq3s = D.decimal 4375 4
  element_size GgufDtype.iq1s = D.decimal 1875 4
  element_size GgufDtype.iq4nl = D.decimal 5 1
  element_size GgufDtype.iq4xs = D.decimal 5 1
  element_size (GgufDtype.other _) = D.decimal 5 1

pub data Confidence : Type 0 where
  high medium low : Confidence
