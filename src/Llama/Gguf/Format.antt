-- ===== src/Llama/Gguf/Format.antt =====
-- Metadata as a writer of the format of crates/tiny-mite-llama-cpp/src/gguf.rs has it, and its bytes:
-- numbers little-endian, texts and arrays after their lengths.
use tiny_mite.Llama.Gguf.{Decoding, GgufValue, GgufValues}
use tiny_mite.Prelude.{
  ℤ, pos, negsuc, ℕ, zero, suc, ◌-◌, ◌*◌, ◌/◌, ◌%◌, ◌^◌, ◌≤◌, ◌<◌, ◌≡◌, Bool, List, [], ◌∷◌, ◌++◌,
  length, if◌then◌else◌,
}

-- The numbers of so many bytes.
abbrev pub range : ℕ → ℕ
range zero = 1
range (suc w) = 256 * range w

-- `to_le_bytes`.
unfoldable pub to_le : ℕ → ℕ → List ℕ
to_le zero n = []
to_le (suc w) n = n % 256 ∷ to_le w (n / 256)

-- Two's complement in so many bytes.
abbrev pub complement : ℕ → ℤ → ℕ
complement w (pos n) = n
complement w (negsuc n) = 2 ^ (8 * w) - 1 - n

abbrev pub InWidth : ℕ → ℤ → Type 0
InWidth w (pos n) = n < 2 ^ (8 * w - 1)
InWidth w (negsuc n) = n < 2 ^ (8 * w - 1)

-- A text with its length before it.
abbrev pub sized : List ℕ → List ℕ
sized bytes = to_le 8 (length bytes) ++ bytes

-- The values but arrays; a float is its bits, and a text its bytes.
pub data Plain : Type 0 where
  u8 u16 u32 u64 f32 f64 : ℕ → Plain
  i8 i16 i32 i64 : ℤ → Plain
  flag : Bool → Plain
  word : List ℕ → Plain

-- A value, or an array of values of one type, given by its number.
pub data Written : Type 0 where
  plain : Plain → Written
  several : ℕ → List Plain → Written

-- The numbers of the types.
abbrev pub plain_tag : Plain → ℕ
plain_tag (Plain.u8 n) = 0
plain_tag (Plain.u16 n) = 2
plain_tag (Plain.u32 n) = 4
plain_tag (Plain.u64 n) = 10
plain_tag (Plain.i8 z) = 1
plain_tag (Plain.i16 z) = 3
plain_tag (Plain.i32 z) = 5
plain_tag (Plain.i64 z) = 11
plain_tag (Plain.f32 n) = 6
plain_tag (Plain.f64 n) = 12
plain_tag (Plain.flag b) = 7
plain_tag (Plain.word bytes) = 8

abbrev pub plain_bytes : Plain → List ℕ
plain_bytes (Plain.u8 n) = to_le 1 n
plain_bytes (Plain.u16 n) = to_le 2 n
plain_bytes (Plain.u32 n) = to_le 4 n
plain_bytes (Plain.u64 n) = to_le 8 n
plain_bytes (Plain.f32 n) = to_le 4 n
plain_bytes (Plain.f64 n) = to_le 8 n
plain_bytes (Plain.i8 z) = to_le 1 (complement 1 z)
plain_bytes (Plain.i16 z) = to_le 2 (complement 2 z)
plain_bytes (Plain.i32 z) = to_le 4 (complement 4 z)
plain_bytes (Plain.i64 z) = to_le 8 (complement 8 z)
plain_bytes (Plain.flag b) = (if b then 1 else 0) ∷ []
plain_bytes (Plain.word bytes) = sized bytes

-- The numbers fit their width, and a text is no longer than the reader accepts.
abbrev pub FitsPlain : Plain → Type 0
FitsPlain (Plain.u8 n) = n < range 1
FitsPlain (Plain.u16 n) = n < range 2
FitsPlain (Plain.u32 n) = n < range 4
FitsPlain (Plain.u64 n) = n < range 8
FitsPlain (Plain.f32 n) = n < range 4
FitsPlain (Plain.f64 n) = n < range 8
FitsPlain (Plain.i8 z) = InWidth 1 z
FitsPlain (Plain.i16 z) = InWidth 2 z
FitsPlain (Plain.i32 z) = InWidth 4 z
FitsPlain (Plain.i64 z) = InWidth 8 z
FitsPlain (Plain.flag b) = Unit
FitsPlain (Plain.word bytes) = length bytes ≤ 10000000

abbrev pub tag_of : Written → ℕ
tag_of (plain p) = plain_tag p
tag_of (several tag ps) = 9

abbrev pub all_bytes : List Plain → List ℕ
all_bytes [] = []
all_bytes (p ∷ ps) = plain_bytes p ++ all_bytes ps

abbrev pub bytes_of : Written → List ℕ
bytes_of (plain p) = plain_bytes p
bytes_of (several tag ps) = to_le 4 tag ++ (to_le 8 (length ps) ++ all_bytes ps)

abbrev pub FitAll : ℕ → List Plain → Type 0
FitAll tag [] = Unit
FitAll tag (p ∷ ps) = (plain_tag p ≡ tag) × FitsPlain p × FitAll tag ps

-- The values fit, those of an array have its type, and it is no longer than the reader accepts.
abbrev pub Fits : Written → Type 0
Fits (plain p) = FitsPlain p
Fits (several tag ps) = (length ps ≤ 1000000) × (tag < range 4) × FitAll tag ps

module _ (D : Decoding) where
  abbrev pub plain_value : Plain → GgufValue D
  plain_value (Plain.u8 n) = GgufValue.u8 n
  plain_value (Plain.u16 n) = GgufValue.u16 n
  plain_value (Plain.u32 n) = GgufValue.u32 n
  plain_value (Plain.u64 n) = GgufValue.u64 n
  plain_value (Plain.i8 z) = GgufValue.i8 z
  plain_value (Plain.i16 z) = GgufValue.i16 z
  plain_value (Plain.i32 z) = GgufValue.i32 z
  plain_value (Plain.i64 z) = GgufValue.i64 z
  plain_value (Plain.f32 n) = GgufValue.f32 (D.f32_of_bits n)
  plain_value (Plain.f64 n) = GgufValue.f64 (D.f64_of_bits n)
  plain_value (Plain.flag b) = GgufValue.boolean b
  plain_value (Plain.word bytes) = GgufValue.text (D.from_utf8_lossy bytes)

  abbrev pub elements_of : List Plain → GgufValues D
  elements_of [] = GgufValues.empty
  elements_of (p ∷ ps) = GgufValues.more (plain_value p) (elements_of ps)

  abbrev pub value_of : Written → GgufValue D
  value_of (plain p) = plain_value p
  value_of (several tag ps) = GgufValue.array (elements_of ps)
