-- ===== src/Llama/Gguf/Roundtrip.antt =====
-- What crates/tiny-mite-llama-cpp/src/gguf.rs reads of metadata written as the format says.
use tiny_mite.Llama.Gguf.{Decoding}
use tiny_mite.Llama.Gguf.Bytes.{read_u32le, read_u64le, read_string}
use tiny_mite.Llama.Gguf.Calm.{bind-ok}
use tiny_mite.Llama.Gguf.Format.{
  range, to_le, sized, Plain, Written, plain, several, plain_tag, plain_bytes, FitsPlain, tag_of,
  all_bytes, bytes_of, FitAll, Fits, plain_value, elements_of, value_of,
}
use tiny_mite.Llama.Gguf.Plain.{
  read_u32le-to_le, read_u64le-to_le, read_string-sized, read_scalar-plain,
}
use tiny_mite.Llama.Gguf.Values.{read_elements, read_array, read_value, read_kv}
use tiny_mite.Prelude.{
  ℕ, suc, ◌==◌, ◌≤◌, ◌<◌, ◌≡◌, refl, false, List, [], ◌∷◌, ◌++◌, arith, length, ltb, ok,
  byte_length, ap, ◌∙◌, subst,
}
use mathlib.Core.List.{append_assoc}

module _ (D : Decoding) where
  -- The type of no plain value is that of arrays.
  plain_tag-small : (p : Plain) → (plain_tag p < 13) × ((plain_tag p == 9) ≡ false)
  plain_tag-small (Plain.u8 x) = ground arith
  plain_tag-small (Plain.u16 x) = ground arith
  plain_tag-small (Plain.u32 x) = ground arith
  plain_tag-small (Plain.u64 x) = ground arith
  plain_tag-small (Plain.i8 x) = ground arith
  plain_tag-small (Plain.i16 x) = ground arith
  plain_tag-small (Plain.i32 x) = ground arith
  plain_tag-small (Plain.i64 x) = ground arith
  plain_tag-small (Plain.f32 x) = ground arith
  plain_tag-small (Plain.f64 x) = ground arith
  plain_tag-small (Plain.flag b) = ground arith
  plain_tag-small (Plain.word bytes) = ground arith

  read_value-plain :
      (depth : ℕ) (p : Plain) (rest : List ℕ)
      → FitsPlain p
      → read_value D (suc depth) (plain_tag p) (plain_bytes p ++ rest) ≡ ok (plain_value D p, rest)
  unfolding read_value
  read_value-plain depth p rest h =
      rw ((plain_tag-small p).1, read_value) (read_scalar-plain D p rest h)

  read_elements-all :
      (depth tag : ℕ) (ps : List Plain) (rest : List ℕ)
      → FitAll tag ps
      → read_elements D (read_value D (suc depth) tag) (length ps) (all_bytes ps ++ rest)
        ≡ ok (elements_of D ps, rest)
  unfolding read_elements
  read_elements-all depth tag [] rest h = refl
  read_elements-all depth tag (p ∷ ps) rest (same, fits, h) =
      let read = read_value D (suc depth) tag in
      let tail = all_bytes ps ++ rest in
      let first : read (plain_bytes p ++ tail) ≡ ok (plain_value D p, tail) =
        subst (λ t. read_value D (suc depth) t (plain_bytes p ++ tail) ≡ ok (plain_value D p, tail))
          same (read_value-plain depth p tail fits) in
      ap (read_elements D read (suc (length ps))) (append_assoc (plain_bytes p) (all_bytes ps) rest)
      ∙ (bind-ok read _ (plain_bytes p ++ tail) (plain_value D p) tail first
          ∙ bind-ok (read_elements D read (length ps)) _ tail (elements_of D ps) rest
              (read_elements-all depth tag ps rest h))

  read_array-all :
      (depth tag : ℕ) (ps : List Plain) (rest : List ℕ)
      → Fits (several tag ps)
      → read_array D (read_value D (suc depth)) (bytes_of (several tag ps) ++ rest)
        ≡ ok (value_of D (several tag ps), rest)
  unfolding read_array
  read_array-all depth tag ps rest (short, narrow, h) =
      let count = length ps in
      let few : ltb 1000000 count ≡ false = ground arith in
      let items = all_bytes ps ++ rest in
      let body = to_le 8 count ++ items in
      let type = read_u32le-to_le tag body narrow in
      let size = read_u64le-to_le count items (omega arith) in
      ap (read_array D (read_value D (suc depth))) (
        append_assoc (to_le 4 tag) (to_le 8 count ++ all_bytes ps) rest
        ∙ ap (λ b. to_le 4 tag ++ b) (append_assoc (to_le 8 count) (all_bytes ps) rest))
      ∙ (bind-ok read_u32le _ (to_le 4 tag ++ body) tag body type
          ∙ (bind-ok read_u64le _ body count items size
              ∙ rw few (
                  bind-ok (read_elements D (read_value D (suc depth) tag) count) _ items
                    (elements_of D ps) rest (read_elements-all depth tag ps rest h))))

  read_value-written :
      (depth : ℕ) (v : Written) (rest : List ℕ)
      → Fits v
      → read_value D (suc (suc depth)) (tag_of v) (bytes_of v ++ rest) ≡ ok (value_of D v, rest)
  unfolding read_value
  read_value-written depth (plain p) rest h = read_value-plain (suc depth) p rest h
  read_value-written depth (several tag ps) rest h = read_array-all depth tag ps rest h

  tag_of-small : (v : Written) → tag_of v < range 4
  tag_of-small (plain p) = omega (arith, (plain_tag-small p).0)
  tag_of-small (several tag ps) = omega arith

  -- A written entry, of any of the twelve types of plain values or an array of values of one of these
  -- types, is read back: its key, decoded, and the value of the written one, with the bytes after it
  -- left, when the numbers fit their width, the texts and the array are within the limits of the
  -- reader, and the decoded key has at most 1024 bytes. Arrays of arrays are not covered.
  pub read_kv-written :
      (depth : ℕ) (key : List ℕ) (v : Written) (rest : List ℕ)
      → length key ≤ 10000000
      → byte_length (D.from_utf8_lossy key) ≤ 1024
      → Fits v
      → read_kv D (suc (suc depth)) (sized key ++ (to_le 4 (tag_of v) ++ (bytes_of v ++ rest)))
        ≡ ok ((D.from_utf8_lossy key, value_of D v), rest)
  unfolding read_kv
  read_kv-written depth key v rest k short h =
      let name = D.from_utf8_lossy key in
      let within : ltb 1024 (byte_length name) ≡ false = ground arith in
      let entry = to_le 4 (tag_of v) ++ (bytes_of v ++ rest) in
      let tag = read_u32le-to_le (tag_of v) (bytes_of v ++ rest) (tag_of-small v) in
      bind-ok (read_string D) _ (sized key ++ entry) name entry (read_string-sized D key entry k)
      ∙ rw within (
          bind-ok read_u32le _ entry (tag_of v) (bytes_of v ++ rest) tag
          ∙ bind-ok (read_value D (suc (suc depth)) (tag_of v)) _ (bytes_of v ++ rest)
              (value_of D v) rest (read_value-written depth v rest h))
