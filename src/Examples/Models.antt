-- ===== src/Examples/Models.antt =====
-- The reader of model files at concrete files, with whole numbers for floating point.
use tiny_mite.Llama.Gguf.{Decoding, IoError, GgufError, GgufValue, GgufValues}
use tiny_mite.Llama.Gguf.Bytes.{read_exact, from_le, read_le, read_u32le, read_u64le}
use tiny_mite.Llama.Gguf.Values.{read_value, read_kv}
use tiny_mite.Llama.Gguf.Loops.{read_kvs, read_tensors}
use tiny_mite.Llama.Gguf.Metadata.{ModelMetadata, describe}
use tiny_mite.Llama.Gguf.Split.{
  detect_split, parse_u32, parse_unsigned, parse_digits, trim_suffix, part_at,
}
use tiny_mite.Llama.Gguf.Inspect.{ModelFile, same_bytes, inspect_content, inspect_gguf}
use tiny_mite.Llama.Gguf.Depth.{inspect_gguf-stops}
use tiny_mite.Llama.Gguf.Format.{Plain, Written, several, sized, to_le}
use tiny_mite.Llama.Gguf.Roundtrip.{read_kv-written}
use tiny_mite.Llama.Gguf.Limits.{nested, read_value-nested, Inspected, inspect_gguf-Inspected}
use tiny_mite.Prelude.{
  pos, negsuc, ℕ, ◌*◌, ◌/◌, ◌≡◌, ◌≢◌, refl, true, some, none, List, [], ◌∷◌, ◌++◌, arith, leb, ok,
  err, split_text,
}

abbrev whole : Decoding
whole = record {
  F32 = ℕ;
  F64 = ℕ;
  f32_of_bits = λ n. n;
  f64_of_bits = λ n. n;
  decimal = λ n k. n;
  of_u64 = λ n. n;
  fmul = λ a b. a * b;
  fdiv = λ a b. a / b;
  fle = leb;
  fixed = λ k a. "0";
  round_down = λ a. a;
  from_utf8_lossy = λ bytes. "key";
  lower = λ s. s;
  number_text = λ n. "0";
}

-- Version 3, no tensors and no metadata, padded to 32 bytes.
abbrev empty_model : List ℕ
empty_model =
    b'G' ∷ b'G' ∷ b'U' ∷ b'F' ∷ 3 ∷ 0 ∷ 0 ∷ 0 ∷ 0 ∷ 0 ∷ 0 ∷ 0 ∷ 0 ∷ 0 ∷ 0 ∷ 0 ∷ 0 ∷ 0 ∷ 0 ∷ 0 ∷ 0
    ∷ 0 ∷ 0 ∷ 0 ∷ 0 ∷ 0 ∷ 0 ∷ 0 ∷ 0 ∷ 0 ∷ 0 ∷ 0 ∷ []

abbrev model_file : ModelFile
model_file = record {
  metadata = some (record { is_file = true; size = 32 });
  content = some empty_model;
  file_name = "tiny-00001-of-00003.gguf";
  display = "models/tiny-00001-of-00003.gguf";
}

-- The name of the first of three files, as llama.cpp splits a model.
split_is_detected : detect_split "tiny-00001-of-00003.gguf" ≡ (some 3, some 0)
unfolding detect_split split_text parse_u32 parse_unsigned parse_digits trim_suffix part_at
split_is_detected = refl

inspect_gguf-stops_example :
    inspect_gguf whole 40 model_file ≢ err (GgufError.io IoError.stack_overflow)
inspect_gguf-stops_example = inspect_gguf-stops whole 40 model_file empty_model refl (omega arith)

abbrev empty_metadata : ModelMetadata whole
empty_metadata =
    describe whole 3 0 32 [] (record { total_elements = 0; dominant_dtype = none })
      (detect_split "tiny-00001-of-00003.gguf")

inspect_gguf-Inspected_example : Inspected whole model_file empty_metadata
unfolding inspect_gguf inspect_content read_exact read_u32le read_u64le read_le from_le same_bytes
    read_kvs read_tensors
inspect_gguf-Inspected_example = inspect_gguf-Inspected whole 1 model_file empty_metadata refl

read_value-nested_example : read_value whole 3 9 (nested 3) ≡ err IoError.stack_overflow
read_value-nested_example = read_value-nested whole 3

abbrev two_numbers : Written
two_numbers = several 1 (Plain.i8 (negsuc 2) ∷ Plain.i8 (pos 5) ∷ [])

read_kv-written_example :
    read_kv whole 2
      (sized (b'k' ∷ []) ++ (to_le 4 9 ++ ((to_le 4 1 ++ (to_le 8 2 ++ (253 ∷ 5 ∷ []))) ++ [])))
    ≡ ok (
      (
        "key",
        GgufValue.array (
            GgufValues.more
              (GgufValue.i8 (negsuc 2))
              (GgufValues.more (GgufValue.i8 (pos 5)) GgufValues.empty)),
      ),
      [],
    )
unfolding to_le
read_kv-written_example =
    read_kv-written whole 0 (b'k' ∷ []) two_numbers [] (omega arith) (omega arith)
      (omega arith, omega arith, (refl, omega arith, (refl, omega arith, tt)))
