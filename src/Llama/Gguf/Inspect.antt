-- ===== src/Llama/Gguf/Inspect.antt =====
-- `inspect_gguf` of crates/tiny-mite-llama-cpp/src/gguf.rs, on a file as the file system shows it.
use tiny_mite.Llama.Gguf.{Decoding, IoError, GgufError}
use tiny_mite.Llama.Gguf.Bytes.{read_exact, read_u32le, read_u64le}
use tiny_mite.Llama.Gguf.Loops.{read_kvs, read_tensors}
use tiny_mite.Llama.Gguf.Split.{detect_split}
use tiny_mite.Llama.Gguf.Metadata.{ModelMetadata, describe}
use tiny_mite.Prelude.{
  ℕ, max, Bool, true, false, not, ◌&&◌, ◌||◌, String, Option, none, List, [], ◌∷◌, ltb, ◌==◌,
  contains, nat_eq, string_eq, Result, ok, ◌>>=◌, ensure, ok_or, map_err,
}

-- What the file system tells of a path: its metadata, and its content once it is opened.
pub record FileMetadata : Type 0 where
  pub is_file : Bool
  pub size : ℕ

pub record ModelFile : Type 0 where
  pub metadata : Option FileMetadata
  pub content : Option (List ℕ)
  pub file_name : String
  pub display : String

unfoldable pub same_bytes : List ℕ → List ℕ → Bool
same_bytes [] [] = true
same_bytes (a ∷ as_) (b ∷ bs) = a == b && same_bytes as_ bs
same_bytes _ _ = false

module _ (D : Decoding) where
  abbrev io_err {ℓ} : {A : Type ℓ} → Result IoError A → Result GgufError A
  io_err r = map_err GgufError.io r

  -- `inspect_gguf` from the open file on.
  unfoldable pub inspect_content : ℕ → ℕ → String → List ℕ → Result GgufError (ModelMetadata D)
  inspect_content depth file_size file_name content =
      io_err (read_exact 4 content) >>= λ (magic, r).
      ensure (same_bytes magic (b'G' ∷ b'G' ∷ b'U' ∷ b'F' ∷ [])) GgufError.invalid_magic >>= λ _.
      io_err (read_u32le r) >>= λ (version, r).
      ensure (contains (2 ∷ 3 ∷ []) version) (GgufError.unsupported_version version (2 ∷ 3 ∷ []))
      >>= λ _. io_err (read_u64le r) >>= λ (tensor_count, r).
          io_err (read_u64le r) >>= λ (kv_count, r).
          ensure (not (ltb 100000 tensor_count || ltb 100000 kv_count))
            (GgufError.excessive_count (max tensor_count kv_count))
          >>= λ _. io_err (read_kvs D depth kv_count [] r) >>= λ (m, r).
              io_err (
                read_tensors D tensor_count (record { total_elements = 0; dominant_dtype = none })
                  r)
              >>= λ (t, r).
                  ok (describe D version tensor_count file_size m t (detect_split file_name))

  unfoldable pub inspect_gguf : ℕ → ModelFile → Result GgufError (ModelMetadata D)
  inspect_gguf depth file = ok_or file.metadata (GgufError.io IoError.not_found) >>= λ meta.
      ensure meta.is_file (GgufError.not_regular_file file.display) >>= λ _.
      ensure (not (ltb meta.size 32)) (GgufError.truncated_file 32 meta.size) >>= λ _.
      ok_or file.content (GgufError.io IoError.not_found) >>= λ content.
      inspect_content depth meta.size file.file_name content
