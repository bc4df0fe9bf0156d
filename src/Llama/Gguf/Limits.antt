-- ===== src/Llama/Gguf/Limits.antt =====
-- What the inspection of crates/tiny-mite-llama-cpp/src/gguf.rs refuses, and what it does not bound.
use tiny_mite.Llama.Gguf.{Decoding, IoError, GgufError}
use tiny_mite.Llama.Gguf.Bytes.{read_exact, read_u32le, read_u64le}
use tiny_mite.Llama.Gguf.Calm.{bind-ok, bind-err}
use tiny_mite.Llama.Gguf.Values.{read_elements, read_array, read_value}
use tiny_mite.Llama.Gguf.Loops.{read_kvs, read_tensors}
use tiny_mite.Llama.Gguf.Metadata.{ModelMetadata, describe}
use tiny_mite.Llama.Gguf.Inspect.{
  same_bytes, FileMetadata, ModelFile, inspect_content, inspect_gguf,
}
use tiny_mite.Llama.Gguf.Format.{to_le}
use tiny_mite.Llama.Gguf.Plain.{read_u32le-to_le, read_u64le-to_le}
use tiny_mite.Prelude.{
  ℕ, zero, suc, ◌≤◌, ◌≡◌, refl, Bool, true, false, String, some, none, List, [], ◌∷◌, ◌++◌, arith,
  ltb, Result, ok, err, ensure, ok_or, map_err, not, ◌||◌, ◌>>=◌, Option-cases, inl, inr, ◌∙◌,
  contains, nat_eq, subst,
}

-- Arrays of one element inside one another, twelve bytes each.
pub nested : ℕ → List ℕ
nested zero = []
nested (suc d) = to_le 4 9 ++ (to_le 8 1 ++ nested d)

module _ (D : Decoding) where
  -- Nothing bounds the nesting of arrays: whatever the depth of the stack, arrays of one element
  -- nested that deep, which take twelve bytes each, overflow it.
  pub read_value-nested :
      (depth : ℕ) → read_value D depth 9 (nested depth) ≡ err IoError.stack_overflow
  unfolding nested read_value read_array read_elements
  read_value-nested zero = refl
  read_value-nested (suc d) =
      let type = read_u32le-to_le 9 (to_le 8 1 ++ nested d) (omega arith) in
      let count = read_u64le-to_le 1 (nested d) (omega arith) in
      bind-ok read_u32le _ (nested (suc d)) 9 (to_le 8 1 ++ nested d) type
      ∙ (bind-ok read_u64le _ (to_le 8 1 ++ nested d) 1 (nested d) count
          ∙ bind-err (read_elements D (read_value D d 9) 1) _ (nested d) IoError.stack_overflow (
              bind-err (read_value D d 9) _ (nested d) IoError.stack_overflow
                (read_value-nested d)))

-- Whatever the result returns has the property.
record Yields {A : Type 0} (P : A → Type 0) (r : Result GgufError A) : Type 0 where
  yields : (a : A) → r ≡ ok a → P a

module _ {B : Type 0} (P : B → Type 0) where
  bind-Yields :
      {A : Type 0} (r : Result GgufError A) (k : A → Result GgufError B)
      → ((a : A) → r ≡ ok a → Yields P (k a))
      → Yields P (r >>= k)
  bind-Yields (ok a) k next = next a refl
  bind-Yields (err e) k next = record { yields = λ a h. absurd (ground arith) }

  ensure-Yields :
      (t : Bool) (e : GgufError) (r : Result GgufError B)
      → (t ≡ true → Yields P r)
      → Yields P (ensure t e >>= λ _. r)
  ensure-Yields true e r next = next refl
  ensure-Yields false e r next = record { yields = λ a h. absurd (ground arith) }

  ok-Yields : (b : B) → P b → Yields P (ok b)
  ok-Yields b p = record { yields = λ a h. subst P (ground arith) p }

-- What holds of the metadata of an inspected file.
pub record Checked (D : Decoding) (size : ℕ) (m : ModelMetadata D) : Type 0 where
  pub version : contains (2 ∷ 3 ∷ []) m.gguf_version ≡ true
  pub count : m.tensor_count ≤ 100000
  pub same_size : m.file_size ≡ size

module _ (D : Decoding) where
  inspect_content-Yields :
      (depth size : ℕ) (name : String) (content : List ℕ)
      → Yields (Checked D size) (inspect_content D depth size name content)
  unfolding inspect_content describe
  inspect_content-Yields depth size name content =
      let P = Checked D size in
      bind-Yields P (map_err GgufError.io (read_exact 4 content)) _ (λ (magic, r1) _.
        ensure-Yields P (same_bytes magic (b'G' ∷ b'G' ∷ b'U' ∷ b'F' ∷ [])) _ _ (λ _.
          bind-Yields P (map_err GgufError.io (read_u32le r1)) _ (λ (version, r2) _.
            ensure-Yields P (contains (2 ∷ 3 ∷ []) version) _ _ (λ supported.
              bind-Yields P (map_err GgufError.io (read_u64le r2)) _ (λ (tensors, r3) _.
                bind-Yields P (map_err GgufError.io (read_u64le r3)) _ (λ (kvs, r4) _.
                  ensure-Yields P (not (ltb 100000 tensors || ltb 100000 kvs)) _ _ (λ few.
                    bind-Yields P (map_err GgufError.io (read_kvs D depth kvs [] r4)) _
                      (λ (m, r5) _.
                        bind-Yields P
                          (map_err GgufError.io (
                            read_tensors D tensors
                              (record { total_elements = 0; dominant_dtype = none }) r5))
                          _
                          (λ (t, r6) _. ok-Yields P _ (record {
                            version = supported;
                            count = ground arith;
                            same_size = refl;
                          }))))))))))

  -- What holds of an inspected file and its metadata.
  pub record Inspected (file : ModelFile) (m : ModelMetadata D) : Type 0 where
    pub meta : FileMetadata
    pub found : file.metadata ≡ some meta
    pub regular : meta.is_file ≡ true
    pub large : 32 ≤ meta.size
    pub checked : Checked D meta.size m

  -- A file of which metadata is returned is a regular file of at least 32 bytes, has version 2 or 3
  -- and at most 100000 tensors, and the metadata carries its size.
  pub inspect_gguf-Inspected :
      (depth : ℕ) (file : ModelFile) (m : ModelMetadata D)
      → inspect_gguf D depth file ≡ ok m
      → Inspected file m
  unfolding inspect_gguf
  inspect_gguf-Inspected depth file m h = elim (Option-cases file.metadata) [
    | inl e ↦ absurd (ground arith)
    | inr (meta, e) ↦
        let P = Inspected file in
        let after : Yields P (
            ensure meta.is_file (GgufError.not_regular_file file.display) >>= λ _.
            ensure (not (ltb meta.size 32)) (GgufError.truncated_file 32 meta.size) >>= λ _.
            ok_or file.content (GgufError.io IoError.not_found) >>= λ content.
            inspect_content D depth meta.size file.file_name content) =
          ensure-Yields P meta.is_file _ _ (λ regular.
            ensure-Yields P (not (ltb meta.size 32)) _ _ (λ large.
              bind-Yields P (ok_or file.content (GgufError.io IoError.not_found)) _ (λ content _.
                record {
                  yields = λ m k. record {
                    meta = meta;
                    found = e;
                    regular = regular;
                    large = ground arith;
                    checked =
                        (inspect_content-Yields depth meta.size file.file_name content).yields m k;
                  };
                }))) in
        after.yields m (ground arith)
  ]
