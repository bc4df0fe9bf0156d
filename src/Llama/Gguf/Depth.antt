-- ===== src/Llama/Gguf/Depth.antt =====
-- The reader of crates/tiny-mite-llama-cpp/src/gguf.rs ends, and how deep it recurses.
use tiny_mite.Llama.Gguf.{Decoding, IoError, GgufError, GgufValue}
use tiny_mite.Llama.Gguf.Bytes.{Reader, read_exact, read_le, read_u32le, read_u64le, read_string}
use tiny_mite.Llama.Gguf.Values.{read_elements, read_array, read_value, read_kv}
use tiny_mite.Llama.Gguf.Tensors.{read_dtype, read_dims, read_tensor_info}
use tiny_mite.Llama.Gguf.Loops.{read_kvs, read_tensors}
use tiny_mite.Llama.Gguf.Metadata.{Metadata, Tally}
use tiny_mite.Llama.Gguf.Inspect.{same_bytes, ModelFile, inspect_content, inspect_gguf}
use tiny_mite.Llama.Gguf.Calm.{
  Calm, done-Calm, invalid_data-Calm, if-Calm, >>=-Calm, >>=-Calm-Strict, then_done-Calm,
  read_exact-Calm, read_le-Calm, read_u32le-Strict, read_u32le-Calm, read_u64le-Calm,
  read_string-Calm, read_scalar-Calm,
}
use tiny_mite.Prelude.{
  ℕ, zero, suc, ◌<◌, ◌≡◌, ◌≢◌, refl, Bool, true, false, not, String, some, List, [], ◌∷◌, arith,
  length, ltb, Result, ok, err, Result-cases, Option-cases, inl, inr, max, contains, nat_eq, ◌||◌,
  ensure, map_err, ◌>>◌, ◌>>=◌,
}

module _ (D : Decoding) where
  read_elements-Calm :
      (n : ℕ) (read : Reader (GgufValue D))
      → Calm n read
      → (count : ℕ) → Calm n (read_elements D read count)
  unfolding read_elements
  read_elements-Calm n read c zero = done-Calm n _
  read_elements-Calm n read c (suc count) =
      >>=-Calm read _ n c (λ v. then_done-Calm n _ _ (read_elements-Calm n read c count))

  read_value-Calm : (depth gtype : ℕ) → Calm depth (read_value D depth gtype)
  unfolding read_value read_array read_u64le
  read_value-Calm zero gtype = record {
    within = λ bytes b rest h. absurd (ground arith);
    no_overflow = λ bytes l h. omega arith;
  }
  read_value-Calm (suc depth) gtype =
      if-Calm (suc depth) _ _ _
        (>>=-Calm-Strict read_u32le _ depth read_u32le-Strict (read_u32le-Calm (suc depth)) (λ it.
          >>=-Calm (read_le 8) _ depth (read_le-Calm depth 8) (λ n.
            if-Calm depth _ _ _ (invalid_data-Calm depth _) (
              then_done-Calm depth _ _
                (read_elements-Calm depth (read_value D depth it) (read_value-Calm depth it) n)))))
        (read_scalar-Calm D (suc depth) gtype)

  read_kvs-Calm : (depth count : ℕ) (m : Metadata D) → Calm depth (read_kvs D depth count m)
  unfolding read_kvs read_kv
  read_kvs-Calm depth zero m = done-Calm depth m
  read_kvs-Calm depth (suc count) m =
      >>=-Calm (read_kv D depth) _ depth
        (>>=-Calm (read_string D) _ depth (read_string-Calm D depth) (λ key.
          if-Calm depth _ _ _ (invalid_data-Calm depth _) (
            >>=-Calm read_u32le _ depth (read_u32le-Calm depth)
              (λ gtype. then_done-Calm depth _ _ (read_value-Calm depth gtype)))))
        (λ kv. read_kvs-Calm depth count _)

  read_dims-Calm : (depth count : ℕ) → Calm depth (read_dims count)
  unfolding read_dims read_u64le
  read_dims-Calm depth zero = done-Calm depth _
  read_dims-Calm depth (suc count) =
      >>=-Calm (read_le 8) _ depth (read_le-Calm depth 8)
        (λ d. then_done-Calm depth _ _ (read_dims-Calm depth count))

  read_tensors-Calm : (depth count : ℕ) (t : Tally) → Calm depth (read_tensors D count t)
  unfolding read_tensors read_tensor_info read_dtype read_u64le
  read_tensors-Calm depth zero t = done-Calm depth t
  read_tensors-Calm depth (suc count) t =
      >>=-Calm (read_tensor_info D) _ depth
        (>>=-Calm (read_string D) _ depth (read_string-Calm D depth) (λ name.
          >>=-Calm read_u32le _ depth (read_u32le-Calm depth) (λ ndim.
            if-Calm depth _ _ _ (invalid_data-Calm depth _) (
              >>=-Calm (read_dims ndim) _ depth (read_dims-Calm depth ndim) (λ dims.
                >>=-Calm _ _ depth (then_done-Calm depth _ _ (read_u32le-Calm depth))
                  (λ dtype. then_done-Calm depth _ _ (read_le-Calm depth 8)))))))
        (λ info. read_tensors-Calm depth count _)

abbrev Overflows : GgufError → Type 0
Overflows e = e ≡ GgufError.io IoError.stack_overflow

-- A result that is not the overflow of the stack.
record Stops {A : Type 0} (r : Result GgufError A) : Type 0 where
  stops : (e : GgufError) → r ≡ err e → Overflows e → ⊥

ok-Stops : {A : Type 0} (a : A) → Stops (ok a)
ok-Stops a = record { stops = λ e h o. ground arith }

read-Stops :
    {A B : Type 0} (n : ℕ) (m : Reader A) (bytes : List ℕ) (k : A × List ℕ → Result GgufError B)
    → Calm n m
    → length bytes < n
    → ((a : A) (rest : List ℕ) → length rest < n → Stops (k (a, rest)))
    → Stops (map_err GgufError.io (m bytes) >>= k)
read-Stops n m bytes k c l next = elim (Result-cases (m bytes)) [
  | inl (e, r) ↦ rw (r, map_err) (record { stops = λ f h o. c.no_overflow bytes l (ground arith) })
  | inr ((a, rest), r) ↦ rw (r, map_err) (next a rest (omega (arith, c.within bytes a rest r)))
]

ensure-Stops :
    {A : Type 0} (b : Bool) (e : GgufError) (r : Result GgufError A)
    → (Overflows e → ⊥)
    → Stops r
    → Stops (ensure b e >> r)
ensure-Stops true e r other s = s
ensure-Stops false e r other s = record { stops = λ f h o. other (ground arith) }

module _ (D : Decoding) where
  inspect_content-Stops :
      (depth size : ℕ) (name : String) (content : List ℕ)
      → length content < depth
      → Stops (inspect_content D depth size name content)
  unfolding inspect_content
  inspect_content-Stops depth size name content l =
      read-Stops depth (read_exact 4) content _ (read_exact-Calm depth 4) l (λ magic r1 l1.
        ensure-Stops (same_bytes magic (b'G' ∷ b'G' ∷ b'U' ∷ b'F' ∷ [])) GgufError.invalid_magic _
          (λ h. ground arith)
          (read-Stops depth read_u32le r1 _ (read_u32le-Calm depth) l1 (λ version r2 l2.
            ensure-Stops (contains (2 ∷ 3 ∷ []) version)
              (GgufError.unsupported_version version (2 ∷ 3 ∷ [])) _ (λ h. ground arith)
              (read-Stops depth read_u64le r2 _ (read_u64le-Calm depth) l2 (λ tensors r3 l3.
                read-Stops depth read_u64le r3 _ (read_u64le-Calm depth) l3 (λ kvs r4 l4.
                  ensure-Stops (not (ltb 100000 tensors || ltb 100000 kvs))
                    (GgufError.excessive_count (max tensors kvs)) _ (λ h. ground arith)
                    (read-Stops depth (read_kvs D depth kvs []) r4 _ (read_kvs-Calm D depth kvs [])
                      l4
                      (λ m r5 l5.
                        read-Stops depth (read_tensors D tensors _) r5 _
                          (read_tensors-Calm D depth tensors _) l5 (λ t r6 l6. ok-Stops _)))))))))

  -- With room for more nested arrays than the file has bytes, the inspection of a file never
  -- overflows the stack: it returns metadata or one of the reader's errors.
  pub inspect_gguf-stops :
      (depth : ℕ) (file : ModelFile) (content : List ℕ)
      → file.content ≡ some content
      → length content < depth
      → inspect_gguf D depth file ≢ err (GgufError.io IoError.stack_overflow)
  unfolding inspect_gguf
  inspect_gguf-stops depth file content c l h = elim (Option-cases file.metadata) [
    | inl e ↦ absurd (ground arith)
    | inr (meta, e) ↦
        let read = inspect_content-Stops depth meta.size file.file_name content l in
        let sized =
          ensure-Stops (not (ltb meta.size 32)) (GgufError.truncated_file 32 meta.size) _
            (λ o. ground arith) read in
        let whole =
          ensure-Stops meta.is_file (GgufError.not_regular_file file.display) _ (λ o. ground arith)
            sized in
        whole.stops _ (ground arith) refl
  ]
