-- ===== src/Llama/Gguf/Metadata.antt =====
-- The metadata that crates/tiny-mite-llama-cpp/src/gguf.rs puts together from what it reads.
use tiny_mite.Llama.Gguf.{
  Decoding, GgufValue, GgufDtype, label, element_size, Confidence, as_u32, as_u64, as_str,
}
use tiny_mite.Llama.Gguf.Tensors.{TensorInfo}
use tiny_mite.Prelude.{
  saturating_add, ℕ, ◌*◌, ◌/◌, Bool, true, false, not, ◌&&◌, ◌||◌, String, Option, none, some, List,
  [], ◌∷◌, ltb, leb, ◌==◌, if◌then◌else◌, u64, or_else, unwrap_or, concat, contains_text, lookup,
  string_eq,
}
use Prim.Native.Char.{code}
use mathlib.Core.Option

pub record ModelMetadata (D : Decoding) : Type 0 where
  pub gguf_version : ℕ
  pub architecture : Option String
  pub name : Option String
  pub family : Option String
  pub quantization : Option String
  pub quantization_source : Confidence
  pub parameter_count : Option ℕ
  pub parameter_source : Confidence
  pub context_length : Option ℕ
  pub embedding_length : Option ℕ
  pub block_count : Option ℕ
  pub attention_heads : Option ℕ
  pub kv_heads : Option ℕ
  pub vocab_size : Option ℕ
  pub tensor_count : ℕ
  pub file_size : ℕ
  pub estimated_ram_bytes : ℕ
  pub split_count : Option ℕ
  pub split_index : Option ℕ
  pub raw_metadata : List (String × GgufValue D)

module _ (D : Decoding) where
  unfoldable pub parameter_label : ModelMetadata D → String
  parameter_label m = elim m.parameter_count [
    | none ↦ "unknown"
    | some p ↦
        if leb 1000000000 p
        then concat (D.fixed 1 (D.fdiv (D.of_u64 p) (D.of_u64 1000000000))) "B"
        else concat (D.number_text (p / 1000000)) "M"
  ]

  unfoldable pub file_size_label : ModelMetadata D → String
  file_size_label m =
      let gb = D.fdiv (D.of_u64 m.file_size) (D.decimal 10737418240 1) in
      if D.fle (D.decimal 10 1) gb
      then concat (D.fixed 2 gb) " GB"
      else concat (D.number_text (m.file_size / 1048576)) " MB"

  unfoldable pub ram_label : ModelMetadata D → String
  ram_label m =
      let gb = D.fdiv (D.of_u64 m.estimated_ram_bytes) (D.decimal 10737418240 1) in
      concat "~" (concat (D.fixed 1 gb) " GB")

unfoldable pub estimate_kv_cache : Option ℕ → Option ℕ → Option ℕ → Option ℕ → ℕ
estimate_kv_cache ctx embd blocks kv_h =
    let c = unwrap_or ctx 2048 in
    let e = unwrap_or embd 4096 in
    let l = unwrap_or blocks 32 in u64 (u64 (u64 (u64 (2 * l) * c) * e) * 2)

-- The text up to the first `-` or `_`.
unfoldable pub first_piece : String → String
first_piece String.[] = String.[]
first_piece (String.◌∷◌ c s) =
    let rest = first_piece s in
    if code c == b'-' || code c == b'_' then String.[] else String.◌∷◌ c rest

-- What the loop over the tensors counts.
pub record Tally : Type 0 where
  pub total_elements : ℕ
  pub dominant_dtype : Option GgufDtype

-- `iter().product()` in `u64`.
unfoldable pub product : List ℕ → ℕ
product [] = 1
product (d ∷ dims) = u64 (d * product dims)

abbrev pub is_f32 : GgufDtype → Bool
is_f32 GgufDtype.f32 = true
is_f32 _ = false

unfoldable pub tally_tensor : Tally → TensorInfo → Tally
tally_tensor t info =
    let counted =
      not (contains_text "token_embd" info.name) && not (contains_text "output" info.name) in
    record {
      total_elements =
          if counted then saturating_add t.total_elements (product info.dims) else t.total_elements;
      dominant_dtype = elim t.dominant_dtype [
        | some d ↦ some d
        | none ↦ if is_f32 info.dtype then none else some info.dtype
      ];
    }

module _ (D : Decoding) where
  abbrev pub Metadata : Type 0
  Metadata = List (String × GgufValue D)

  unfoldable pub get_u32 : String → Metadata → Option ℕ
  get_u32 key m = elim (lookup key m) [ none ↦ none | some v ↦ as_u32 D v ]

  unfoldable pub get_u64 : String → Metadata → Option ℕ
  get_u64 key m = elim (lookup key m) [ none ↦ none | some v ↦ as_u64 D v ]

  unfoldable pub get_str : String → Metadata → Option String
  get_str key m = elim (lookup key m) [ none ↦ none | some v ↦ as_str D v ]

  unfoldable pub parameters : Metadata → Tally → Option ℕ × Confidence
  parameters m t = elim (get_u64 "general.parameter_count" m) [
    | some v ↦ (some v, Confidence.high)
    | none ↦
        if ltb 0 t.total_elements
        then (some t.total_elements, Confidence.medium)
        else (none, Confidence.low)
  ]

  unfoldable pub estimate_ram : Tally → ℕ → ℕ
  estimate_ram t kv_cache =
      let el_size = unwrap_or (Option.map (element_size D) t.dominant_dtype) (D.decimal 20 1) in
      let weight_bytes = D.round_down (D.fmul (D.of_u64 t.total_elements) el_size) in
      saturating_add (saturating_add weight_bytes (256 * 1024 * 1024)) kv_cache

  -- The metadata from what was read.
  unfoldable pub describe : ℕ → ℕ → ℕ → Metadata → Tally → Option ℕ × Option ℕ → ModelMetadata D
  describe version tensor_count file_size m t split =
      let arch = get_str "general.architecture" m in
      let prefix = unwrap_or arch "general" in
      let ctx =
        or_else (get_u32 (concat prefix ".context_length") m)
          (get_u32 "general.context_length" m) in
      let blocks =
        or_else (get_u32 (concat prefix ".block_count") m) (get_u32 "general.block_count" m) in
      let embd = get_u32 (concat prefix ".embedding_length") m in
      let kv_h = get_u32 (concat prefix ".attention.head_count_kv") m in
      let params = parameters m t in
      record {
        gguf_version = version;
        architecture = arch;
        name = get_str "general.name" m;
        family = Option.map (λ a. D.lower (first_piece a)) arch;
        quantization = Option.map label t.dominant_dtype;
        quantization_source = elim t.dominant_dtype [
          | some _ ↦ Confidence.high
          | none ↦ Confidence.low
        ];
        parameter_count = params.0;
        parameter_source = params.1;
        context_length = ctx;
        embedding_length = embd;
        block_count = blocks;
        attention_heads = get_u32 (concat prefix ".attention.head_count") m;
        kv_heads = kv_h;
        vocab_size = get_u32 (concat prefix ".vocab_size") m;
        tensor_count = tensor_count;
        file_size = file_size;
        estimated_ram_bytes = estimate_ram t (estimate_kv_cache ctx embd blocks kv_h);
        split_count = split.0;
        split_index = split.1;
        raw_metadata = m;
      }
