-- ===== src/Llama/Gguf/Loops.antt =====
-- The two loops of `inspect_gguf` of crates/tiny-mite-llama-cpp/src/gguf.rs.
use tiny_mite.Llama.Gguf.{Decoding}
use tiny_mite.Llama.Gguf.Bytes.{Reader, done, ◌>>=◌}
use tiny_mite.Llama.Gguf.Values.{read_kv}
use tiny_mite.Llama.Gguf.Tensors.{read_tensor_info}
use tiny_mite.Llama.Gguf.Metadata.{Metadata, Tally, tally_tensor}
use tiny_mite.Prelude.{ℕ, zero, suc, insert, string_eq}

module _ (D : Decoding) where
  unfoldable pub read_kvs : ℕ → ℕ → Metadata D → Reader (Metadata D)
  read_kvs depth zero m = done m
  read_kvs depth (suc n) m = read_kv D depth >>= λ kv. read_kvs depth n (insert kv.0 kv.1 m)

  unfoldable pub read_tensors : ℕ → Tally → Reader Tally
  read_tensors zero t = done t
  read_tensors (suc n) t = read_tensor_info D >>= λ info. read_tensors n (tally_tensor t info)
