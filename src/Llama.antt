-- ===== src/Llama.antt =====
-- crates/tiny-mite-llama-cpp: the reader of model files.
pub mod Gguf
