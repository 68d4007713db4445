-- ===== src/Tokenizer.antt =====
-- src/qwen3_tokenizer.cpp and include/miinfer/qwen3_tokenizer.hpp: the tokenizer of a model.
pub mod Types
pub mod Utf8
pub mod Alphabet
pub mod Split
pub mod Encode
pub mod Load
pub mod Cover
pub mod Pieces
