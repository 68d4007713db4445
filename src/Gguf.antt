-- ===== src/Gguf.antt =====
-- The GGUF reader, src/gguf.cpp and include/miinfer/gguf.hpp.
pub mod Types
pub mod Checked
pub mod Reader
pub mod Values
pub mod Sizes
pub mod Parse
pub mod Tables
pub mod Open
pub mod Metadata
