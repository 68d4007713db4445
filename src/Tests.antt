-- ===== src/Tests.antt =====
-- Runs of the code on small inputs, and the theorems at them.
pub mod Gguf
pub mod Memory
pub mod Prefix
pub mod Sessions
pub mod Tokens
pub mod Plan
pub mod Hashes
pub mod Requests
