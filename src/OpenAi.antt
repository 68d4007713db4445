-- ===== src/OpenAi.antt =====
-- src/openai_api.cpp, include/miinfer/openai_api.hpp and include/miinfer/generation_contract.hpp: the
-- interface of the server.
pub mod Words
pub mod Contract
pub mod Json
pub mod Request
pub mod Parse
pub mod Messages
pub mod Limits
pub mod Tools
pub mod Calls
pub mod Accepted
pub mod Literals
pub mod Prompt
