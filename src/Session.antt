-- ===== src/Session.antt =====
-- PersistentSession, src/prefill_v2/persistent_session.cpp and
-- include/miinfer/prefill_v2/persistent_session.hpp: the state of a model in a file.
pub mod Header
pub mod Model
pub mod Save
pub mod Load
pub mod Find
