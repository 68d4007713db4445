-- ===== src/Lib.antt =====
-- The host side of MIInfer, an inference engine for one GPU: what is read from a model file, how
-- the memory of the device is laid out, and how the state behind a prompt is kept for the next
-- prompt.
--
-- The parts, the files that model them, and how they meet:
-- * Gguf (src/gguf.cpp, include/miinfer/gguf.hpp): GgufFile::open and its getters. Gguf/Types has
--   the data, Gguf/Checked the arithmetic on std::size_t, Gguf/Reader the class Reader as a state
--   monad, Gguf/Values the metadata values, Gguf/Sizes the sizes of tensors, Gguf/Parse and
--   Gguf/Tables the loops of open up to the end of the tables, Gguf/Open the rest of it,
--   Gguf/Metadata the getters.
-- * Workspace (src/prefill_v2/workspace.cpp): the scratch arena of the prefill, one allocation that
--   is cut into regions; Workspace/Shapes has the shapes of the buffers, from the comments of
--   include/miinfer/prefill_v2/workspace.hpp. Constants has the dimensions of
--   include/miinfer/prefill_v2/constants.hpp.
-- * KvCache (src/prefill_v2/kv_cache.cpp; KvCache/Floats has download_key and download_value on the
--   float operations as a parameter) and Recurrent (src/prefill_v2/state.cpp): the device state of
--   an attention layer and of a recurrent layer, on the interface Device.Hip to device memory,
--   which Device.Concrete fills.
-- * Context (src/prefill_v2/reusable_context.cpp): the checkpoint of the recurrent layers and the
--   fingerprint of the tokens that it stands for; it captures and restores storages of Recurrent.
-- * Session (src/prefill_v2/persistent_session.cpp): the same in a file, with the caches of
--   KvCache. Session/Header has the packed header, Session/Model the fields of PrefillV2Model that
--   are used, Session/Save save_to_file, Session/Load inspect_file and load_from_file, Session/Find
--   find_matching_session. A load ends in a save into the context of the model.
-- * ModelPlan (src/model_plan.cpp): the offsets of a model's weights in the arena of the older GPU
--   model.
-- * Tokenizer (src/qwen3_tokenizer.cpp, include/miinfer/qwen3_tokenizer.hpp): Tokenizer/Types has
--   the data, Tokenizer/Utf8 codepoints and utf8, Tokenizer/Utf8/Standard the forms of UTF-8,
--   Tokenizer/Alphabet the code points that stand for bytes, Tokenizer/Split split_qwen2,
--   Tokenizer/Encode encode and decode, Tokenizer/Load load, which reads the metadata of a Gguf
--   file.
-- * Sha256 (src/sha256.cpp): Sha256/Compress has transform, Sha256 the class and the two functions
--   of the interface; Sha256/Padding describes the hash without a buffer, Sha256/Standard the hash
--   as FIPS 180-4 has it, and Sha256/Agrees relates the two.
-- * OpenAi (src/openai_api.cpp, include/miinfer/openai_api.hpp,
--   include/miinfer/generation_contract.hpp): OpenAi/Contract has resolve_output_token_limit,
--   OpenAi/Request the data, OpenAi/Parse and OpenAi/Messages parse_openai_chat_request,
--   OpenAi/Prompt build_chatml, on the interface OpenAi/Json to the JSON library; Words and
--   Literals are the strings of the source.
-- Prelude has the numbers, lists and results that they share, Tests the runs and the concrete
-- inputs.
--
-- How the code is modelled: a method is a function from the object to the object it leaves, an
-- exception an error of the part's own type. A byte is a number below 256, a string a list of
-- bytes, a pointer into a buffer an offset; nullptr is none. Arithmetic on std::size_t wraps or is
-- checked where the source does so; where it does neither, the numbers are plain and a theorem
-- bounds them. A call of HIP that fails aborts the process, so it has no state behind it, and with
-- or without a stream the copies are the same in order. Reads and writes behind the end of a host
-- buffer are errors of the model, where the code has undefined behaviour; in KvCache/Floats, where
-- a theorem shows that there is none, such a write has no effect. The state that an
-- exception leaves behind is not modelled, but for the files of a save; there a close that fails
-- behind the checked flush is left out. The JSON library throws where it parses what is no JSON and
-- where it dumps a string that is no UTF-8. The hash of a fingerprint is on 64 bits. The loops of
-- the tokenizer, of the hash and of the prompt that move a position forward have fuel, the length
-- of what they read, which a theorem shows to be enough; the other loops run over a list or count
-- down, and the loops over the 48 recurrent and 16 attention layers of a model run over its lists,
-- which have that length by hypothesis.
--
-- Not modelled: the kernels and the layers that launch them, the tool calls that the server
-- interface reads from a generated text, the arena and the buffers of the plan of the older GPU
-- model, the moves of the recurrent storage, and the command line.
pub mod Prelude
pub mod Constants
pub mod Gguf
pub mod Workspace
pub mod Device
pub mod KvCache
pub mod Recurrent
pub mod Context
pub mod Session
pub mod ModelPlan
pub mod Tokenizer
pub mod Sha256
pub mod OpenAi
pub mod Tests
