-- ===== src/Constants.antt =====
-- include/miinfer/prefill_v2/constants.hpp: the dimensions of the model.
use miinfer.Prelude.{ℕ}

-- kHidden
abbrev pub hidden : ℕ
hidden = 5120

-- kInner
abbrev pub inner : ℕ
inner = 6144

-- kFfnInner
abbrev pub ffn_inner : ℕ
ffn_inner = 17408

-- kState
abbrev pub state_width : ℕ
state_width = 128

-- kKHeads
abbrev pub k_heads : ℕ
k_heads = 16

-- kVHeads
abbrev pub v_heads : ℕ
v_heads = 48

-- kChannels
abbrev pub channels : ℕ
channels = 10240

-- kConvKernel
abbrev pub conv_kernel : ℕ
conv_kernel = 4

-- kGdnChunkSize
abbrev pub gdn_chunk_size : ℕ
gdn_chunk_size = 64

-- kKvHeads
abbrev pub kv_heads : ℕ
kv_heads = 4

-- kHeadDim
abbrev pub head_dim : ℕ
head_dim = 256

-- kQDim
abbrev pub q_dim : ℕ
q_dim = 6144

-- kKvDim
abbrev pub kv_dim : ℕ
kv_dim = 1024

-- kQFullDim
abbrev pub q_full_dim : ℕ
q_full_dim = 12288

-- kMaxPrefillBatch
abbrev pub max_prefill_batch : ℕ
max_prefill_batch = 512
