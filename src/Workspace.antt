-- ===== src/Workspace.antt =====
-- The scratch arena of the prefill, src/prefill_v2/workspace.cpp and
-- include/miinfer/prefill_v2/workspace.hpp. A pointer is its address; hipMalloc's is a parameter.
pub mod Align
pub mod Layout
pub mod Shapes
use Prim.Native.Nat.{bit_and}
use miinfer.Prelude.{
  ℕ, ◌+◌, ◌*◌, ◌/◌, ◌%◌, max, ◌||◌, not, Option, some, none, List, [], ◌∷◌, Result, ok, err, ltb,
  ◌==◌, if◌then◌else◌,
}
use miinfer.Constants.{
  hidden, inner, ffn_inner, state_width, k_heads, v_heads, channels, gdn_chunk_size, q_dim, kv_dim,
  q_full_dim, max_prefill_batch,
}

-- The regions of the arena, in the order in which the constructor assigns their pointers.
pub data Region : Type 0 where
  normalized qkv gate raw_beta raw_alpha beta decay : Region
  query key value : Region
  new_values decayed_keys solved_values solved_keys corrected_values : Region
  gdn_raw_output gated_output ssm_output residual post_normalized : Region
  attn_qfull attn_q_rope attn_k attn_v attn_gated_output splitk_attn_workspace : Region
  mmq_q8 q8_1 ffn_gate ffn_up ffn_activation ffn_down : Region

-- (bytes + 127) & ~127 on std::size_t
unfoldable pub align128 : ℕ → ℕ
align128 bytes = bit_and (bytes + 127) 18446744073709551488

-- MMQ Q8_1 and canonical Q8_1 blocks of a token, and the floats of the split-K workspace.
unfoldable pub mmq_blocks : ℕ
mmq_blocks = max ffn_inner q_full_dim / 128

unfoldable pub q8_1_blocks : ℕ
q8_1_blocks = max ffn_inner q_full_dim / 32

-- kMaxSplitK
unfoldable pub max_split_k : ℕ
max_split_k = 32

-- What a region has to hold, in bytes: floats of 4, MxQ8_1MmqBlock of 144 and Q8_1Block of 36.
unfoldable pub raw_bytes : ℕ → Region → ℕ
unfolding mmq_blocks q8_1_blocks max_split_k
raw_bytes tokens normalized = tokens * hidden * 4
raw_bytes tokens qkv = tokens * channels * 4
raw_bytes tokens gate = tokens * inner * 4
raw_bytes tokens raw_beta = tokens * v_heads * 4
raw_bytes tokens raw_alpha = tokens * v_heads * 4
raw_bytes tokens beta = tokens * v_heads * 4
raw_bytes tokens decay = tokens * v_heads * 4
raw_bytes tokens query = tokens * k_heads * state_width * 4
raw_bytes tokens key = tokens * k_heads * state_width * 4
raw_bytes tokens value = tokens * v_heads * state_width * 4
raw_bytes tokens new_values = v_heads * gdn_chunk_size * state_width * 4
raw_bytes tokens decayed_keys = v_heads * gdn_chunk_size * state_width * 4
raw_bytes tokens solved_values = v_heads * gdn_chunk_size * state_width * 4
raw_bytes tokens solved_keys = v_heads * gdn_chunk_size * state_width * 4
raw_bytes tokens corrected_values = v_heads * gdn_chunk_size * state_width * 4
raw_bytes tokens gdn_raw_output = tokens * v_heads * state_width * 4
raw_bytes tokens gated_output = tokens * v_heads * state_width * 4
raw_bytes tokens ssm_output = tokens * hidden * 4
raw_bytes tokens residual = tokens * hidden * 4
raw_bytes tokens post_normalized = tokens * hidden * 4
raw_bytes tokens attn_qfull = tokens * q_full_dim * 4
raw_bytes tokens attn_q_rope = tokens * q_dim * 4
raw_bytes tokens attn_k = tokens * kv_dim * 4
raw_bytes tokens attn_v = tokens * kv_dim * 4
raw_bytes tokens attn_gated_output = tokens * q_dim * 4
raw_bytes tokens splitk_attn_workspace = max_split_k * tokens * 24 * (256 + 2) * 4
raw_bytes tokens mmq_q8 = tokens * mmq_blocks * 144
raw_bytes tokens q8_1 = tokens * q8_1_blocks * 36
raw_bytes tokens ffn_gate = tokens * ffn_inner * 4
raw_bytes tokens ffn_up = tokens * ffn_inner * 4
raw_bytes tokens ffn_activation = tokens * ffn_inner * 4
raw_bytes tokens ffn_down = tokens * hidden * 4

unfoldable pub region_bytes : ℕ → Region → ℕ
unfolding raw_bytes
region_bytes tokens r = align128 (raw_bytes tokens r)

-- The sum that is handed to hipMalloc, term by term.
unfoldable pub total_bytes : ℕ → ℕ
total_bytes tokens =
    let size = region_bytes tokens in
    let gdn_scratch = 5 * size new_values in
    size normalized
    + size qkv
    + size gate
    + 4 * size beta
    + size query
    + size key
    + size value
    + gdn_scratch
    + size gdn_raw_output
    + size gated_output
    + size ssm_output
    + size residual
    + size post_normalized
    + size attn_qfull
    + size attn_q_rope
    + size attn_k
    + size attn_v
    + size attn_gated_output
    + size mmq_q8
    + size q8_1
    + size ffn_gate
    + size ffn_up
    + size ffn_activation
    + size ffn_down
    + size splitk_attn_workspace

-- The assignments `workspace_.x = ptr; ptr += bytes;`.
abbrev pub assignments : List Region
assignments =
    normalized ∷ qkv ∷ gate ∷ raw_beta ∷ raw_alpha ∷ beta ∷ decay ∷ query ∷ key ∷ value ∷ new_values
    ∷ decayed_keys ∷ solved_values ∷ solved_keys ∷ corrected_values ∷ gdn_raw_output ∷ gated_output
    ∷ ssm_output ∷ residual ∷ post_normalized ∷ attn_qfull ∷ attn_q_rope ∷ attn_k ∷ attn_v
    ∷ attn_gated_output ∷ splitk_attn_workspace ∷ mmq_q8 ∷ q8_1 ∷ ffn_gate ∷ ffn_up ∷ ffn_activation
    ∷ ffn_down ∷ []

-- Where a region was put.
pub record Placed : Type 0 where
  pub region : Region
  pub start : ℕ
  pub bytes : ℕ

unfoldable pub assign : (Region → ℕ) → ℕ → List Region → List Placed
assign size ptr [] = []
assign size ptr (r ∷ rest) =
    record { region = r; start = ptr; bytes = size r } ∷ assign size (ptr + size r) rest

pub data Error : Type 0 where
  invalid_max_tokens : ℕ → Error

-- `buffer` is d_buffer_, none for nullptr; `projected` of the source is the region ssm_output.
pub record Manager : Type 0 where
  pub max_tokens : ℕ
  pub total : ℕ
  pub buffer : Option ℕ
  pub workspace : List Placed

unfoldable pub construct : (ℕ → ℕ) → ℕ → Result Error Manager
unfolding region_bytes total_bytes assign
construct malloc max_tokens =
    if (max_tokens == 0)
      || ltb max_prefill_batch max_tokens
      || not (max_tokens % gdn_chunk_size == 0)
    then err (invalid_max_tokens max_tokens)
    else (let base = malloc (total_bytes max_tokens) in
        ok (record {
          max_tokens = max_tokens;
          total = total_bytes max_tokens;
          buffer = some base;
          workspace = assign (region_bytes max_tokens) base assignments;
        }))

-- The move constructor: the new manager, and what is left of the other.
unfoldable pub move : Manager → Manager × Manager
move other = (other, record other { buffer = none })

-- The move assignment between two managers, with the buffer that is freed.
unfoldable pub move_assign : Manager → Manager → Manager × Manager × Option ℕ
move_assign this other = (other, record other { buffer = none }, this.buffer)
