-- ===== src/Workspace/Shapes.antt =====
-- What the buffers of the arena ask for, apart from the constructor that allocates them.
use miinfer.Prelude.{ℕ, ◌*◌, ◌≤◌, List, [], ◌∷◌, arith}
use miinfer.Workspace.{
  Region, raw_bytes, raw_beta, raw_alpha, beta, decay, query, key, value, new_values, decayed_keys,
  solved_values, solved_keys, corrected_values, gdn_raw_output, gated_output, qkv, gate, attn_qfull,
  attn_q_rope, attn_k, attn_v, attn_gated_output, splitk_attn_workspace, mmq_q8, q8_1, ffn_gate,
  ffn_up, ffn_activation,
}

product : List ℕ → ℕ
product [] = 1
product (n ∷ ns) = n * product ns

-- The shape of a buffer for `tokens` tokens, as the comments beside the pointers in workspace.hpp give
-- it; for the split-K workspace 32 splits, as the comment of the constructor says.
shape : ℕ → Region → List ℕ
shape t raw_beta = t ∷ 48 ∷ []
shape t raw_alpha = t ∷ 48 ∷ []
shape t beta = t ∷ 48 ∷ []
shape t decay = t ∷ 48 ∷ []
shape t query = t ∷ 16 ∷ 128 ∷ []
shape t key = t ∷ 16 ∷ 128 ∷ []
shape t value = t ∷ 48 ∷ 128 ∷ []
shape t new_values = 48 ∷ 64 ∷ 128 ∷ []
shape t decayed_keys = 48 ∷ 64 ∷ 128 ∷ []
shape t solved_values = 48 ∷ 64 ∷ 128 ∷ []
shape t solved_keys = 48 ∷ 64 ∷ 128 ∷ []
shape t corrected_values = 48 ∷ 64 ∷ 128 ∷ []
shape t gdn_raw_output = t ∷ 48 ∷ 128 ∷ []
shape t gated_output = t ∷ 48 ∷ 128 ∷ []
shape t qkv = t ∷ 10240 ∷ []
shape t gate = t ∷ 6144 ∷ []
shape t attn_qfull = t ∷ 12288 ∷ []
shape t attn_q_rope = t ∷ 6144 ∷ []
shape t attn_k = t ∷ 1024 ∷ []
shape t attn_v = t ∷ 1024 ∷ []
shape t attn_gated_output = t ∷ 6144 ∷ []
shape t splitk_attn_workspace = t ∷ 24 ∷ 32 ∷ 258 ∷ []
shape t mmq_q8 = t ∷ 136 ∷ []
shape t q8_1 = t ∷ 544 ∷ []
shape t ffn_gate = t ∷ 17408 ∷ []
shape t ffn_up = t ∷ 17408 ∷ []
shape t ffn_activation = t ∷ 17408 ∷ []
shape t _ = t ∷ 5120 ∷ []

-- The bytes of an element: a block of quantized values, or a float.
element : Region → ℕ
element mmq_q8 = 144
element q8_1 = 36
element _ = 4

-- What a buffer of this shape takes.
unfoldable pub needed : ℕ → Region → ℕ
unfolding shape element product
needed t r = product (shape t r) * element r

pub needed-raw_bytes : (tokens : ℕ) (r : Region) → needed tokens r ≤ raw_bytes tokens r
unfolding needed raw_bytes shape element product
needed-raw_bytes tokens Region.normalized = omega arith
needed-raw_bytes tokens _ = omega arith
