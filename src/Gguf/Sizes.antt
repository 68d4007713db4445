-- ===== src/Gguf/Sizes.antt =====
-- The layouts of tensor types and the size of a tensor, src/gguf.cpp.
pub mod Laws
use miinfer.Prelude.{
  ℕ, ◌/◌, ◌%◌, List, [], ◌∷◌, String, ok, err, ◌>>=◌, ◌>>◌, guard, ◌==◌, if◌then◌else◌,
}
use miinfer.Gguf.Types.{
  zero_dimension, unsupported_type, not_block_aligned, TensorType, f32, f16, q4_0, q4_1, q5_0, q5_1,
  q8_0, q8_1, q2_k, q3_k_s, q4_k, q5_k, q6_k, q8_k, Outcome,
}
use miinfer.Gguf.Checked.{checked_size, checked_mul}

-- The loop of `elements`, from the product of the dimensions before.
unfoldable pub elements_from : ℕ → List ℕ → Outcome ℕ
elements_from result [] = ok result
elements_from result (dimension ∷ rest) = if dimension == 0 then err zero_dimension else (do
  n ← checked_size dimension "tensor dimension"
  product ← checked_mul result n "tensor elements"
  elements_from product rest)

unfoldable pub elements : List ℕ → Outcome ℕ
elements dimensions = elements_from 1 dimensions

pub record TypeLayout : Type 0 where
  pub block_elements : ℕ
  pub block_bytes : ℕ

unfoldable pub layout : TensorType → TypeLayout
layout f32 = record { block_elements = 1; block_bytes = 4 }
layout f16 = record { block_elements = 1; block_bytes = 2 }
layout q4_0 = record { block_elements = 32; block_bytes = 18 }
layout q4_1 = record { block_elements = 32; block_bytes = 20 }
layout q5_0 = record { block_elements = 32; block_bytes = 22 }
layout q5_1 = record { block_elements = 32; block_bytes = 24 }
layout q8_0 = record { block_elements = 32; block_bytes = 34 }
layout q8_1 = record { block_elements = 32; block_bytes = 36 }
layout q2_k = record { block_elements = 256; block_bytes = 84 }
layout q3_k_s = record { block_elements = 256; block_bytes = 110 }
layout q4_k = record { block_elements = 256; block_bytes = 144 }
layout q5_k = record { block_elements = 256; block_bytes = 176 }
layout q6_k = record { block_elements = 256; block_bytes = 210 }
layout q8_k = record { block_elements = 256; block_bytes = 292 }

unfoldable pub tensor_type : ℕ → Outcome TensorType
tensor_type raw =
    if raw == 0
    then ok f32
    else if raw == 1
    then ok f16
    else if raw == 2
    then ok q4_0
    else if raw == 3
    then ok q4_1
    else if raw == 6
    then ok q5_0
    else if raw == 7
    then ok q5_1
    else if raw == 8
    then ok q8_0
    else if raw == 9
    then ok q8_1
    else if raw == 10
    then ok q2_k
    else if raw == 11
    then ok q3_k_s
    else if raw == 12
    then ok q4_k
    else if raw == 13
    then ok q5_k
    else if raw == 14
    then ok q6_k
    else if raw == 15
    then ok q8_k
    else err unsupported_type

unfoldable pub tensor_byte_size : TensorType → List ℕ → Outcome ℕ
tensor_byte_size type dimensions =
    let tensor_layout = layout type in
    do
      count ← elements dimensions
      guard (count % tensor_layout.block_elements == 0) not_block_aligned
      checked_mul (count / tensor_layout.block_elements) tensor_layout.block_bytes
          "tensor byte size"

unfoldable pub type_name : TensorType → String
type_name f32 = "F32"
type_name f16 = "F16"
type_name q4_0 = "Q4_0"
type_name q4_1 = "Q4_1"
type_name q5_0 = "Q5_0"
type_name q5_1 = "Q5_1"
type_name q8_0 = "Q8_0"
type_name q8_1 = "Q8_1"
type_name q2_k = "Q2_K"
type_name q3_k_s = "Q3_K_S"
type_name q4_k = "Q4_K"
type_name q5_k = "Q5_K"
type_name q6_k = "Q6_K"
type_name q8_k = "Q8_K"
