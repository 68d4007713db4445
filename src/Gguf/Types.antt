-- ===== src/Gguf/Types.antt =====
-- The data of include/miinfer/gguf.hpp. A byte string is a list of bytes. A `double` stands for
-- itself by the bit pattern it was read from: 32 bits that are widened, or 64 bits.
use miinfer.Prelude.{ℕ, Bool, Option, List, String, Result}
use miinfer.Prelude.Int.{ℤ}

-- GgufError by its message, `what` being the words of the call; the last is the exception of
-- `std::get` on another alternative.
pub data Error : Type 0 where
  exceeds_size_t overflows unreasonably_large truncated : String → Error
  alignment_not_power_of_two bool_out_of_range unsupported_scalar array_too_long : Error
  zero_dimension unsupported_type not_block_aligned : Error
  cannot_open cannot_stat too_large cannot_map : Error
  invalid_magic unsupported_version header_count_too_large rank_out_of_range : Error
  duplicate_key duplicate_tensor : List ℕ → Error
  negative_alignment alignment_not_integer data_offset_outside : Error
  offset_not_aligned range_outside : List ℕ → Error
  missing_or_non_scalar missing_or_non_array not_a_string negative_unsigned : Error
  not_unsigned not_numeric : Error
  bad_variant_access : Error

pub data TensorType : Type 0 where
  f32 f16 q4_0 q4_1 q5_0 q5_1 q8_0 q8_1 q2_k q3_k_s q4_k q5_k q6_k q8_k : TensorType

pub data Double : Type 0 where
  of_float of_double : ℕ → Double

pub data Scalar : Type 0 where
  unsigned : ℕ → Scalar
  int : ℤ → Scalar
  double : Double → Scalar
  bool : Bool → Scalar
  str : List ℕ → Scalar

pub data Value : Type 0 where
  scalar : Scalar → Value
  array : List Scalar → Value

-- `data` is the offset of the pointer into the mapping, none for nullptr.
pub record Tensor : Type 0 where
  pub name : List ℕ
  pub dimensions : List ℕ
  pub type : TensorType
  pub offset : ℕ
  pub byte_size : ℕ
  pub address : Option ℕ

pub record File : Type 0 where
  pub mapping : List ℕ
  pub version : ℕ
  pub data_offset : ℕ
  pub metadata : List (List ℕ × Value)
  pub tensors : List Tensor

abbrev pub Outcome : Type 0 → Type 0
Outcome A = Result Error A
