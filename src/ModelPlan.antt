-- ===== src/ModelPlan.antt =====
-- The layout part of Qwen3GpuPlan::build, src/model_plan.cpp and include/miinfer/model_plan.hpp: the
-- offsets of the weights in their arena, and those of the buffers.
pub mod Layout
use miinfer.Prelude.{
  ℕ, ◌+◌, ◌-◌, ◌*◌, ◌/◌, ◌%◌, Option, none, some, List, [], ◌∷◌, Result, ok, err, ◌>>=◌, ltb, ◌==◌,
  if◌then◌else◌, list_eq,
}
use miinfer.Gguf.Types.{Tensor, TensorType}
use miinfer.Gguf.Checked.{size_max}

pub data Error : Type 0 where
  arena_overflows plan_overflows : Error
  unknown_planned_tensor : List ℕ → Error

-- kTensorAlignment
abbrev pub tensor_alignment : ℕ
tensor_alignment = 256

unfoldable pub align_up : ℕ → ℕ → Result Error ℕ
align_up value alignment =
    if value % alignment == 0
    then ok value
    else if ltb (size_max - value) (alignment - value % alignment)
    then err arena_overflows
    else ok (value + (alignment - value % alignment))

unfoldable pub checked_add : ℕ → ℕ → Result Error ℕ
checked_add left right =
    if ltb (size_max - left) right then err plan_overflows else ok (left + right)

pub record PlannedTensor : Type 0 where
  pub name : List ℕ
  pub type : TensorType
  pub dimensions : List ℕ
  pub bytes : ℕ
  pub offset : ℕ

-- The loop over the tensors from arena_bytes on: the planned tensors, and the bytes of the arena.
unfoldable pub plan_tensors : ℕ → List Tensor → Result Error (List PlannedTensor × ℕ)
unfolding align_up checked_add
plan_tensors arena_bytes [] = ok ([], arena_bytes)
plan_tensors arena_bytes (tensor ∷ rest) = do
  offset ← align_up arena_bytes tensor_alignment
  next ← checked_add offset tensor.byte_size
  (others, total) ← plan_tensors next rest
  ok (
    record {
      name = tensor.name;
      type = tensor.type;
      dimensions = tensor.dimensions;
      bytes = tensor.byte_size;
      offset = offset;
    }
        ∷ others,
    total,
  )

unfoldable pub find_planned_tensor : List ℕ → List PlannedTensor → Result Error PlannedTensor
find_planned_tensor name [] = err (unknown_planned_tensor name)
find_planned_tensor name (tensor ∷ rest) =
    let later = find_planned_tensor name rest in
    if list_eq tensor.name name then ok tensor else later
