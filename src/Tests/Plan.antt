-- ===== src/Tests/Plan.antt =====
-- Two tensors of 8 and 300 bytes in the arena of the plan.
use miinfer.Prelude.{ℕ, ◌≡◌, ◌<◌, refl, none, [], ◌∷◌, map, ok, arith}
use miinfer.Prelude.Words.{word_mod}
use miinfer.Gguf.Types.{Tensor, TensorType}
use miinfer.ModelPlan.{PlannedTensor, plan_tensors, align_up, checked_add}
use miinfer.ModelPlan.Layout.{IsLaidOut, planned_size, source_size, plan_tensors-IsLaidOut}

abbrev tensor : ℕ → ℕ → Tensor
tensor letter bytes = record {
  name = letter ∷ [];
  dimensions = bytes ∷ [];
  type = TensorType.f16;
  offset = 0;
  byte_size = bytes;
  address = none;
}

abbrev planned : ℕ → ℕ → ℕ → PlannedTensor
planned letter bytes offset = record {
  name = letter ∷ [];
  type = TensorType.f16;
  dimensions = bytes ∷ [];
  bytes = bytes;
  offset = offset;
}

plan_run :
    plan_tensors 0 (tensor 97 8 ∷ tensor 98 300 ∷ [])
    ≡ ok (planned 97 8 0 ∷ planned 98 300 256 ∷ [], 556)
unfolding plan_tensors align_up checked_add
plan_run = refl

plan_tensors-IsLaidOut_example :
    IsLaidOut 0 556 (planned 97 8 0 ∷ planned 98 300 256 ∷ [])
    × (556 < word_mod)
    × (map planned_size (planned 97 8 0 ∷ planned 98 300 256 ∷ [])
        ≡ map source_size (tensor 97 8 ∷ tensor 98 300 ∷ []))
plan_tensors-IsLaidOut_example =
    plan_tensors-IsLaidOut 0 556 (tensor 97 8 ∷ tensor 98 300 ∷ [])
      (planned 97 8 0 ∷ planned 98 300 256 ∷ []) (omega arith) plan_run
