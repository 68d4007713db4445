-- ===== src/ModelPlan/Layout.antt =====
-- The planned tensors lie in the arena one behind the other.
use miinfer.Prelude.{
  ℕ, ◌+◌, ◌%◌, ◌≤◌, ◌<◌, ◌≡◌, refl, ap, subst, List, [], ◌∷◌, map, ok, >>=-ok, ok-injective, arith,
}
use miinfer.Prelude.Words.{word_mod}
use miinfer.Gguf.Types.{Tensor}
use miinfer.ModelPlan.{align_up, checked_add, PlannedTensor, plan_tensors, tensor_alignment}

align_up-ok :
    (value n : ℕ)
    → value < word_mod
    → align_up value tensor_alignment ≡ ok n
    → (value ≤ n) × (n % 256 ≡ 0) × (n < word_mod)
unfolding align_up
align_up-ok value n h e = ground arith

checked_add-ok : (a b n : ℕ) → a < word_mod → checked_add a b ≡ ok n → (n ≡ a + b) × (n < word_mod)
unfolding checked_add
checked_add-ok a b n h e = ground arith

abbrev pub planned_size : PlannedTensor → List ℕ × ℕ
planned_size p = (p.name, p.bytes)

abbrev pub source_size : Tensor → List ℕ × ℕ
source_size t = (t.name, t.byte_size)

-- The tensors in the arena from `start` to `total`: each at a multiple of 256 behind the one before.
abbrev pub IsLaidOut : ℕ → ℕ → List PlannedTensor → Type 0
IsLaidOut start total [] = start ≤ total
IsLaidOut start total (p ∷ ps) =
    (start ≤ p.offset) × (p.offset % 256 ≡ 0) × IsLaidOut (p.offset + p.bytes) total ps

-- Where the plan is made from a start that fits 64 bits, the tensors are laid out in their order, without overlap, at multiples of
-- 256, inside an arena whose size fits 64 bits, and they have the sizes of the model's tensors.
pub plan_tensors-IsLaidOut :
    (start total : ℕ) (tensors : List Tensor) (planned : List PlannedTensor)
    → start < word_mod
    → plan_tensors start tensors ≡ ok (planned, total)
    → IsLaidOut start total planned
      × (total < word_mod)
      × (map planned_size planned ≡ map source_size tensors)
unfolding plan_tensors
plan_tensors-IsLaidOut start total [] planned h e =
    let same = ok-injective e in
    subst (λ q. IsLaidOut start q.1 q.0 × (q.1 < word_mod) × (map planned_size q.0 ≡ [])) same
      (omega arith, h, refl)
plan_tensors-IsLaidOut start total (t ∷ ts) planned h e =
    >>=-ok (align_up start tensor_alignment) _ e λ offset aligned e1.
      let (above, multiple, fits) = align_up-ok start offset h aligned in
      >>=-ok (checked_add offset t.byte_size) _ e1 λ next added e2.
        let (sum_of, bounded) = checked_add-ok offset t.byte_size next fits added in
        >>=-ok (plan_tensors next ts) _ e2 λ (others, last) made e3.
          let (laid, small, kept) = plan_tensors-IsLaidOut next last ts others bounded made in
          subst
            (λ q.
              IsLaidOut start q.1 q.0
              × (q.1 < word_mod)
              × (map planned_size q.0 ≡ map source_size (t ∷ ts)))
            (ok-injective e3)
            (
              (above, multiple, subst (λ n. IsLaidOut n last others) sum_of laid),
              small,
              ap (◌∷◌ (t.name, t.byte_size)) kept,
            )
