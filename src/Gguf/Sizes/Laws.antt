-- ===== src/Gguf/Sizes/Laws.antt =====
-- The size of a tensor against plain arithmetic.
use native.Mathlib.Nat.{mul-le-mul_left, mul-le-mul_right, mul-pos, mul_assoc, div-add-mod}
use miinfer.Prelude.{
  ℕ, ◌*◌, ◌/◌, ◌%◌, ◌<◌, ◌≡◌, ap, List, [], ◌∷◌, ok, >>=-ok, guard, guard-eq-ok, arith, All, ◌==◌,
  inl, inr, ◌∙◌, ◌↔◌, Bool-cases, ==_iff,
}
use miinfer.Prelude.Words.{word_mod}
use miinfer.Gguf.Types.{not_block_aligned, TensorType}
use miinfer.Gguf.Checked.{checked_size, checked_mul}
use miinfer.Gguf.Checked.Laws.{checked_size-ok, checked_size_lem, checked_mul-ok, checked_mul_lem}
use miinfer.Gguf.Sizes.{elements_from, elements, layout, tensor_byte_size}

abbrev pub product : List ℕ → ℕ
product [] = 1
product (d ∷ ds) = d * product ds

product-pos : (ds : List ℕ) → All (λ d. 0 < d) ds → 0 < product ds
product-pos [] h = omega arith
product-pos (d ∷ ds) h = mul-pos h.0 (product-pos ds h.1)

elements_from-ok :
    (ds : List ℕ) (acc n : ℕ)
    → acc < word_mod
    → elements_from acc ds ≡ ok n
    → (n ≡ acc * product ds) × (n < word_mod) × All (λ d. 0 < d) ds
unfolding elements_from
elements_from-ok [] acc n h e = ground arith
elements_from-ok (d ∷ ds) acc n h e = elim (Bool-cases (d == 0)) [
  | inl zero ↦ absurd (cc (rw zero at e))
  | inr more ↦ >>=-ok (checked_size d "tensor dimension") _ (rw more at e) λ d' same e1.
      >>=-ok (checked_mul acc d' "tensor elements") _ e1 λ p times e2.
        let (dd, _) = checked_size-ok d "tensor dimension" d' same in
        let (pp, fits) = checked_mul-ok acc d' "tensor elements" p times in
        let (total, bounded, rest) = elements_from-ok ds p n (omega arith) e2 in
        let step : p ≡ acc * d = omega (arith, ap (λ (t : ℕ). acc * t) dd) in
        (total ∙ rw step (mul_assoc acc d (product ds)), bounded, (ground arith, rest))
]

elements_from_lem :
    (ds : List ℕ) (acc : ℕ)
    → 0 < acc
    → All (λ d. 0 < d) ds
    → acc * product ds < word_mod
    → elements_from acc ds ≡ ok (acc * product ds)
unfolding elements_from
elements_from_lem [] acc pos h fits = ap ok (omega arith)
elements_from_lem (d ∷ ds) acc pos h fits =
    let total : acc * d * product ds ≡ acc * (d * product ds) = mul_assoc acc d (product ds) in
    let more = mul-le-mul_left (acc * d) (product-pos ds h.1) in
    let small = mul-le-mul_right d pos in
    rw (← total) (
      ground (
        arith,
        checked_size_lem d "tensor dimension" (omega (arith, h.0)),
        checked_mul_lem acc d "tensor elements" pos (omega arith),
        elements_from_lem ds (acc * d) (mul-pos pos h.0) h.1 (omega arith),
      ))

-- `elements` returns the product of the dimensions, exactly where no dimension is zero and the
-- product fits 64 bits.
pub elements_iff :
    (ds : List ℕ) (n : ℕ)
    → (elements ds ≡ ok n) ↔ ((n ≡ product ds) × (n < word_mod) × All (λ d. 0 < d) ds)
unfolding elements
elements_iff ds n = (
  (λ e.
      let (total, fits, positive) = elements_from-ok ds 1 n (omega arith) e in
      (omega arith, fits, positive)),
  (λ (total, fits, positive).
      elements_from_lem ds 1 (omega arith) positive (omega arith) ∙ ap ok (omega arith)),
)

whole_blocks : (be bb q count p n : ℕ) → n ≡ q * bb → be * q ≡ count → count ≡ p → n * be ≡ p * bb
whole_blocks be bb q count p n e f g =
    let e' : n * be ≡ q * bb * be = ap (λ t. t * be) e in
    let f' : be * q * bb ≡ p * bb = ap (λ t. t * bb) (f ∙ g) in omega arith

-- The size that `tensor_byte_size` returns has block_bytes bytes for each block_elements elements,
-- rounds nothing off, and the elements are the product of dimensions that are not zero.
pub tensor_byte_size-ok :
    (type : TensorType) (ds : List ℕ) (n : ℕ)
    → tensor_byte_size type ds ≡ ok n
    → (n * (layout type).block_elements ≡ product ds * (layout type).block_bytes)
      × (n < word_mod)
      × All (λ d. 0 < d) ds
unfolding tensor_byte_size
tensor_byte_size-ok type ds n e =
    let be = (layout type).block_elements in
    let bb = (layout type).block_bytes in
    >>=-ok (elements ds) _ e λ count counted e1.
      >>=-ok (guard (count % be == 0) not_block_aligned) _ e1 λ _ whole e2.
        let (total, _, positive) = (elements_iff ds count).0 counted in
        let (times, fits) = checked_mul-ok (count / be) bb "tensor byte size" n e2 in
        let exact : count % be ≡ 0 = (==_iff _ 0).0 (guard-eq-ok _ _ whole) in
        (
          whole_blocks be bb (count / be) count (product ds) n times
              (omega (arith, div-add-mod count be)) total,
          omega arith,
          positive,
        )
