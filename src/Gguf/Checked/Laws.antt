-- ===== src/Gguf/Checked/Laws.antt =====
-- What the checked arithmetic returns, on every input.
use Prim.Native.Nat.{bit_and}
use miinfer.Prelude.{
  ℕ, ◌+◌, ◌-◌, ◌*◌, ◌/◌, ◌%◌, ◌≤◌, ◌<◌, ◌≡◌, ok, String, arith, ◌==◌, Bool-cases, inl, inr,
}
use miinfer.Prelude.Bits.{bit_and_mask, mod_unique}
use miinfer.Prelude.Words.{word_mod}
use miinfer.Gguf.Checked.{size_max, checked_size, checked_add, checked_mul, align_up}
use native.Mathlib.Nat.{mod-lt, div-add-mod, mul-div-le, mul-le-mul_left, div-lt_iff_lt-mul}

pub checked_size_lem :
    (value : ℕ) (what : String) → value < word_mod → checked_size value what ≡ ok value
unfolding checked_size
checked_size_lem value what h = ground arith

pub checked_size-ok :
    (value : ℕ) (what : String) (n : ℕ)
    → checked_size value what ≡ ok n
    → (n ≡ value) × (value < word_mod)
unfolding checked_size
checked_size-ok value what n h = ground arith

pub checked_add-ok :
    (left right : ℕ) (what : String) (n : ℕ)
    → left < word_mod
    → checked_add left right what ≡ ok n
    → (n ≡ left + right) × (left + right < word_mod)
unfolding checked_add
checked_add-ok left right what n hl h = ground arith

pub checked_add_lem :
    (left right : ℕ) (what : String)
    → left + right < word_mod
    → checked_add left right what ≡ ok (left + right)
unfolding checked_add
checked_add_lem left right what h = ground arith

mul-le_of_le-div : (a b m : ℕ) → 0 < a → b ≤ m / a → a * b ≤ m
mul-le_of_le-div a b m h k = omega (arith, mul-div-le m a, mul-le-mul_left {m = b} {n = m / a} a k)

pub checked_mul-ok :
    (left right : ℕ) (what : String) (n : ℕ)
    → checked_mul left right what ≡ ok n
    → (n ≡ left * right) × (left * right < word_mod)
unfolding checked_mul
checked_mul-ok left right what n h = ground (arith, mul-le_of_le-div left right size_max)

-- A value that is not aligned is moved to the next multiple.
round_up : (value a : ℕ) → 0 < a → (value + (a - value % a)) % a ≡ 0
round_up value a h =
    mod_unique (value + (a - value % a)) a (value / a + 1) 0
      (omega (arith, div-add-mod value a, mod-lt value h)) h

-- Where align_up returns for a value of 64 bits, the alignment is not zero, and the result is the first
-- multiple of it that is not below the value, and fits 64 bits.
pub align_up-ok :
    (value alignment n : ℕ)
    → value < word_mod
    → align_up value alignment ≡ ok n
    → (0 < alignment) × (n % alignment ≡ 0) × (value ≤ n) × (n < value + alignment) × (n < word_mod)
unfolding align_up
align_up-ok value a n hv h = ground (
  arith,
  bit_and_mask a value,
  mod-lt value {m = a},
  round_up value a,
  checked_add-ok value (a - value % a) "data offset" n hv,
)

-- A power of two is accepted wherever the aligned value fits.
pub align_up_lem :
    (value a : ℕ)
    → 0 < a
    → bit_and a (a - 1) ≡ 0
    → value + a ≤ word_mod
    → (n : ℕ) × (align_up value a ≡ ok n)
unfolding align_up
align_up_lem value a pos pow fits = elim (Bool-cases (value % a == 0)) [
  | inl e ↦ (value, ground (arith, bit_and_mask a value))
  | inr e ↦ (value + (a - value % a), ground (arith, bit_and_mask a value, mod-lt value {m = a}))
]

pub checked_mul_lem :
    (left right : ℕ) (what : String)
    → 0 < left
    → left * right < word_mod
    → checked_mul left right what ≡ ok (left * right)
unfolding checked_mul
checked_mul_lem left right what pos fits =
    let bound : ¬ (size_max / left < right) =
      λ h. absurd (omega (arith, (div-lt_iff_lt-mul {x = size_max} {y = right} pos).0 h)) in
    ground arith
