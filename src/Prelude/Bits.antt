-- ===== src/Prelude/Bits.antt =====
-- Facts about `bit_and` at variables. The main one is about masks: where `a & (a - 1)` is zero,
-- `a` is a power of two and `v & (a - 1)` is the remainder of `v` by `a`.
use Prim.Native.Nat.{
  ℕ, zero, suc, ◌+◌, ◌-◌, ◌*◌, ◌/◌, ◌%◌, ◌≤◌, ◌<◌, min, bit_and, digits, bit_and-bitwise,
}
use mathlib.Core.Path.{◌≡◌, refl, ap, subst, ◌∙◌}
use native.Mathlib.Omega.{arith}
use native.Mathlib.Decide.{dec_lt}
use native.Mathlib.Nat.{
  mod-lt, mod-eq_of_lt, div-add-mod, add-mod, mul-mod_right, zero-add, mod-mod,
}

-- Induction on the binary digits of a number.
by_digits : (P : ℕ → Type 0) → P 0 → ((a : ℕ) → 0 < a → P (a / 2) → P a) → (n a : ℕ) → a ≤ n → P a
by_digits P base double zero a h = let none_left : 0 ≡ a = omega arith in subst P none_left base
by_digits P base double (suc n) a h = elim (dec_lt 0 a) [
  | yes pos ↦ double a pos (by_digits P base double n (a / 2) (omega arith))
  | no nothing ↦ by_digits P base double n a (omega arith)
]

-- The digits that two numbers share, with room for `room` of them.
abbrev shared : ℕ → ℕ → ℕ → ℕ
shared room = digits (λ _. 0) min room

-- One place more, where there is room already.
shared-one_more : (a b room : ℕ) → a ≤ room → shared (suc room) a b ≡ shared room a b
shared-one_more zero b zero h = refl
shared-one_more zero b (suc room) h = refl
shared-one_more (suc a) b zero h = absurd (omega arith)
shared-one_more (suc a) b (suc room) h =
    let upper = shared-one_more (suc a / 2) (b / 2) room (omega arith) in omega (arith, upper)

shared_more : (more room a b : ℕ) → a ≤ room → room ≤ more → shared more a b ≡ shared room a b
shared_more zero room a b h k = let empty : 0 ≡ room = omega arith in ap (λ n. shared n a b) empty
shared_more (suc more) room a b h k = elim (dec_lt more room) [
  | yes last ↦ let full : suc more ≡ room = omega arith in ap (λ n. shared n a b) full
  | no below ↦ shared-one_more a b more (omega arith) ∙ shared_more more room a b h (omega arith)
]

-- The law for the lowest binary digit.
pub bit_and_step : (a b : ℕ) → bit_and a b ≡ bit_and (a / 2) (b / 2) * 2 + min (a % 2) (b % 2)
bit_and_step zero b =
    let low = bit_and-bitwise 0 b in
    let high = bit_and-bitwise 0 (b / 2) in omega (arith, low, high)
bit_and_step (suc a) b =
    let half = suc a / 2 in
    let roomy = shared_more a half half (b / 2) (omega arith) (omega arith) in
    omega (arith, roomy, bit_and-bitwise half (b / 2), bit_and-bitwise (suc a) b)

pub bit_and-zero : (a : ℕ) → bit_and a 0 ≡ 0
bit_and-zero a =
    by_digits (λ t. bit_and t 0 ≡ 0) refl (λ t _ ih. omega (arith, bit_and_step t 0)) a a
      (omega arith)

pub bit_and_self : (a : ℕ) → bit_and a a ≡ a
bit_and_self a =
    by_digits (λ t. bit_and t t ≡ t) refl (λ t _ ih. omega (arith, bit_and_step t t)) a a
      (omega arith)

-- A remainder is known by its bound.
pub mod_unique : (v b k r : ℕ) → v ≡ b * k + r → r < b → v % b ≡ r
mod_unique v b k r e h =
    rw (e, add-mod (b * k) r b, mul-mod_right b k, zero-add, mod-mod) (mod-eq_of_lt h)

-- Remainders by 2 b, from those by b.
mod_double : (v b : ℕ) → 0 < b → v % (2 * b) ≡ 2 * (v / 2 % b) + v % 2
mod_double v b h =
    mod_unique v (2 * b) (v / 2 / b) (2 * (v / 2 % b) + v % 2)
      (omega (arith, ap (λ (t : ℕ). 2 * t) (div-add-mod (v / 2) b)))
      (omega (arith, mod-lt (v / 2) h))

-- A mask of the form a - 1 where a is even, digit by digit.
mask_fuel : (n a v : ℕ) → a ≤ n → 0 < a → bit_and a (a - 1) ≡ 0 → bit_and v (a - 1) ≡ v % a
mask_fuel zero a v le pos h = absurd (omega arith)
mask_fuel (suc n) a v le pos h = elim (dec_lt 0 (a % 2)) [
  | yes odd ↦
      let half : (a - 1) / 2 ≡ a / 2 = omega arith in
      let same : bit_and (a / 2) ((a - 1) / 2) ≡ a / 2 = rw half (bit_and_self (a / 2)) in
      let e : a ≡ 1 = omega (arith, bit_and_step a (a - 1)) in rw e (omega (arith, bit_and-zero v))
  | no even ↦
      let half : (a - 1) / 2 ≡ a / 2 - 1 = omega arith in
      let twice : 2 * (a / 2) ≡ a = omega arith in
      let rest : bit_and (a / 2) (a / 2 - 1) ≡ 0 =
        rw (← half) (omega (arith, bit_and_step a (a - 1))) in
      let ih = mask_fuel n (a / 2) (v / 2) (omega arith) (omega arith) rest in
      let upper : bit_and (v / 2) ((a - 1) / 2) ≡ v / 2 % (a / 2) = rw half ih in
      let whole : v % a ≡ 2 * (v / 2 % (a / 2)) + v % 2 =
        subst (λ t. v % t ≡ 2 * (v / 2 % (a / 2)) + v % 2) twice
          (mod_double v (a / 2) (omega arith)) in
      omega (arith, bit_and_step v (a - 1))
]

-- The test `a & (a - 1)` picks out the powers of two, where the mask `v & (a - 1)` is `v % a`.
pub bit_and_mask : (a v : ℕ) → 0 < a → bit_and a (a - 1) ≡ 0 → bit_and v (a - 1) ≡ v % a
bit_and_mask a v = mask_fuel a a v (omega arith)
