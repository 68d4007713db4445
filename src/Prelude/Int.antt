-- ===== src/Prelude/Int.antt =====
-- Signed integers over the native numbers.
use Prim.Native.Nat.{ℕ, ◌-◌}
use miinfer.Prelude.Tests.{ltb, if◌then◌else◌}

-- `negsuc n` is -(n + 1).
pub data ℤ : Type 0 where
  pos : ℕ → ℤ
  negsuc : ℕ → ℤ

-- The signed value of a bit pattern below 2 * half, in two's complement.
abbrev pub signed : ℕ → ℕ → ℕ → ℤ
signed half modulus w = if ltb w half then pos w else negsuc (modulus - w - 1)
