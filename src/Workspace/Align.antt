-- ===== src/Workspace/Align.antt =====
-- What `(bytes + 127) & ~127` computes.
use Prim.Native.Nat.{bit_and}
use miinfer.Prelude.{ℕ, ◌+◌, ◌*◌, ◌/◌, ◌%◌, ◌≤◌, ◌<◌, ◌≡◌, refl, arith}
use miinfer.Prelude.Bits.{bit_and_step, bit_and_mask}
use miinfer.Prelude.Words.{word_mod}
use miinfer.Workspace.{align128}

upper_mask : (v : ℕ) → v < 144115188075855872 → bit_and v 144115188075855871 ≡ v
upper_mask v h = omega (arith, bit_and_mask 144115188075855872 v (omega arith) refl)

clear_seven : (v : ℕ) → v < word_mod → bit_and v 18446744073709551488 ≡ v / 128 * 128
clear_seven v h = omega (
  arith,
  bit_and_step v 18446744073709551488,
  bit_and_step (v / 2) 9223372036854775744,
  bit_and_step (v / 2 / 2) 4611686018427387872,
  bit_and_step (v / 2 / 2 / 2) 2305843009213693936,
  bit_and_step (v / 2 / 2 / 2 / 2) 1152921504606846968,
  bit_and_step (v / 2 / 2 / 2 / 2 / 2) 576460752303423484,
  bit_and_step (v / 2 / 2 / 2 / 2 / 2 / 2) 288230376151711742,
  upper_mask (v / 2 / 2 / 2 / 2 / 2 / 2 / 2) (omega arith),
)

-- The next multiple of 128, wherever it fits.
pub align128_lem :
    (bytes : ℕ)
    → bytes + 127 < word_mod
    → (align128 bytes % 128 ≡ 0) × (bytes ≤ align128 bytes) × (align128 bytes < bytes + 128)
unfolding align128
align128_lem bytes h = omega (arith, clear_seven (bytes + 127) h)
