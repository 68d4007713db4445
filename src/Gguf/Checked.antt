-- ===== src/Gguf/Checked.antt =====
-- The checked arithmetic on `std::size_t` of src/gguf.cpp.
pub mod Laws
use Prim.Native.Nat.{bit_and}
use miinfer.Prelude.{
  ℕ, ◌+◌, ◌-◌, ◌*◌, ◌/◌, ◌&&◌, ◌||◌, not, ok, err, String, ltb, ◌==◌, if◌then◌else◌,
}
use miinfer.Gguf.Types.{exceeds_size_t, overflows, alignment_not_power_of_two, Outcome}

-- std::numeric_limits<std::size_t>::max()
abbrev pub size_max : ℕ
size_max = 18446744073709551615

unfoldable pub checked_size : ℕ → String → Outcome ℕ
checked_size value what = if ltb size_max value then err (exceeds_size_t what) else ok value

unfoldable pub checked_add : ℕ → ℕ → String → Outcome ℕ
checked_add left right what =
    if ltb (size_max - left) right then err (overflows what) else ok (left + right)

unfoldable pub checked_mul : ℕ → ℕ → String → Outcome ℕ
checked_mul left right what =
    if not (left == 0) && ltb (size_max / left) right
    then err (overflows what)
    else ok (left * right)

unfoldable pub align_up : ℕ → ℕ → Outcome ℕ
unfolding checked_add
align_up value alignment =
    if (alignment == 0) || not (bit_and alignment (alignment - 1) == 0)
    then err alignment_not_power_of_two
    else (let remainder = bit_and value (alignment - 1) in
        if remainder == 0
        then ok value
        else checked_add value (alignment - remainder) "data offset")
