-- ===== src/Prelude/Words.antt =====
-- Machine words as native numbers: `std::size_t` and `std::uint64_t` are numbers below 2 ^ 64, and
-- their operations wrap. A value in memory is a list of bytes, lowest byte first.
use Prim.Native.Nat.{ℕ, zero, suc, ◌+◌, ◌-◌, ◌*◌, ◌/◌, ◌%◌, ◌^◌, ◌<◌}
use mathlib.Core.Path.{◌≡◌, refl}
use mathlib.Core.List.{List, [], ◌∷◌}
use native.Mathlib.Omega.{arith}
use native.Mathlib.Nat.{pow-suc}
use miinfer.Prelude.Lists.{length, All}

-- std::numeric_limits<std::size_t>::max() + 1
abbrev pub word_mod : ℕ
word_mod = 18446744073709551616

abbrev pub add64 : ℕ → ℕ → ℕ
add64 a b = (a + b) % word_mod

abbrev pub sub64 : ℕ → ℕ → ℕ
sub64 a b = (a + word_mod - b) % word_mod

abbrev pub mul64 : ℕ → ℕ → ℕ
mul64 a b = a * b % word_mod

abbrev pub IsByte : ℕ → Type 0
IsByte b = b < 256

-- The number that a list of bytes stands for in the memory of a little-endian host.
unfoldable pub from_bytes : List ℕ → ℕ
from_bytes [] = 0
from_bytes (b ∷ bs) = b + 256 * from_bytes bs

-- The n lowest bytes of a number.
unfoldable pub to_bytes : ℕ → ℕ → List ℕ
to_bytes zero v = []
to_bytes (suc n) v = (v % 256) ∷ to_bytes n (v / 256)

pub length-to_bytes : (n v : ℕ) → length (to_bytes n v) ≡ n
unfolding to_bytes
length-to_bytes zero v = refl
length-to_bytes (suc n) v = omega (arith, length-to_bytes n (v / 256))

pub to_bytes-IsByte : (n v : ℕ) → All IsByte (to_bytes n v)
unfolding to_bytes
to_bytes-IsByte zero v = tt
to_bytes-IsByte (suc n) v = (omega arith, to_bytes-IsByte n (v / 256))

pub from_bytes-to_bytes : (n v : ℕ) → v < 256 ^ n → from_bytes (to_bytes n v) ≡ v
unfolding from_bytes to_bytes
from_bytes-to_bytes zero v h = omega arith
from_bytes-to_bytes (suc n) v h =
    omega (arith, from_bytes-to_bytes n (v / 256) (omega (arith, pow-suc 256 n)))

pub from_bytes-lt : (bs : List ℕ) → All IsByte bs → from_bytes bs < 256 ^ length bs
unfolding from_bytes
from_bytes-lt [] h = omega arith
from_bytes-lt (b ∷ bs) h = omega (arith, from_bytes-lt bs h.1, pow-suc 256 (length bs))
