-- ===== src/Tokenizer/Utf8.antt =====
-- src/qwen3_tokenizer.cpp: the code points of a text, and the bytes of a code point.
pub mod RoundTrip
pub mod Standard
pub mod Valid
use Prim.Native.Nat.{bit_and}
use miinfer.Prelude.{
  ℕ, zero, suc, ◌+◌, ◌-◌, ◌*◌, ◌/◌, ◌%◌, List, [], ◌∷◌, ◌++◌, Result, ok, err, ◌>>=◌, ◌>>◌, guard,
  leb, ◌==◌, if◌then◌else◌, length,
}
use miinfer.Tokenizer.Types.{Error, Codepoint, invalid_utf8, out_of_fuel}

-- `|` on numbers.
abbrev pub bit_or : ℕ → ℕ → ℕ
bit_or a b = a + b - bit_and a b

-- The value of a first byte, and how many bytes continue it.
unfoldable pub lead : ℕ → ℕ × ℕ
lead first =
    if bit_and first 128 == 0
    then (first, 0)
    else if bit_and first 224 == 192
    then (bit_and first 31, 1)
    else if bit_and first 240 == 224
    then (bit_and first 15, 2)
    else if bit_and first 248 == 240
    then (bit_and first 7, 3)
    else (65533, 0)

-- The loop over the continuation bytes: the value, the bytes that it read, and the others. The
-- six lowest bits of `value << 6` are zero, so `|` adds the bits of the byte.
unfoldable pub follow : ℕ → ℕ → List ℕ → Result Error (ℕ × List ℕ × List ℕ)
follow zero value bytes = ok (value, [], bytes)
follow (suc n) value [] = err invalid_utf8
follow (suc n) value (byte ∷ bytes) = do
  guard (bit_and byte 192 == 128) invalid_utf8
  (whole, read, rest) ← follow n (value * 64 + bit_and byte 63) bytes
  ok (whole, byte ∷ read, rest)

-- One round of the loop: the code point at the front, and the text behind it.
unfoldable pub codepoint : ℕ → List ℕ → Result Error (Codepoint × List ℕ)
unfolding lead follow
codepoint first bytes = do
  guard (leb ((lead first).1) (length bytes)) invalid_utf8
  (whole, read, rest) ← follow ((lead first).1) ((lead first).0) bytes
  ok (record { value = whole; bytes = first ∷ read }, rest)

unfoldable pub codepoints_loop : ℕ → List ℕ → Result Error (List Codepoint)
unfolding codepoint
codepoints_loop fuel [] = ok []
codepoints_loop zero (first ∷ bytes) = err out_of_fuel
codepoints_loop (suc fuel) (first ∷ bytes) = do
  (point, rest) ← codepoint first bytes
  points ← codepoints_loop fuel rest
  ok (point ∷ points)

unfoldable pub codepoints : List ℕ → Result Error (List Codepoint)
unfolding codepoints_loop
codepoints text = codepoints_loop (length text) text

-- Each `static_cast<char>` keeps the lowest eight bits.
unfoldable pub utf8 : ℕ → List ℕ
utf8 value =
    if leb value 127
    then value % 256 ∷ []
    else if leb value 2047
    then bit_or 192 (value / 64) % 256 ∷ bit_or 128 (bit_and value 63) % 256 ∷ []
    else if leb value 65535
    then bit_or 224 (value / 4096) % 256
      ∷ bit_or 128 (bit_and (value / 64) 63) % 256
      ∷ bit_or 128 (bit_and value 63) % 256
      ∷ []
    else bit_or 240 (value / 262144) % 256
      ∷ bit_or 128 (bit_and (value / 4096) 63) % 256
      ∷ bit_or 128 (bit_and (value / 64) 63) % 256
      ∷ bit_or 128 (bit_and value 63) % 256
      ∷ []
