-- ===== src/Sha256/Standard.antt =====
-- FIPS 180-4, SHA-256, apart from the program: the constants, the functions, the message schedule and
-- the rounds on eight named words.
use Prim.Native.Nat.{bit_and, bit_or, bit_xor}
use miinfer.Prelude.{
  ℕ, zero, suc, ◌+◌, ◌-◌, ◌*◌, ◌/◌, ◌%◌, ◌^◌, leb, List, [], ◌∷◌, ◌++◌, map, get_or, length,
  if◌then◌else◌,
}
use miinfer.Sha256.Padding.{padding, cut_blocks}

-- The first sixty-four primes.
abbrev primes : List ℕ
primes =
    2 ∷ 3 ∷ 5 ∷ 7 ∷ 11 ∷ 13 ∷ 17 ∷ 19 ∷ 23 ∷ 29 ∷ 31 ∷ 37 ∷ 41 ∷ 43 ∷ 47 ∷ 53 ∷ 59 ∷ 61 ∷ 67 ∷ 71
    ∷ 73 ∷ 79 ∷ 83 ∷ 89 ∷ 97 ∷ 101 ∷ 103 ∷ 107 ∷ 109 ∷ 113 ∷ 127 ∷ 131 ∷ 137 ∷ 139 ∷ 149 ∷ 151 ∷ 157
    ∷ 163 ∷ 167 ∷ 173 ∷ 179 ∷ 181 ∷ 191 ∷ 193 ∷ 197 ∷ 199 ∷ 211 ∷ 223 ∷ 227 ∷ 229 ∷ 233 ∷ 239 ∷ 241
    ∷ 251 ∷ 257 ∷ 263 ∷ 269 ∷ 271 ∷ 277 ∷ 281 ∷ 283 ∷ 293 ∷ 307 ∷ 311 ∷ []

-- The largest root of `bits` binary digits whose power is at most the number.
unfoldable pub root : ℕ → ℕ → ℕ → ℕ → ℕ
root zero power number found = found
root (suc bits) power number found =
    root bits power number
      (if leb ((found + 2 ^ bits) ^ power) number then found + 2 ^ bits else found)

-- The first thirty-two bits of the fractional part of the root.
unfoldable pub fraction : ℕ → ℕ → ℕ
unfolding root
fraction power p = root 36 power (p * 2 ^ (32 * power)) 0 % 2 ^ 32

unfoldable pub constants : List ℕ
unfolding fraction
constants = map (fraction 3) primes

-- ROTR, SHR, and the functions made of them, on words of 32 bits.
unfoldable pub rotr : ℕ → ℕ → ℕ
rotr n x = bit_or (x / 2 ^ n) (x * 2 ^ (32 - n) % 2 ^ 32)

unfoldable pub shr : ℕ → ℕ → ℕ
shr n x = x / 2 ^ n

unfoldable pub xor3 : ℕ → ℕ → ℕ → ℕ
xor3 x y z = bit_xor (bit_xor x y) z

unfoldable pub choose : ℕ → ℕ → ℕ → ℕ
choose x y z = bit_xor (bit_and x y) (bit_and (2 ^ 32 - 1 - x) z)

unfoldable pub majority : ℕ → ℕ → ℕ → ℕ
unfolding xor3
majority x y z = xor3 (bit_and x y) (bit_and x z) (bit_and y z)

unfoldable pub upper_sigma0 : ℕ → ℕ
unfolding xor3 rotr
upper_sigma0 x = xor3 (rotr 2 x) (rotr 13 x) (rotr 22 x)

unfoldable pub upper_sigma1 : ℕ → ℕ
unfolding xor3 rotr
upper_sigma1 x = xor3 (rotr 6 x) (rotr 11 x) (rotr 25 x)

unfoldable pub lower_sigma0 : ℕ → ℕ
unfolding xor3 rotr shr
lower_sigma0 x = xor3 (rotr 7 x) (rotr 18 x) (shr 3 x)

unfoldable pub lower_sigma1 : ℕ → ℕ
unfolding xor3 rotr shr
lower_sigma1 x = xor3 (rotr 17 x) (rotr 19 x) (shr 10 x)

-- The word at an index of a block, highest byte first.
unfoldable pub word_of : List ℕ → ℕ → ℕ
word_of block t =
    let byte : ℕ → ℕ = λ k. get_or block (4 * t + k) 0 in
    bit_or (bit_or (bit_or (byte 0 * 2 ^ 24) (byte 1 * 2 ^ 16)) (byte 2 * 2 ^ 8)) (byte 3)

unfoldable pub first_words : List ℕ → List ℕ
unfolding word_of
first_words block =
    map (word_of block) (0 ∷ 1 ∷ 2 ∷ 3 ∷ 4 ∷ 5 ∷ 6 ∷ 7 ∷ 8 ∷ 9 ∷ 10 ∷ 11 ∷ 12 ∷ 13 ∷ 14 ∷ 15 ∷ [])

-- W t, from the words in front of it.
unfoldable pub scheduled : List ℕ → ℕ
unfolding lower_sigma0 lower_sigma1
scheduled ws =
    let back : ℕ → ℕ = λ k. get_or ws (length ws - k) 0 in
    (lower_sigma1 (back 2) + back 7 + lower_sigma0 (back 15) + back 16) % 2 ^ 32

unfoldable pub lengthen : ℕ → List ℕ → List ℕ
unfolding scheduled
lengthen zero ws = ws
lengthen (suc n) ws = lengthen n (ws ++ (scheduled ws ∷ []))

unfoldable pub schedule : List ℕ → List ℕ
unfolding first_words lengthen
schedule block = lengthen 48 (first_words block)

pub record Words : Type 0 where
  pub a : ℕ
  pub b : ℕ
  pub c : ℕ
  pub d : ℕ
  pub e : ℕ
  pub f : ℕ
  pub g : ℕ
  pub h : ℕ

unfoldable pub initial : Words
unfolding fraction
initial = record {
  a = fraction 2 2;
  b = fraction 2 3;
  c = fraction 2 5;
  d = fraction 2 7;
  e = fraction 2 11;
  f = fraction 2 13;
  g = fraction 2 17;
  h = fraction 2 19;
}

-- A round with the constant k and the word w.
unfoldable pub step : Words → ℕ → ℕ → Words
unfolding upper_sigma0 upper_sigma1 choose majority
step s k w =
    let t1 = (s.h + upper_sigma1 s.e + choose s.e s.f s.g + k + w) % 2 ^ 32 in
    let t2 = (upper_sigma0 s.a + majority s.a s.b s.c) % 2 ^ 32 in
    record {
      a = (t1 + t2) % 2 ^ 32;
      b = s.a;
      c = s.b;
      d = s.c;
      e = (s.d + t1) % 2 ^ 32;
      f = s.e;
      g = s.f;
      h = s.g;
    }

unfoldable pub steps : List ℕ → ℕ → Words → Words
unfolding step
steps ws zero s = s
steps ws (suc t) s = step (steps ws t s) (get_or constants t 0) (get_or ws t 0)

unfoldable pub plus : Words → Words → Words
plus s t = record {
  a = (s.a + t.a) % 2 ^ 32;
  b = (s.b + t.b) % 2 ^ 32;
  c = (s.c + t.c) % 2 ^ 32;
  d = (s.d + t.d) % 2 ^ 32;
  e = (s.e + t.e) % 2 ^ 32;
  f = (s.f + t.f) % 2 ^ 32;
  g = (s.g + t.g) % 2 ^ 32;
  h = (s.h + t.h) % 2 ^ 32;
}

unfoldable pub compression : Words → List ℕ → Words
unfolding schedule steps plus
compression s block = plus s (steps (schedule block) 64 s)

unfoldable pub over_blocks : Words → List (List ℕ) → Words
unfolding compression
over_blocks s [] = s
over_blocks s (block ∷ blocks) = over_blocks (compression s block) blocks

-- The digits of a number below 16 ^ n in base 16, n of them.
unfoldable pub hexadecimal : ℕ → ℕ → List ℕ
hexadecimal zero v = []
hexadecimal (suc n) v =
    hexadecimal n (v / 16)
    ++ (get_or
          (48 ∷ 49 ∷ 50 ∷ 51 ∷ 52 ∷ 53 ∷ 54 ∷ 55 ∷ 56 ∷ 57 ∷ 97 ∷ 98 ∷ 99 ∷ 100 ∷ 101 ∷ 102 ∷ [])
          (v % 16) 0
        ∷ [])

unfoldable pub digits_of : List ℕ → List ℕ
unfolding hexadecimal
digits_of [] = []
digits_of (w ∷ ws) = hexadecimal 8 w ++ digits_of ws

unfoldable pub shown : Words → List ℕ
unfolding digits_of
shown s = digits_of (s.a ∷ s.b ∷ s.c ∷ s.d ∷ s.e ∷ s.f ∷ s.g ∷ s.h ∷ [])

-- The blocks of the padded message go through the compression, and the words are shown.
unfoldable pub standard : List ℕ → List ℕ
unfolding initial over_blocks shown padding cut_blocks
standard message =
    let padded = message ++ padding (length message) in
    shown (over_blocks initial (cut_blocks (length padded / 64) padded))
