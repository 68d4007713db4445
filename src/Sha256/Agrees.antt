-- ===== src/Sha256/Agrees.antt =====
-- transform and the printing of src/sha256.cpp compute what FIPS 180-4 describes.
use native.Mathlib.Nat.{div-div-eq-div-mul}
use miinfer.Prelude.{
  ℕ, zero, suc, ◌+◌, ◌-◌, ◌*◌, ◌/◌, ◌%◌, ◌^◌, ◌≤◌, ◌<◌, ◌≡◌, refl, ap, ap₂, sym, ◌∙◌, List, [], ◌∷◌,
  ◌++◌, ◌==◌, ==_iff, get_or, set, replicate, length, length-append, append_assoc, append-nil,
  arith,
}
use miinfer.Prelude.Below.{holds_below, holds_below-lem}
use miinfer.Sha256.Compress.{
  initial_hash, round_constants, load_words, next_word, extend, schedule_of, round, rounds,
  add_words, transform, rotate_right,
}
use miinfer.Sha256.{hex_digit, hex_word, print, sha256_bytes}
use miinfer.Sha256.Padding.{padding, compress, digest_state, digest, cut_blocks}
use miinfer.Sha256.Digest.{sha256_bytes-digest}
use miinfer.Sha256.Standard.{
  root, fraction, constants, first_words, word_of, scheduled, lengthen, schedule, lower_sigma0,
  lower_sigma1, upper_sigma0, upper_sigma1, choose, majority, rotr, shr, xor3, Words, initial, step,
  steps, plus, compression, over_blocks, hexadecimal, digits_of, shown, standard,
}

constants_lem : constants ≡ round_constants
unfolding constants fraction root round_constants
constants_lem = refl

-- The words as the program keeps them.
listed : Words → List ℕ
listed s = s.a ∷ s.b ∷ s.c ∷ s.d ∷ s.e ∷ s.f ∷ s.g ∷ s.h ∷ []

initial_lem : initial_hash ≡ listed initial
unfolding initial_hash listed initial fraction root
initial_lem = refl

load_words_lem :
    (block : List ℕ) → load_words block 16 0 (replicate 64 0) ≡ first_words block ++ replicate 48 0
unfolding load_words first_words word_of
load_words_lem block = refl

get_or-front : (ws zs : List ℕ) (i : ℕ) → i < length ws → get_or (ws ++ zs) i 0 ≡ get_or ws i 0
get_or-front [] zs i h = absurd (omega arith)
get_or-front (w ∷ ws) zs zero h = refl
get_or-front (w ∷ ws) zs (suc i) h = get_or-front ws zs i (omega arith)

set-append : (ws zs : List ℕ) (x v : ℕ) → set (ws ++ (x ∷ zs)) (length ws) v ≡ ws ++ (v ∷ zs)
set-append [] zs x v = refl
set-append (w ∷ ws) zs x v = ap (◌∷◌ w) (set-append ws zs x v)

next_word_lem : (ws zs : List ℕ) → 16 ≤ length ws → next_word (ws ++ zs) (length ws) ≡ scheduled ws
unfolding next_word scheduled lower_sigma0 lower_sigma1 rotr shr xor3 rotate_right
next_word_lem ws zs h =
    rw
      (
        get_or-front ws zs (length ws - 15) (omega arith),
        get_or-front ws zs (length ws - 2) (omega arith),
        get_or-front ws zs (length ws - 7) (omega arith),
        get_or-front ws zs (length ws - 16) (omega arith),
      )
      (ap (λ n. n % 4294967296) (omega arith))

extend_lem :
    (n : ℕ) (ws : List ℕ)
    → 16 ≤ length ws
    → extend n (length ws) (ws ++ replicate n 0) ≡ lengthen n ws
unfolding extend lengthen
extend_lem zero ws h = append-nil ws
extend_lem (suc n) ws h =
    let v = scheduled ws in
    let longer : length (ws ++ (v ∷ [])) ≡ length ws + 1 = length-append ws (v ∷ []) in
    let placed : set (ws ++ replicate (suc n) 0) (length ws) v ≡ (ws ++ (v ∷ [])) ++ replicate n 0 =
      set-append ws (replicate n 0) 0 v ∙ sym (append_assoc ws (v ∷ []) (replicate n 0)) in
    rw (next_word_lem ws (replicate (suc n) 0) h, placed, ← longer)
      (extend_lem n (ws ++ (v ∷ [])) (omega arith))

schedule_lem : (block : List ℕ) → schedule_of block ≡ schedule block
unfolding schedule_of schedule first_words
schedule_lem block =
    ap (extend 48 16) (load_words_lem block) ∙ extend_lem 48 (first_words block) (omega arith)

round_lem :
    (ws : List ℕ) (t : ℕ) (s : Words)
    → round ws t (listed s) ≡ listed (step s (get_or round_constants t 0) (get_or ws t 0))
unfolding round listed step upper_sigma0 upper_sigma1 choose majority rotr xor3 rotate_right
round_lem ws t s = refl

rounds_lem :
    (ws : List ℕ) (n t : ℕ) (s : Words)
    → rounds ws n t (listed (steps ws t s)) ≡ listed (steps ws (t + n) s)
unfolding rounds steps
rounds_lem ws zero t s = ap (λ k. listed (steps ws k s)) (omega arith)
rounds_lem ws (suc n) t s =
    let more : suc t ≡ t + 1 = omega arith in
    let left : t + 1 + n ≡ t + suc n = omega arith in
    ap (rounds ws n (t + 1)) (
      round_lem ws t (steps ws t s)
      ∙ ap (λ ks. listed (step (steps ws t s) (get_or ks t 0) (get_or ws t 0))) (sym constants_lem))
    ∙ ap (λ k. rounds ws n (t + 1) (listed (steps ws k s))) more
    ∙ rounds_lem ws n (t + 1) s
    ∙ ap (λ k. listed (steps ws k s)) left

added : (s t : Words) → add_words (listed s) (listed t) ≡ listed (plus s t)
unfolding add_words listed plus
added s t = refl

transform_lem :
    (s : Words) (block : List ℕ) → transform (listed s) block ≡ listed (compression s block)
unfolding transform compression steps
transform_lem s block =
    ap (λ ws. add_words (listed s) (rounds ws 64 0 (listed s))) (schedule_lem block)
    ∙ ap (add_words (listed s)) (rounds_lem (schedule block) 64 0 s)
    ∙ added s (steps (schedule block) 64 s)

compress_lem :
    (blocks : List (List ℕ)) (s : Words)
    → compress (listed s) blocks ≡ listed (over_blocks s blocks)
unfolding compress over_blocks
compress_lem [] s = refl
compress_lem (block ∷ blocks) s =
    ap (λ w. compress w blocks) (transform_lem s block) ∙ compress_lem blocks (compression s block)

-- A digit of the program.
digit_lem :
    (d : ℕ)
    → d < 16
    → hex_digit d
      ≡ get_or
          (48 ∷ 49 ∷ 50 ∷ 51 ∷ 52 ∷ 53 ∷ 54 ∷ 55 ∷ 56 ∷ 57 ∷ 97 ∷ 98 ∷ 99 ∷ 100 ∷ 101 ∷ 102 ∷ [])
          d
          0
unfolding hex_digit holds_below
digit_lem d h =
    (==_iff (hex_digit d) (
        get_or
          (48 ∷ 49 ∷ 50 ∷ 51 ∷ 52 ∷ 53 ∷ 54 ∷ 55 ∷ 56 ∷ 57 ∷ 97 ∷ 98 ∷ 99 ∷ 100 ∷ 101 ∷ 102 ∷ []) d
          0)).0
      (holds_below-lem 16
        (λ d.
          hex_digit d
          == get_or
              (48 ∷ 49 ∷ 50 ∷ 51 ∷ 52 ∷ 53 ∷ 54 ∷ 55 ∷ 56 ∷ 57 ∷ 97 ∷ 98 ∷ 99 ∷ 100 ∷ 101 ∷ 102
                ∷ [])
              d 0)
        refl d h)

-- The division by 16 ^ n, and n divisions by 16.
hex_word_lem : (n v : ℕ) → hex_word (suc n) v ≡ hex_word n (v / 16) ++ (hex_digit (v % 16) ∷ [])
unfolding hex_word
hex_word_lem zero v = ap (λ d. hex_digit (d % 16) ∷ []) (omega arith)
hex_word_lem (suc n) v =
    let power : 16 ^ suc n ≡ 16 * 16 ^ n = omega arith in
    let divided : v / 16 ^ suc n ≡ v / 16 / 16 ^ n =
      ap (λ q. v / q) power ∙ sym (div-div-eq-div-mul v 16 (16 ^ n)) in
    ap (λ q. hex_digit (q % 16) ∷ hex_word (suc n) v) divided
    ∙ ap (◌∷◌ (hex_digit (v / 16 / 16 ^ n % 16))) (hex_word_lem n v)

hexadecimal_lem : (n v : ℕ) → hex_word n v ≡ hexadecimal n v
unfolding hexadecimal hex_word
hexadecimal_lem zero v = refl
hexadecimal_lem (suc n) v =
    hex_word_lem n v
    ∙ ap₂ (λ ds d. ds ++ (d ∷ [])) (hexadecimal_lem n (v / 16)) (digit_lem (v % 16) (omega arith))

print_lem : (ws : List ℕ) → print ws ≡ digits_of ws
unfolding print digits_of
print_lem [] = refl
print_lem (w ∷ ws) = ap₂ ◌++◌ (hexadecimal_lem 8 w) (print_lem ws)

-- sha256_bytes of any byte string is SHA-256 as FIPS 180-4 describes it, in lower-case hexadecimal
-- digits: the string is padded and cut into blocks of 64 bytes, and these go through the compression,
-- with the constants from the roots of the primes, the message schedule and the 64 rounds.
pub sha256_bytes-standard : (bytes : List ℕ) → sha256_bytes bytes ≡ standard bytes
unfolding digest digest_state standard shown listed
sha256_bytes-standard bytes =
    let padded = bytes ++ padding (length bytes) in
    let blocks = cut_blocks (length padded / 64) padded in
    sha256_bytes-digest bytes
    ∙ ap (λ s. print (compress s blocks)) initial_lem
    ∙ ap print (compress_lem blocks initial)
    ∙ print_lem (listed (over_blocks initial blocks))
