-- ===== src/Sha256/Compress.antt =====
-- Sha256::transform, src/sha256.cpp. A word is a number below 2 ^ 32.
use Prim.Native.Nat.{bit_and, bit_or, bit_xor}
use miinfer.Prelude.{
  ℕ, zero, suc, ◌+◌, ◌-◌, ◌*◌, ◌/◌, ◌%◌, ◌^◌, List, [], ◌∷◌, get_or, set, replicate,
}

abbrev pub uint32_mod : ℕ
uint32_mod = 4294967296

-- kRoundConstants and kInitialHash.
unfoldable pub round_constants : List ℕ
round_constants =
    1116352408 ∷ 1899447441 ∷ 3049323471 ∷ 3921009573 ∷ 961987163 ∷ 1508970993 ∷ 2453635748
    ∷ 2870763221 ∷ 3624381080 ∷ 310598401 ∷ 607225278 ∷ 1426881987 ∷ 1925078388 ∷ 2162078206
    ∷ 2614888103 ∷ 3248222580 ∷ 3835390401 ∷ 4022224774 ∷ 264347078 ∷ 604807628 ∷ 770255983
    ∷ 1249150122 ∷ 1555081692 ∷ 1996064986 ∷ 2554220882 ∷ 2821834349 ∷ 2952996808 ∷ 3210313671
    ∷ 3336571891 ∷ 3584528711 ∷ 113926993 ∷ 338241895 ∷ 666307205 ∷ 773529912 ∷ 1294757372
    ∷ 1396182291 ∷ 1695183700 ∷ 1986661051 ∷ 2177026350 ∷ 2456956037 ∷ 2730485921 ∷ 2820302411
    ∷ 3259730800 ∷ 3345764771 ∷ 3516065817 ∷ 3600352804 ∷ 4094571909 ∷ 275423344 ∷ 430227734
    ∷ 506948616 ∷ 659060556 ∷ 883997877 ∷ 958139571 ∷ 1322822218 ∷ 1537002063 ∷ 1747873779
    ∷ 1955562222 ∷ 2024104815 ∷ 2227730452 ∷ 2361852424 ∷ 2428436474 ∷ 2756734187 ∷ 3204031479
    ∷ 3329325298 ∷ []

unfoldable pub initial_hash : List ℕ
initial_hash =
    1779033703 ∷ 3144134277 ∷ 1013904242 ∷ 2773480762 ∷ 1359893119 ∷ 2600822924 ∷ 528734635
    ∷ 1541459225 ∷ []

unfoldable pub rotate_right : ℕ → ℕ → ℕ
rotate_right value amount = bit_or (value / 2 ^ amount) (value * 2 ^ (32 - amount) % uint32_mod)

-- The first loop, over n indices.
unfoldable pub load_words : List ℕ → ℕ → ℕ → List ℕ → List ℕ
load_words block zero index schedule = schedule
load_words block (suc n) index schedule =
    let offset = index * 4 in
    load_words block n (index + 1) (
      set schedule index (
        bit_or
          (bit_or (bit_or (get_or block offset 0 * 2 ^ 24) (get_or block (offset + 1) 0 * 2 ^ 16))
            (get_or block (offset + 2) 0 * 2 ^ 8))
          (get_or block (offset + 3) 0)))

-- The word of the schedule at an index from 16 on.
unfoldable pub next_word : List ℕ → ℕ → ℕ
unfolding rotate_right
next_word schedule index =
    let w15 = get_or schedule (index - 15) 0 in
    let w2 = get_or schedule (index - 2) 0 in
    let s0 = bit_xor (bit_xor (rotate_right w15 7) (rotate_right w15 18)) (w15 / 2 ^ 3) in
    let s1 = bit_xor (bit_xor (rotate_right w2 17) (rotate_right w2 19)) (w2 / 2 ^ 10) in
    (get_or schedule (index - 16) 0 + s0 + get_or schedule (index - 7) 0 + s1) % uint32_mod

unfoldable pub extend : ℕ → ℕ → List ℕ → List ℕ
unfolding next_word
extend zero index schedule = schedule
extend (suc n) index schedule = extend n (index + 1) (set schedule index (next_word schedule index))

unfoldable pub schedule_of : List ℕ → List ℕ
unfolding load_words extend
schedule_of block = extend 48 16 (load_words block 16 0 (replicate 64 0))

-- One round on the working words.
unfoldable pub round : List ℕ → ℕ → List ℕ → List ℕ
unfolding rotate_right round_constants
round schedule index working =
    let w0 = get_or working 0 0 in
    let w1 = get_or working 1 0 in
    let w2 = get_or working 2 0 in
    let w4 = get_or working 4 0 in
    let w5 = get_or working 5 0 in
    let w6 = get_or working 6 0 in
    let s1 = bit_xor (bit_xor (rotate_right w4 6) (rotate_right w4 11)) (rotate_right w4 25) in
    let choose = bit_xor (bit_and w4 w5) (bit_and (uint32_mod - 1 - w4) w6) in
    let temp1 =
      (get_or working 7 0 + s1 + choose + get_or round_constants index 0 + get_or schedule index 0)
      % uint32_mod in
    let s0 = bit_xor (bit_xor (rotate_right w0 2) (rotate_right w0 13)) (rotate_right w0 22) in
    let majority = bit_xor (bit_xor (bit_and w0 w1) (bit_and w0 w2)) (bit_and w1 w2) in
    let temp2 = (s0 + majority) % uint32_mod in
    (temp1 + temp2) % uint32_mod
    ∷ w0
    ∷ w1
    ∷ w2
    ∷ (get_or working 3 0 + temp1) % uint32_mod
    ∷ w4
    ∷ w5
    ∷ w6
    ∷ []

unfoldable pub rounds : List ℕ → ℕ → ℕ → List ℕ → List ℕ
unfolding round
rounds schedule zero index working = working
rounds schedule (suc n) index working = rounds schedule n (index + 1) (round schedule index working)

-- `state_[index] += working[index]` for each index.
unfoldable pub add_words : List ℕ → List ℕ → List ℕ
add_words [] working = []
add_words (s ∷ state) [] = s ∷ state
add_words (s ∷ state) (w ∷ working) = (s + w) % uint32_mod ∷ add_words state working

unfoldable pub transform : List ℕ → List ℕ → List ℕ
unfolding schedule_of rounds add_words
transform state block = add_words state (rounds (schedule_of block) 64 0 state)
