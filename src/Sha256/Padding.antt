-- ===== src/Sha256/Padding.antt =====
-- The padding of FIPS 180-4, and the hash without a buffer: the padded message, cut into blocks, goes
-- block by block through transform.
use miinfer.Prelude.{
  ℕ, zero, suc, ◌-◌, ◌*◌, ◌/◌, ◌%◌, ◌^◌, ◌≡◌, refl, ap, sym, ◌∙◌, List, [], ◌∷◌, ◌++◌, length, take,
  drop, replicate, join, All, take-append, drop-append, append_assoc, length-append, arith,
}
use miinfer.Sha256.Compress.{initial_hash, transform}
use miinfer.Sha256.{print, uint64_mod}

-- The blocks at the front of a message, n of them.
unfoldable pub cut_blocks : ℕ → List ℕ → List (List ℕ)
cut_blocks zero message = []
cut_blocks (suc n) message = take 64 message ∷ cut_blocks n (drop 64 message)

unfoldable pub compress : List ℕ → List (List ℕ) → List ℕ
compress state [] = state
compress state (block ∷ blocks) = compress (transform state block) blocks

unfoldable pub big_endian : ℕ → ℕ → List ℕ
big_endian zero value = []
big_endian (suc n) value = (value / 256 ^ n % 256) ∷ big_endian n value

-- The bit 1, the fewest zeros that fill up the last block, and the number of bits in eight bytes.
unfoldable pub padding : ℕ → List ℕ
unfolding big_endian
padding size = 128 ∷ (replicate ((119 - size % 64) % 64) 0 ++ big_endian 8 (size * 8 % uint64_mod))

unfoldable pub digest_state : List ℕ → List ℕ
unfolding padding cut_blocks compress
digest_state message =
    let padded = message ++ padding (length message) in
    compress initial_hash (cut_blocks (length padded / 64) padded)

unfoldable pub digest : List ℕ → List ℕ
unfolding digest_state print
digest message = print (digest_state message)

-- Whole blocks.
abbrev pub AreBlocks : List (List ℕ) → Type 0
AreBlocks = All (λ b. length b ≡ 64)

pub compress-append :
    (state : List ℕ) (xs ys : List (List ℕ))
    → compress state (xs ++ ys) ≡ compress (compress state xs) ys
unfolding compress
compress-append state [] ys = refl
compress-append state (x ∷ xs) ys = compress-append (transform state x) xs ys

pub join-append : (xs ys : List (List ℕ)) → join (xs ++ ys) ≡ join xs ++ join ys
join-append [] ys = refl
join-append (x ∷ xs) ys =
    ap (λ t. x ++ t) (join-append xs ys) ∙ sym (append_assoc x (join xs) (join ys))

pub length-join :
    (blocks : List (List ℕ)) → AreBlocks blocks → length (join blocks) ≡ 64 * length blocks
length-join [] h = refl
length-join (b ∷ blocks) (here, h) =
    omega (arith, length-append b (join blocks), length-join blocks h)

-- The blocks that a message is made of are the blocks that it is cut into.
pub cut_blocks-join :
    (blocks : List (List ℕ)) → AreBlocks blocks → cut_blocks (length blocks) (join blocks) ≡ blocks
unfolding cut_blocks
cut_blocks-join [] h = refl
cut_blocks-join (b ∷ blocks) (here, h) =
    rw (take-append 64 b (join blocks) here, drop-append 64 b (join blocks) here)
      (ap (◌∷◌ b) (cut_blocks-join blocks h))
