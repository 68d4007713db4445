-- ===== src/Sha256/Fill.antt =====
-- The bytes that finish writes behind the message.
use miinfer.Prelude.{
  ℕ, zero, suc, ◌+◌, ◌-◌, ◌*◌, ◌/◌, ◌%◌, ◌^◌, ◌≤◌, ◌<◌, ◌≡◌, refl, ap, sym, subst, ◌∙◌, List, [],
  ◌∷◌, ◌++◌, ◌==◌, ==_iff, length, take, set, replicate, length-set, take-all, append_assoc,
  append-nil, arith,
}
use miinfer.Prelude.Below.{holds_below, holds_below-lem}
use miinfer.Sha256.{Hash, zero_fill, write_length, last_block}
use miinfer.Sha256.Padding.{big_endian}

pub take-set :
    (block : List ℕ) (index v : ℕ)
    → index < length block
    → take (index + 1) (set block index v) ≡ take index block ++ (v ∷ [])
take-set [] index v h = absurd (omega arith)
take-set (x ∷ block) zero v h = refl
take-set (x ∷ block) (suc index) v h =
    let e : suc index + 1 ≡ suc (index + 1) = omega arith in
    rw e (ap (◌∷◌ x) (take-set block index v (omega arith)))

pub length-zero_fill :
    (n index : ℕ) (block : List ℕ) → length (zero_fill n index block) ≡ length block
unfolding zero_fill
length-zero_fill zero index block = refl
length-zero_fill (suc n) index block =
    length-zero_fill n (index + 1) (set block index 0) ∙ length-set block index 0

pub take-zero_fill :
    (n index : ℕ) (block : List ℕ)
    → index + n ≤ length block
    → take (index + n) (zero_fill n index block) ≡ take index block ++ replicate n 0
unfolding zero_fill
take-zero_fill zero index block h =
    ap (λ i. take i block) (omega arith) ∙ sym (append-nil (take index block))
take-zero_fill (suc n) index block h =
    let wide = length-set block index 0 in
    let e : index + 1 + n ≡ index + suc n = omega arith in
    subst
      (λ i.
        take i (zero_fill n (index + 1) (set block index 0))
        ≡ take index block ++ replicate (suc n) 0)
      e
      (take-zero_fill n (index + 1) (set block index 0) (omega arith)
        ∙ ap (λ t. t ++ replicate n 0) (take-set block index 0 (omega arith))
        ∙ append_assoc (take index block) (0 ∷ []) (replicate n 0))

length-write_length :
    (bits n index : ℕ) (block : List ℕ) → length (write_length bits n index block) ≡ length block
unfolding write_length
length-write_length bits zero index block = refl
length-write_length bits (suc n) index block =
    let v = bits / 2 ^ (56 - 8 * index) % 256 in
    length-write_length bits n (index + 1) (set block (56 + index) v)
    ∙ length-set block (56 + index) v

power : (k : ℕ) → k < 8 → 2 ^ (8 * k) ≡ 256 ^ k
unfolding holds_below
power k h =
    (==_iff (2 ^ (8 * k)) (256 ^ k)).0 (holds_below-lem 8 (λ k. 2 ^ (8 * k) == 256 ^ k) refl k h)

take-write_length :
    (bits n index : ℕ) (block : List ℕ)
    → index + n ≡ 8
    → length block ≡ 64
    → take 64 (write_length bits n index block) ≡ take (56 + index) block ++ big_endian n bits
unfolding write_length big_endian
take-write_length bits zero index block h wide =
    let e : 64 ≡ 56 + index = omega arith in
    ap (λ i. take i block) e ∙ sym (append-nil (take (56 + index) block))
take-write_length bits (suc n) index block h wide =
    let shift : 56 - 8 * index ≡ 8 * n = omega arith in
    let same : 2 ^ (56 - 8 * index) ≡ 256 ^ n = ap (λ e. 2 ^ e) shift ∙ power n (omega arith) in
    let v = bits / 2 ^ (56 - 8 * index) % 256 in
    let next = set block (56 + index) v in
    let placed : take (56 + (index + 1)) next ≡ take (56 + index) block ++ (v ∷ []) =
      subst (λ i. take i next ≡ take (56 + index) block ++ (v ∷ [])) (omega arith)
        (take-set block (56 + index) v (omega arith)) in
    take-write_length bits n (index + 1) next (omega arith) (length-set block (56 + index) v ∙ wide)
    ∙ ap (λ t. t ++ big_endian n bits) placed
    ∙ append_assoc (take (56 + index) block) (v ∷ []) (big_endian n bits)
    ∙ ap (λ d. take (56 + index) block ++ (bits / d % 256 ∷ big_endian n bits)) same

-- The last block: what was there, zeros, and the number of bits.
pub last_block-lem :
    (s : Hash) (bits : ℕ)
    → length s.block ≡ 64
    → s.block_size ≤ 56
    → (last_block s bits
        ≡ take s.block_size s.block ++ (replicate (56 - s.block_size) 0 ++ big_endian 8 bits))
      × (length (last_block s bits) ≡ 64)
unfolding last_block
last_block-lem s bits wide fits =
    let i = s.block_size in
    let filled = zero_fill (56 - i) i s.block in
    let filled_wide : length filled ≡ 64 = length-zero_fill (56 - i) i s.block ∙ wide in
    let whole : length (write_length bits 8 0 filled) ≡ 64 =
      length-write_length bits 8 0 filled ∙ filled_wide in
    let up_to : i + (56 - i) ≡ 56 = omega arith in
    let front : take 56 filled ≡ take i s.block ++ replicate (56 - i) 0 =
      subst (λ n. take n filled ≡ take i s.block ++ replicate (56 - i) 0) up_to
        (take-zero_fill (56 - i) i s.block (omega arith)) in
    (
      sym (take-all 64 (write_length bits 8 0 filled) (omega arith))
          ∙ take-write_length bits 8 0 filled refl filled_wide
          ∙ ap (λ t. t ++ big_endian 8 bits) front
          ∙ append_assoc (take i s.block) (replicate (56 - i) 0) (big_endian 8 bits),
      whole,
    )
