-- ===== src/Sha256/Finish.antt =====
-- What update and finish make of an object of class Sha256.
use miinfer.Prelude.{
  ℕ, zero, suc, ◌+◌, ◌-◌, ◌*◌, ◌/◌, ◌%◌, ◌≡◌, refl, ap, ap₂, sym, subst, ◌∙◌, inl, inr, Bool-cases,
  ltb, true, false, List, [], ◌∷◌, ◌++◌, length, take, set, replicate, length-set, length-append,
  length-take, take-all, append_assoc, append-nil, join, All-append, arith,
}
use miinfer.Sha256.Compress.{initial_hash, transform}
use miinfer.Sha256.{
  Hash, new_hash, update, uint64_mod, zero_fill, close_block, last_block, finish_state,
}
use miinfer.Sha256.Padding.{
  cut_blocks, compress, compress-append, big_endian, padding, digest_state, AreBlocks, join-append,
  length-join, cut_blocks-join,
}
use miinfer.Sha256.Absorb.{Absorbed, update_loop-Absorbed}
use miinfer.Sha256.Fill.{take-set, length-zero_fill, take-zero_fill, last_block-lem}

-- An object that has taken in a message.
pub record Represents (message : List ℕ) (s : Hash) : Type 0 where
  pub absorbed : Absorbed message s
  pub total : s.total_bytes ≡ length message % uint64_mod

pub new_hash-Represents : Represents [] new_hash
unfolding new_hash compress
new_hash-Represents = record {
  absorbed = record {
    blocks = [];
    sized = tt;
    compressed = refl;
    parts = refl;
    room = refl;
    open_block = omega arith;
  };
  total = refl;
}

-- An update takes in the bytes behind the message.
pub update-Represents :
    (message : List ℕ) (s : Hash) (bytes : List ℕ)
    → Represents message s
    → Represents (message ++ bytes) (update s bytes)
unfolding update
update-Represents message s bytes r =
    let a = r.absorbed in
    let counted = record s { total_bytes = (s.total_bytes + length bytes) % uint64_mod } in
    let (later, kept) =
      update_loop-Absorbed (length bytes) message counted bytes (omega arith) (record {
        blocks = a.blocks;
        sized = a.sized;
        compressed = a.compressed;
        parts = a.parts;
        room = a.room;
        open_block = a.open_block;
      }) in
    record { absorbed = later; total = omega (arith, kept, r.total, length-append message bytes) }

replicate-append : (m n : ℕ) → replicate {A = ℕ} m 0 ++ replicate n 0 ≡ replicate (m + n) 0
replicate-append zero n = ap (λ k. replicate k 0) (omega arith)
replicate-append (suc m) n =
    let e : suc m + n ≡ suc (m + n) = omega arith in rw e (ap (◌∷◌ 0) (replicate-append m n))

-- A block of the message, the mark, and what is behind it.
marked-parts :
    (joined front behind : List ℕ)
    → joined ++ ((front ++ (128 ∷ [])) ++ behind) ≡ (joined ++ front) ++ (128 ∷ behind)
marked-parts joined front behind =
    ap (λ t. joined ++ t) (append_assoc front (128 ∷ []) behind)
    ∙ sym (append_assoc joined front (128 ∷ behind))

-- What finish makes of an object: the blocks that went into the state in the end.
abbrev Finished : List ℕ → Hash → ℕ → Type 0
Finished message s bits =
    (blocks : List (List ℕ)) × AreBlocks blocks
    × (finish_state s ≡ compress initial_hash blocks)
    × (join blocks
        ≡ message ++ (128 ∷ (replicate ((119 - s.block_size) % 64) 0 ++ big_endian 8 bits)))

-- Where the number of bits has room in the block.
finish-low :
    (message : List ℕ) (s : Hash)
    → Absorbed message s
    → ltb 56 (s.block_size + 1) ≡ false
    → Finished message s (s.total_bytes * 8 % uint64_mod)
unfolding finish_state close_block compress
finish-low message s a low =
    let bits = s.total_bytes * 8 % uint64_mod in
    let marked = set s.block s.block_size 128 in
    let wide : length marked ≡ 64 = length-set s.block s.block_size 128 ∙ a.room in
    let front = take s.block_size s.block in
    let closed = record s { block = marked; block_size = s.block_size + 1 } in
    let behind = replicate (56 - (s.block_size + 1)) 0 ++ big_endian 8 bits in
    let (shown, whole) = last_block-lem closed bits wide (ground arith) in
    let last = last_block closed bits in
    let parts : last ≡ (front ++ (128 ∷ [])) ++ behind =
      shown
      ∙ ap (λ t. t ++ behind)
          (take-set s.block s.block_size 128 (omega (arith, a.room, a.open_block))) in
    let zeros : 56 - (s.block_size + 1) ≡ (119 - s.block_size) % 64 = ground arith in
    (
      a.blocks ++ (last ∷ []),
      All-append (λ b. length b ≡ 64) a.blocks (last ∷ []) a.sized (whole, tt),
      rw low (
          ap (λ t. transform t last) a.compressed
          ∙ sym (compress-append initial_hash a.blocks (last ∷ []))),
      join-append a.blocks (last ∷ [])
          ∙ ap (λ t. join a.blocks ++ t) (append-nil last ∙ parts)
          ∙ marked-parts (join a.blocks) front behind
          ∙ ap₂ (λ t n. t ++ (128 ∷ (replicate n 0 ++ big_endian 8 bits))) (sym a.parts) zeros,
    )

-- Where it has none: the mark and zeros fill the block, and one more takes the number of bits.
finish-high :
    (message : List ℕ) (s : Hash)
    → Absorbed message s
    → ltb 56 (s.block_size + 1) ≡ true
    → Finished message s (s.total_bytes * 8 % uint64_mod)
unfolding finish_state close_block compress
finish-high message s a high =
    let bits = s.total_bytes * 8 % uint64_mod in
    let size = s.block_size + 1 in
    let marked = set s.block s.block_size 128 in
    let wide : length marked ≡ 64 = length-set s.block s.block_size 128 ∙ a.room in
    let front = take s.block_size s.block in
    let first = zero_fill (64 - size) size marked in
    let first_wide : length first ≡ 64 = length-zero_fill (64 - size) size marked ∙ wide in
    let up_to : size + (64 - size) ≡ 64 = omega (arith, a.open_block) in
    let filled : take 64 first ≡ take size marked ++ replicate (64 - size) 0 =
      subst (λ n. take n first ≡ take size marked ++ replicate (64 - size) 0) up_to
        (take-zero_fill (64 - size) size marked (omega arith)) in
    let first_parts : first ≡ (front ++ (128 ∷ [])) ++ replicate (64 - size) 0 =
      sym (take-all 64 first (omega arith))
      ∙ filled
      ∙ ap (λ t. t ++ replicate (64 - size) 0)
          (take-set s.block s.block_size 128 (omega (arith, a.room, a.open_block))) in
    let closed = record s { state = transform s.state first; block = first; block_size = 0 } in
    let (shown, whole) = last_block-lem closed bits first_wide (omega arith) in
    let last = last_block closed bits in
    let tail = big_endian 8 bits in
    let behind = replicate (64 - size) 0 ++ (replicate 56 0 ++ tail) in
    let both : first ++ last ≡ (front ++ (128 ∷ [])) ++ behind =
      ap₂ (λ t u. t ++ u) first_parts shown
      ∙ append_assoc (front ++ (128 ∷ [])) (replicate (64 - size) 0) (replicate 56 0 ++ tail) in
    let sum_of : 64 - size + 56 ≡ (119 - s.block_size) % 64 = ground (arith, a.open_block) in
    let zeros : behind ≡ replicate ((119 - s.block_size) % 64) 0 ++ tail =
      sym (append_assoc (replicate (64 - size) 0) (replicate 56 0) tail)
      ∙ ap (λ t. t ++ tail) (replicate-append (64 - size) 56 ∙ ap (λ n. replicate n 0) sum_of) in
    (
      a.blocks ++ (first ∷ last ∷ []),
      All-append (λ b. length b ≡ 64) a.blocks (first ∷ last ∷ []) a.sized
          (first_wide, (whole, tt)),
      rw high (
          ap (λ t. transform (transform t first) last) a.compressed
          ∙ sym (compress-append initial_hash a.blocks (first ∷ last ∷ []))),
      join-append a.blocks (first ∷ last ∷ [])
          ∙ ap (λ t. join a.blocks ++ (first ++ t)) (append-nil last)
          ∙ ap (λ t. join a.blocks ++ t) both
          ∙ marked-parts (join a.blocks) front behind
          ∙ ap₂ (λ t u. t ++ (128 ∷ u)) (sym a.parts) zeros,
    )

-- The blocks that finish makes of a message are those of its padding.
pub finish-Represents :
    (message : List ℕ) (s : Hash) → Represents message s → finish_state s ≡ digest_state message
unfolding digest_state padding
finish-Represents message s r =
    let a = r.absorbed in
    let bits = s.total_bytes * 8 % uint64_mod in
    let front = take s.block_size s.block in
    let (blocks, sized, shown, joined) =
      elim (Bool-cases (ltb 56 (s.block_size + 1))) as (λ _. Finished message s bits) [
        | inl high ↦ finish-high message s a high
        | inr low ↦ finish-low message s a low
      ] in
    let open_size : s.block_size ≡ length message % 64 = omega (
      arith,
      ap length a.parts,
      length-append (join a.blocks) front,
      length-join a.blocks a.sized,
      length-take s.block_size s.block,
      a.room,
      a.open_block,
    ) in
    let counted : bits ≡ length message * 8 % uint64_mod = omega (arith, r.total) in
    let padded = message ++ padding (length message) in
    let whole : join blocks ≡ padded =
      joined
      ∙ ap₂ (λ k b. message ++ (128 ∷ (replicate ((119 - k) % 64) 0 ++ big_endian 8 b))) open_size
          counted in
    let count : length blocks ≡ length padded / 64 =
      omega (arith, ap length whole, length-join blocks sized) in
    shown
    ∙ ap (compress initial_hash) (sym (cut_blocks-join blocks sized))
    ∙ ap₂ (λ n p. compress initial_hash (cut_blocks n p)) count whole
