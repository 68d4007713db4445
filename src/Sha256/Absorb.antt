-- ===== src/Sha256/Absorb.antt =====
-- What an object of class Sha256 has taken in.
use miinfer.Prelude.{
  ℕ, zero, suc, ◌+◌, ◌≤◌, ◌<◌, ◌≡◌, refl, ap, sym, ◌∙◌, inl, inr, List, [], ◌∷◌, ◌++◌, length, take,
  drop, join, All-append, take-append, append_assoc, append-nil, length-append, length-take,
  length-drop, take-append-drop, take-all, arith, Bool-cases, true, false, ◌==◌, subst,
}
use miinfer.Sha256.Compress.{initial_hash, transform}
use miinfer.Sha256.{Hash, store, flush, absorb, taken, update_loop}
use miinfer.Sha256.Padding.{compress, compress-append, join-append, AreBlocks}

-- Whole blocks went into the state, and the front of the block has the bytes behind them.
pub record Absorbed (message : List ℕ) (s : Hash) : Type 0 where
  pub blocks : List (List ℕ)
  pub sized : AreBlocks blocks
  pub compressed : s.state ≡ compress initial_hash blocks
  pub parts : message ≡ join blocks ++ take s.block_size s.block
  pub room : length s.block ≡ 64
  pub open_block : s.block_size < 64

length-store :
    (block : List ℕ) (offset : ℕ) (bytes : List ℕ)
    → offset + length bytes ≤ length block
    → length (store block offset bytes) ≡ length block
unfolding store
length-store block offset bytes h = omega (
  arith,
  length-append (take offset block) (bytes ++ drop (offset + length bytes) block),
  length-append bytes (drop (offset + length bytes) block),
  length-take offset block,
  length-drop (offset + length bytes) block,
)

take-store :
    (block : List ℕ) (offset : ℕ) (bytes : List ℕ)
    → offset ≤ length block
    → take (offset + length bytes) (store block offset bytes) ≡ take offset block ++ bytes
unfolding store
take-store block offset bytes h =
    let front = take offset block in
    let behind = drop (offset + length bytes) block in
    ap (take (offset + length bytes)) (sym (append_assoc front bytes behind))
    ∙ take-append (offset + length bytes) (front ++ bytes) behind
        (omega (arith, length-append front bytes, length-take offset block))

flush_full :
    (s : Hash)
    → s.block_size == 64 ≡ true
    → flush s ≡ record s { state = transform s.state s.block; block_size = 0 }
unfolding flush
flush_full s h = rw (h) refl

flush_open : (s : Hash) → s.block_size == 64 ≡ false → flush s ≡ s
unfolding flush
flush_open s h = rw (h) refl

-- A block that may be full is taken in, if it is.
flush-Absorbed :
    (message : List ℕ) (s : Hash) (blocks : List (List ℕ))
    → AreBlocks blocks
    → s.state ≡ compress initial_hash blocks
    → message ≡ join blocks ++ take s.block_size s.block
    → length s.block ≡ 64
    → s.block_size ≤ 64
    → Absorbed message (flush s)
unfolding compress
flush-Absorbed message s blocks sized compressed parts room fits =
    elim (Bool-cases (s.block_size == 64)) [
      | inr more ↦ subst (Absorbed message) (sym (flush_open s more)) (record {
        blocks = blocks;
        sized = sized;
        compressed = compressed;
        parts = parts;
        room = room;
        open_block = ground arith;
      })
      | inl filled ↦
          let full : take s.block_size s.block ≡ s.block =
            take-all s.block_size s.block (ground arith) in
          let all_blocks = blocks ++ (s.block ∷ []) in
          let joined : join all_blocks ≡ join blocks ++ s.block =
            join-append blocks (s.block ∷ []) ∙ ap (λ t. join blocks ++ t) (append-nil s.block) in
          subst (Absorbed message) (sym (flush_full s filled)) (record {
            blocks = all_blocks;
            sized = All-append (λ b. length b ≡ 64) blocks (s.block ∷ []) sized (room, tt);
            compressed =
                ap (λ t. transform t s.block) compressed
                ∙ sym (compress-append initial_hash blocks (s.block ∷ []));
            parts =
                parts
                ∙ ap (λ t. join blocks ++ t) full
                ∙ sym joined
                ∙ sym (append-nil (join all_blocks));
            room = room;
            open_block = omega arith;
          })
    ]

-- A round takes in the bytes that it copies.
absorb-Absorbed :
    (message : List ℕ) (s : Hash) (bytes : List ℕ)
    → Absorbed message s
    → Absorbed (message ++ take (taken s bytes) bytes) (absorb s (taken s bytes) bytes)
unfolding absorb
absorb-Absorbed message s bytes a =
    let count = taken s bytes in
    let piece = take count bytes in
    let piece_length : length piece ≡ count = omega (arith, length-take count bytes) in
    let next = store s.block s.block_size piece in
    let front = take s.block_size s.block in
    let within : s.block_size + length piece ≤ length s.block =
      omega (arith, a.room, a.open_block) in
    let shown : take (s.block_size + count) next ≡ front ++ piece =
      subst (λ n. take (s.block_size + n) next ≡ front ++ piece) piece_length
        (take-store s.block s.block_size piece (omega arith)) in
    flush-Absorbed (message ++ piece) (record s { block = next; block_size = s.block_size + count })
      a.blocks a.sized a.compressed
      (ap (λ t. t ++ piece) a.parts
        ∙ append_assoc (join a.blocks) front piece
        ∙ ap (λ t. join a.blocks ++ t) (sym shown))
      (length-store s.block s.block_size piece within ∙ a.room) (omega (arith, a.room))

absorb_total :
    (s : Hash) (count : ℕ) (bytes : List ℕ) → (absorb s count bytes).total_bytes ≡ s.total_bytes
unfolding absorb flush
absorb_total s count bytes = elim (Bool-cases (s.block_size + count == 64)) [
  | inl filled ↦ rw filled refl
  | inr more ↦ rw more refl
]

pub update_loop-Absorbed :
    (fuel : ℕ) (message : List ℕ) (s : Hash) (bytes : List ℕ)
    → length bytes ≤ fuel
    → Absorbed message s
    → Absorbed (message ++ bytes) (update_loop fuel s bytes)
      × ((update_loop fuel s bytes).total_bytes ≡ s.total_bytes)
unfolding update_loop
update_loop-Absorbed fuel message s [] enough a =
    (subst (λ t. Absorbed t s) (sym (append-nil message)) a, refl)
update_loop-Absorbed zero message s (b ∷ bytes) enough a = absurd (omega arith)
update_loop-Absorbed (suc fuel) message s (b ∷ bytes) enough a =
    let count = taken s (b ∷ bytes) in
    let some_taken : 0 < count = omega (arith, a.open_block) in
    let next = absorb s count (b ∷ bytes) in
    let rest = drop count (b ∷ bytes) in
    let piece = take count (b ∷ bytes) in
    let (later, kept) =
      update_loop-Absorbed fuel (message ++ piece) next rest
        (omega (arith, length-drop count (b ∷ bytes))) (absorb-Absorbed message s (b ∷ bytes) a) in
    (
      subst (λ t. Absorbed t (update_loop fuel next rest))
          (append_assoc message piece rest
            ∙ ap (λ t. message ++ t) (take-append-drop count (b ∷ bytes)))
          later,
      kept ∙ absorb_total s count (b ∷ bytes),
    )
