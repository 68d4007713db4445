-- ===== src/Sha256.antt =====
-- class Sha256, src/sha256.cpp: the hash of a file or of a byte string.
pub mod Compress
pub mod Padding
pub mod Absorb
pub mod Fill
pub mod Finish
pub mod Digest
pub mod Standard
pub mod Agrees
use miinfer.Prelude.{
  ℕ, zero, suc, ◌+◌, ◌-◌, ◌*◌, ◌/◌, ◌%◌, ◌^◌, min, Bool, Option, none, some, List, [], ◌∷◌, ◌++◌,
  Result, ok, err, ltb, ◌==◌, if◌then◌else◌, length, take, drop, set, replicate,
}
use miinfer.Sha256.Compress.{initial_hash, transform}

pub record Hash : Type 0 where
  pub state : List ℕ
  pub block : List ℕ
  pub block_size : ℕ
  pub total_bytes : ℕ

unfoldable pub new_hash : Hash
new_hash = record { state = initial_hash; block = replicate 64 0; block_size = 0; total_bytes = 0 }

-- std::memcpy to an offset of the block.
unfoldable pub store : List ℕ → ℕ → List ℕ → List ℕ
store block offset bytes = take offset block ++ (bytes ++ drop (offset + length bytes) block)

-- The end of a round of update: a full block goes into the state.
unfoldable pub flush : Hash → Hash
unfolding transform
flush s =
    if s.block_size == 64 then record s { state = transform s.state s.block; block_size = 0 } else s

-- One round of the loop of update, which takes `count` bytes.
unfoldable pub absorb : Hash → ℕ → List ℕ → Hash
unfolding store flush
absorb s count bytes = flush (record s {
  block = store s.block s.block_size (take count bytes);
  block_size = s.block_size + count;
})

abbrev pub taken : Hash → List ℕ → ℕ
taken s bytes = min (length bytes) (64 - s.block_size)

unfoldable pub update_loop : ℕ → Hash → List ℕ → Hash
unfolding absorb
update_loop fuel s [] = s
update_loop zero s (b ∷ bytes) = s
update_loop (suc fuel) s (b ∷ bytes) =
    update_loop fuel (absorb s (taken s (b ∷ bytes)) (b ∷ bytes))
      (drop (taken s (b ∷ bytes)) (b ∷ bytes))

abbrev pub uint64_mod : ℕ
uint64_mod = 18446744073709551616

unfoldable pub update : Hash → List ℕ → Hash
unfolding update_loop
update s bytes =
    update_loop (length bytes)
      (record s { total_bytes = (s.total_bytes + length bytes) % uint64_mod }) bytes

-- `while (block_size_ < limit) block_[block_size_++] = 0`, n times.
unfoldable pub zero_fill : ℕ → ℕ → List ℕ → List ℕ
zero_fill zero index block = block
zero_fill (suc n) index block = zero_fill n (index + 1) (set block index 0)

-- The loop that writes the number of bits, highest byte first, over n indices.
unfoldable pub write_length : ℕ → ℕ → ℕ → List ℕ → List ℕ
write_length bits zero index block = block
write_length bits (suc n) index block =
    write_length bits n (index + 1) (set block (56 + index) (bits / 2 ^ (56 - 8 * index) % 256))

-- finish up to the last transform: the byte 0x80, and a block more where the length has no room.
unfoldable pub close_block : Hash → Hash
unfolding zero_fill transform
close_block s =
    let marked = set s.block s.block_size 128 in
    let size = s.block_size + 1 in
    if ltb 56 size
    then record s {
      state = transform s.state (zero_fill (64 - size) size marked);
      block = zero_fill (64 - size) size marked;
      block_size = 0;
    }
    else record s { block = marked; block_size = size }

unfoldable pub last_block : Hash → ℕ → List ℕ
unfolding zero_fill write_length
last_block s bits = write_length bits 8 0 (zero_fill (56 - s.block_size) s.block_size s.block)

-- The words that finish prints.
unfoldable pub finish_state : Hash → List ℕ
unfolding close_block last_block transform
finish_state s =
    transform ((close_block s).state) (last_block (close_block s) (s.total_bytes * 8 % uint64_mod))

-- A hexadecimal digit, and a word in eight of them: `std::setw(8)` with the fill '0'.
unfoldable pub hex_digit : ℕ → ℕ
hex_digit d = if ltb d 10 then 48 + d else 87 + d

unfoldable pub hex_word : ℕ → ℕ → List ℕ
unfolding hex_digit
hex_word zero word = []
hex_word (suc n) word = hex_digit (word / 16 ^ n % 16) ∷ hex_word n word

unfoldable pub print : List ℕ → List ℕ
unfolding hex_word
print [] = []
print (word ∷ words) = hex_word 8 word ++ print words

unfoldable pub finish : Hash → List ℕ
unfolding print finish_state
finish s = print (finish_state s)

unfoldable pub sha256_bytes : List ℕ → List ℕ
unfolding new_hash update finish
sha256_bytes bytes = finish (update new_hash bytes)

pub data FileError : Type 0 where
  cannot_open error_while_reading : FileError

-- What the reads of a stream give, one behind the other: reads that fill the buffer, then one that
-- the end of the file cuts short, or one that fails.
pub data Input : Type 0 where
  full : List ℕ → Input → Input
  at_end : List ℕ → Input
  failed : List ℕ → Input

-- `if (count > 0) hash.update(buffer, count)`
unfoldable pub update_some : Hash → List ℕ → Hash
unfolding update
update_some s [] = s
update_some s (b ∷ chunk) = update s (b ∷ chunk)

unfoldable pub read_loop : Hash → Input → Result FileError (List ℕ)
unfolding update_some finish
read_loop s (full chunk input) = read_loop (update_some s chunk) input
read_loop s (at_end chunk) = ok (finish (update_some s chunk))
read_loop s (failed chunk) = err error_while_reading

-- The stream is none where the file cannot be opened.
unfoldable pub sha256_file : Option Input → Result FileError (List ℕ)
unfolding read_loop new_hash
sha256_file none = err cannot_open
sha256_file (some input) = read_loop new_hash input
