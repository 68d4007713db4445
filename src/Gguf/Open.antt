-- ===== src/Gguf/Open.antt =====
-- GgufFile::open of src/gguf.cpp, on the tables that Gguf/Tables.antt reads.
pub mod Placement
pub mod Soundness
use miinfer.Prelude.{
  ℕ, ◌%◌, not, Option, some, none, List, [], ◌∷◌, ok, err, ◌>>=◌, ◌>>◌, guard, ltb, ◌==◌,
  if◌then◌else◌, length,
}
use miinfer.Prelude.Int.{pos, negsuc}
use miinfer.Gguf.Types.{
  cannot_open, cannot_stat, cannot_map, negative_alignment, alignment_not_integer,
  data_offset_outside, offset_not_aligned, range_outside, bad_variant_access, unsigned, int, Value,
  scalar, array, Tensor, File, Outcome,
}
use miinfer.Gguf.Checked.{checked_size, checked_add, align_up}
use miinfer.Gguf.Parse.{find_entry}
use miinfer.Gguf.Tables.{Tables, read_tables}

-- "general.alignment"
abbrev pub alignment_key : List ℕ
alignment_key =
    b'g' ∷ b'e' ∷ b'n' ∷ b'e' ∷ b'r' ∷ b'a' ∷ b'l' ∷ b'.' ∷ b'a' ∷ b'l' ∷ b'i' ∷ b'g' ∷ b'n' ∷ b'm'
    ∷ b'e' ∷ b'n' ∷ b't' ∷ []

unfoldable pub alignment_of : Option Value → Outcome ℕ
alignment_of none = ok 32
alignment_of (some (scalar (unsigned value))) = ok value
alignment_of (some (scalar (int (pos value)))) = ok value
alignment_of (some (scalar (int (negsuc value)))) = err negative_alignment
alignment_of (some (scalar other)) = err alignment_not_integer
alignment_of (some (array values)) = err bad_variant_access

-- One round of the loop that places the tensors.
unfoldable pub place_tensor : ℕ → ℕ → ℕ → Tensor → Outcome Tensor
place_tensor data_offset alignment file_size tensor = do
  relative ← checked_size tensor.offset "tensor offset"
  guard (relative % alignment == 0) (offset_not_aligned tensor.name)
  absolute ← checked_add data_offset relative "tensor range"
  last ← checked_add absolute tensor.byte_size "tensor range"
  if ltb file_size last
      then err (range_outside tensor.name)
      else ok (record tensor { address = some absolute })

unfoldable pub place_tensors : ℕ → ℕ → ℕ → List Tensor → Outcome (List Tensor)
place_tensors data_offset alignment file_size [] = ok []
place_tensors data_offset alignment file_size (tensor ∷ rest) = do
  placed ← place_tensor data_offset alignment file_size tensor
  others ← place_tensors data_offset alignment file_size rest
  ok (placed ∷ others)

-- The rest of the try block, from the position where the tables end.
unfoldable pub finish : List ℕ → Tables → ℕ → Outcome File
finish mapping tables position = do
  value ← alignment_of (find_entry alignment_key tables.metadata)
  alignment ← checked_size value "alignment"
  data_offset ← align_up position alignment
  guard (not (ltb (length mapping) data_offset)) data_offset_outside
  tensors ← place_tensors data_offset alignment (length mapping) tables.tensors
  ok (record {
    mapping = mapping;
    version = tables.header.version;
    data_offset = data_offset;
    metadata = tables.metadata;
    tensors = tensors;
  })

-- The try block, on the mapped bytes.
unfoldable pub parse : List ℕ → Outcome File
parse mapping = do
  (tables, reader) ← read_tables (record { bytes = mapping; position = 0 })
  finish mapping tables reader.position

-- What the system calls answer: whether open succeeds, the size by fstat (none where it fails; a
-- size that is not positive is 0), and the bytes that mmap shows.
pub record SystemFile : Type 0 where
  pub opened : Option (Unit {0})
  pub size : Option ℕ
  pub mapped : Option (List ℕ)

unfoldable pub open_file : SystemFile → Outcome File
open_file system = elim system.opened [
  | none ↦ err cannot_open
  | some _ ↦ elim system.size [
    | none ↦ err cannot_stat
    | some size ↦
        if size == 0
        then err cannot_stat
        else (elim system.mapped [ none ↦ err cannot_map | some mapping ↦ parse mapping ])
  ]
]
