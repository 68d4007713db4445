-- ===== src/Gguf/Parse.antt =====
-- The tables of GgufFile::open in src/gguf.cpp: the loops over the metadata and the tensors.
pub mod Declared
use miinfer.Prelude.{
  ℕ, zero, suc, Bool, false, ◌||◌, Option, some, none, List, [], ◌∷◌, ◌++◌, ok, err, ltb, ◌==◌,
  if◌then◌else◌, list_eq,
}
use miinfer.Gguf.Types.{rank_out_of_range, duplicate_key, duplicate_tensor, Value, Tensor, Outcome}
use miinfer.Gguf.Reader.{Read, ◌>>=◌, ◌>>◌, pure, lift, fail, reject, read, string}
use miinfer.Gguf.Values.{read_value}
use miinfer.Gguf.Sizes.{tensor_type, tensor_byte_size}

-- metadata_, as the association list of its entries.
abbrev pub Entries : Type 0
Entries = List (List ℕ × Value)

unfoldable pub find_entry : List ℕ → Entries → Option Value
find_entry key [] = none
find_entry key ((k, v) ∷ rest) = if list_eq k key then some v else find_entry key rest

-- metadata_.emplace: nothing is inserted where the key is there.
unfoldable pub emplace : List ℕ → Value → Entries → Option Entries
emplace key value entries = elim (find_entry key entries) [
  | some _ ↦ none
  | none ↦ some (entries ++ (key, value) ∷ [])
]

unfoldable pub insert_new : List ℕ → Value → Entries → Outcome Entries
insert_new key value entries = elim (emplace key value entries) [
  | some more ↦ ok more
  | none ↦ err (duplicate_key key)
]

-- The loop over the metadata entries, from those read before.
unfoldable pub read_metadata : ℕ → Entries → Read Entries
read_metadata zero entries = pure entries
read_metadata (suc count) entries = do
  key ← string "metadata key"
  type ← read 4 "metadata type"
  value ← read_value type
  more ← lift (insert_new key value entries)
  read_metadata count more

-- kMaxDimensions
abbrev pub max_dimensions : ℕ
max_dimensions = 8

unfoldable pub read_dimensions : ℕ → Read (List ℕ)
read_dimensions zero = pure []
read_dimensions (suc rank) = do
  dimension ← read 8 "tensor dimension"
  rest ← read_dimensions rank
  pure (dimension ∷ rest)

unfoldable pub has_tensor : List ℕ → List Tensor → Bool
has_tensor name [] = false
has_tensor name (existing ∷ rest) = list_eq existing.name name || has_tensor name rest

-- One round of the loop over the tensors.
unfoldable pub read_tensor : List Tensor → Read Tensor
read_tensor before = do
  name ← string "tensor name"
  rank ← read 4 "tensor rank"
  reject ((rank == 0) || ltb max_dimensions rank) rank_out_of_range
  dimensions ← read_dimensions rank
  raw ← read 4 "tensor type"
  type ← lift (tensor_type raw)
  offset ← read 8 "tensor offset"
  byte_size ← lift (tensor_byte_size type dimensions)
  reject (has_tensor name before) (duplicate_tensor name)
  pure (record {
    name = name;
    dimensions = dimensions;
    type = type;
    offset = offset;
    byte_size = byte_size;
    address = none;
  })

unfoldable pub read_tensors : ℕ → List Tensor → Read (List Tensor)
read_tensors zero tensors = pure tensors
read_tensors (suc count) tensors = do
  tensor ← read_tensor tensors
  read_tensors count (tensors ++ tensor ∷ [])
