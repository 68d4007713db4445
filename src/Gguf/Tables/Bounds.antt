-- ===== src/Gguf/Tables/Bounds.antt =====
-- Reading the tables never leaves the file.
use miinfer.Prelude.{ℕ, zero, suc, List}
use miinfer.Gguf.Types.{Tensor}
use miinfer.Gguf.Reader.Bounds.{Advances, advances}
use miinfer.Gguf.Values.{
  read_bool, read_scalar_high, read_scalar, read_scalars, read_array, read_value,
}
use miinfer.Gguf.Parse.{Entries, read_metadata, read_dimensions, read_tensor, read_tensors}
use miinfer.Gguf.Tables.{read_header, read_tables}

read_bool-Advances : Advances read_bool
read_bool-Advances = search advances depth 8

read_scalar_high-Advances : (type : ℕ) → Advances (read_scalar_high type)
unfolding read_scalar_high
read_scalar_high-Advances type = search advances depth 14

read_scalar-Advances : (type : ℕ) → Advances (read_scalar type)
unfolding read_scalar
read_scalar-Advances type =
    search (advances, read_bool-Advances, read_scalar_high-Advances) depth 14

read_scalars-Advances : (count type : ℕ) → Advances (read_scalars count type)
unfolding read_scalars
read_scalars-Advances zero type = search advances
read_scalars-Advances (suc count) type =
    search (advances, read_scalar-Advances type, read_scalars-Advances count type) depth 8

read_array-Advances : Advances read_array
unfolding read_array
read_array-Advances = search (advances, read_scalars-Advances) depth 14

read_value-Advances : (type : ℕ) → Advances (read_value type)
unfolding read_value
read_value-Advances type = search (advances, read_scalar-Advances type, read_array-Advances) depth 8

read_metadata-Advances : (count : ℕ) (entries : Entries) → Advances (read_metadata count entries)
unfolding read_metadata
read_metadata-Advances zero entries = search advances
read_metadata-Advances (suc count) entries =
    search (advances, read_value-Advances, read_metadata-Advances count) depth 14

read_dimensions-Advances : (rank : ℕ) → Advances (read_dimensions rank)
unfolding read_dimensions
read_dimensions-Advances zero = search advances
read_dimensions-Advances (suc rank) = search (advances, read_dimensions-Advances rank) depth 8

read_tensor-Advances : (before : List Tensor) → Advances (read_tensor before)
unfolding read_tensor
read_tensor-Advances before = search (advances, read_dimensions-Advances) depth 24

read_tensors-Advances : (count : ℕ) (tensors : List Tensor) → Advances (read_tensors count tensors)
unfolding read_tensors
read_tensors-Advances zero tensors = search advances
read_tensors-Advances (suc count) tensors =
    search (advances, read_tensor-Advances, read_tensors-Advances count) depth 8

read_header-Advances : Advances read_header
unfolding read_header
read_header-Advances = search advances depth 20

pub read_tables-Advances : Advances read_tables
unfolding read_tables
read_tables-Advances =
    search (advances, read_header-Advances, read_metadata-Advances, read_tensors-Advances) depth 14
