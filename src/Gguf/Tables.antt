-- ===== src/Gguf/Tables.antt =====
-- What GgufFile::open of src/gguf.cpp reads before the data: the header, the metadata, the tensors.
pub mod Bounds
use miinfer.Prelude.{ℕ, ◌||◌, not, List, [], ltb, ◌==◌, if◌then◌else◌}
use miinfer.Gguf.Types.{invalid_magic, unsupported_version, header_count_too_large, Tensor}
use miinfer.Gguf.Checked.{checked_size}
use miinfer.Gguf.Reader.{Read, ◌>>=◌, ◌>>◌, pure, lift, fail, reject, read}
use miinfer.Gguf.Parse.{Entries, read_metadata, read_tensors}

pub record Header : Type 0 where
  pub version : ℕ
  pub tensor_count : ℕ
  pub metadata_count : ℕ

-- kGgufMagic
abbrev pub gguf_magic : ℕ
gguf_magic = 0x46554747

-- The magic number, the version and the two counts.
unfoldable pub read_header : Read Header
read_header = do
  magic ← read 4 "magic"
  reject (not (magic == gguf_magic)) invalid_magic
  version ← read 4 "version"
  reject (not (version == 3)) unsupported_version
  tensor_count ← read 8 "tensor count"
  metadata_count ← read 8 "metadata count"
  if ltb 1048576 tensor_count || ltb 1048576 metadata_count
      then fail header_count_too_large
      else pure (record {
        version = version;
        tensor_count = tensor_count;
        metadata_count = metadata_count;
      })

pub record Tables : Type 0 where
  pub header : Header
  pub metadata : Entries
  pub tensors : List Tensor

unfoldable pub read_tables : Read Tables
read_tables = do
  header ← read_header
  metadata ← read_metadata header.metadata_count []
  count ← lift (checked_size header.tensor_count "tensor count")
  tensors ← read_tensors count []
  pure (record { header = header; metadata = metadata; tensors = tensors })
