-- ===== src/Tests/Gguf.antt =====
-- A small file with a metadata entry and a tensor, src/gguf.cpp.
use miinfer.Prelude.{
  ℕ, ◌≡◌, ◌<◌, ◌%◌, ◌*◌, ◌+◌, ◌≤◌, refl, List, [], ◌∷◌, ok, some, arith, All, ◌↔◌,
}
use miinfer.Prelude.Words.{word_mod, from_bytes}
use miinfer.Gguf.Types.{File, TensorType}
use miinfer.Gguf.Open.{parse, finish, place_tensor, place_tensors, alignment_of}
use miinfer.Gguf.Tables.{read_tables, read_header}
use miinfer.Gguf.Reader.{read, block, bytes_at, require, string}
use miinfer.Gguf.Parse.{
  read_metadata, read_tensors, read_tensor, read_dimensions, has_tensor, find_entry, emplace,
  insert_new,
}
use miinfer.Gguf.Open.Soundness.{IsSound, parse-IsSound}
use miinfer.Gguf.Sizes.{elements, elements_from, layout, tensor_byte_size, tensor_type}
use miinfer.Gguf.Sizes.Laws.{product, elements_iff, tensor_byte_size-ok}
use miinfer.Gguf.Checked.{align_up, checked_size, checked_add, checked_mul}
use miinfer.Gguf.Checked.Laws.{align_up-ok}

abbrev sample : List ℕ
sample =
    71 ∷ 71 ∷ 85 ∷ 70 ∷ 3 ∷ 0 ∷ 0 ∷ 0 ∷ 1 ∷ 0 ∷ 0 ∷ 0 ∷ 0 ∷ 0 ∷ 0 ∷ 0 ∷ 0 ∷ 0 ∷ 0 ∷ 0 ∷ 0 ∷ 0 ∷ 0
    ∷ 0 ∷ 1 ∷ 0 ∷ 0 ∷ 0 ∷ 0 ∷ 0 ∷ 0 ∷ 0 ∷ 97 ∷ 1 ∷ 0 ∷ 0 ∷ 0 ∷ 2 ∷ 0 ∷ 0 ∷ 0 ∷ 0 ∷ 0 ∷ 0 ∷ 0 ∷ 0 ∷ 0
    ∷ 0 ∷ 0 ∷ 0 ∷ 0 ∷ 0 ∷ 0 ∷ 0 ∷ 0 ∷ 0 ∷ 0 ∷ 0 ∷ 0 ∷ 0 ∷ 0 ∷ 0 ∷ 0 ∷ 0 ∷ 1 ∷ 2 ∷ 3 ∷ 4 ∷ 5 ∷ 6 ∷ 7
    ∷ 8 ∷ []

abbrev sample_file : File
sample_file = record {
  mapping = sample;
  version = 3;
  data_offset = 64;
  metadata = [];
  tensors =
      record {
        name = 97 ∷ [];
        dimensions = 2 ∷ [];
        type = TensorType.f32;
        offset = 0;
        byte_size = 8;
        address = some 64;
      }
      ∷ [];
}

parse_run : parse sample ≡ ok sample_file
unfolding parse finish place_tensor place_tensors alignment_of read_tables read_header read block
    bytes_at require string from_bytes read_metadata read_tensors read_tensor read_dimensions
    has_tensor find_entry emplace insert_new checked_size checked_add checked_mul align_up
    tensor_type tensor_byte_size elements elements_from layout
parse_run = refl

parse-IsSound_example : IsSound sample sample_file
parse-IsSound_example = parse-IsSound sample sample_file (omega arith) parse_run

elements_iff_example :
    (elements (4 ∷ 8 ∷ []) ≡ ok 32)
    ↔ ((32 ≡ product (4 ∷ 8 ∷ [])) × (32 < word_mod) × All (λ d. 0 < d) (4 ∷ 8 ∷ []))
elements_iff_example = elements_iff (4 ∷ 8 ∷ []) 32

tensor_byte_size_run : tensor_byte_size TensorType.q4_0 (64 ∷ 2 ∷ []) ≡ ok 72
unfolding tensor_byte_size elements elements_from layout checked_size checked_mul
tensor_byte_size_run = refl

tensor_byte_size-ok_example :
    (72 * (layout TensorType.q4_0).block_elements
      ≡ product (64 ∷ 2 ∷ []) * (layout TensorType.q4_0).block_bytes)
    × (72 < word_mod)
    × All (λ d. 0 < d) (64 ∷ 2 ∷ [])
tensor_byte_size-ok_example =
    tensor_byte_size-ok TensorType.q4_0 (64 ∷ 2 ∷ []) 72 tensor_byte_size_run

align_up_run : align_up 57 32 ≡ ok 64
unfolding align_up
align_up_run = refl

align_up-ok_example : (0 < 32) × (64 % 32 ≡ 0) × (57 ≤ 64) × (64 < 57 + 32) × (64 < word_mod)
align_up-ok_example = align_up-ok 57 32 64 (omega arith) align_up_run
