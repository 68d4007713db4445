-- ===== src/Tests/Memory.antt =====
-- The arena of 64 tokens, and storages in the memory of miinfer.Device.Concrete.
use miinfer.Prelude.{
  ℕ, ◌+◌, ◌*◌, ◌≡◌, ◌<◌, ◌++◌, refl, List, [], ◌∷◌, ok, some, none, true, arith, length, replicate,
  length-replicate,
}
use miinfer.Device.Concrete.{memory}
use miinfer.Workspace
use miinfer.Workspace.Layout.{IsArena, construct-IsArena}
use miinfer.KvCache.{
  Storage, fp16_q8, download_raw, upload_raw, raw_tokens_bytes, construct, release, total_bytes,
  fp16_bytes, q8_bytes, scale_bytes, is_k_q8, is_v_q8,
}
use miinfer.KvCache.Lifetime.{construct-IsValid, allocated, release-total_bytes}
use miinfer.KvCache.Transfer.{upload_raw-download_raw, download_raw-length, IsValid}
use miinfer.KvCache.Floats.{FloatOps, download_key, download_value}
use miinfer.KvCache.Count.{download-length}
use miinfer.Recurrent
use miinfer.Recurrent.{Recurrent, upload, download, reset, state_bytes, conv_history_bytes}
use miinfer.Recurrent.Transfer

construct-IsArena_example :
    (m : Workspace.Manager) × (Workspace.construct (λ n. 4096) 64 ≡ ok m) × IsArena 64 4096 m
construct-IsArena_example = construct-IsArena (λ n. 4096) 64 (omega arith, omega arith, refl) refl

construct-IsValid_example :
    (s : Storage memory) × (construct memory 2 fp16_q8 ≡ ok s)
    × (s.capacity ≡ 2)
    × (s.quant_mode ≡ fp16_q8)
    × IsValid memory s
construct-IsValid_example = construct-IsValid memory 2 fp16_q8 (omega arith)

-- Halves for the keys, bytes with scales for the values.
abbrev pub storage : ℕ → Storage memory
storage n = record {
  capacity = n;
  quant_mode = fp16_q8;
  keys = record { cache = some (memory.malloc (fp16_bytes n)); cache_q8 = none; scales = none };
  vals = record {
    cache = none;
    cache_q8 = some (memory.malloc (q8_bytes n));
    scales = some (memory.malloc (scale_bytes n));
  };
}

pub storage-IsValid : (n : ℕ) → 0 < n → IsValid memory (storage n)
unfolding is_k_q8 is_v_q8
storage-IsValid n pos = record {
  positive = pos;
  keys_valid = (_, refl, refl);
  vals_valid = (_, _, refl, refl, refl);
}

download_raw-length_example :
    (bytes : List ℕ) × (download_raw memory (storage 2) true 1 ≡ ok bytes)
    × (length bytes ≡ raw_tokens_bytes fp16_q8 1)
download_raw-length_example =
    download_raw-length memory (storage 2) 1 (storage-IsValid 2 (omega arith)) (omega arith)

-- Floats that are numbers.
abbrev numbers : FloatOps
numbers = record {
  Float = ℕ;
  zero_float = 0;
  of_half = λ low high. low + 256 * high;
  of_int8 = λ b. b;
  times = λ a b. a * b;
}

download-length_example :
    ((keys : List ℕ) × (download_key memory numbers (storage 2) [] 1 ≡ ok keys)
      × (download_key memory numbers (storage 2) (replicate 2000 7) 1 ≡ ok keys)
      × (length keys ≡ 1024))
    × ((vals : List ℕ) × (download_value memory numbers (storage 2) [] 1 ≡ ok vals)
        × (download_value memory numbers (storage 2) (replicate 2000 7) 1 ≡ ok vals)
        × (length vals ≡ 1024))
download-length_example =
    download-length memory numbers (storage 2) [] (replicate 2000 7) 1
      (storage-IsValid 2 (omega arith)) (omega arith)

snapshot :
    (bytes : List ℕ) × (download_raw memory (storage 2) true 1 ≡ ok bytes)
    × (length bytes ≡ raw_tokens_bytes fp16_q8 1)
snapshot = download_raw-length memory (storage 2) 1 (storage-IsValid 2 (omega arith)) (omega arith)

upload_raw-download_raw_example :
    (t' : Storage memory) × (upload_raw memory (storage 3) (some (snapshot.0 ++ 9 ∷ [])) 1 ≡ ok t')
    × (download_raw memory t' true 1 ≡ ok snapshot.0)
    × (t'.capacity ≡ 3)
    × (t'.quant_mode ≡ fp16_q8)
    × IsValid memory t'
upload_raw-download_raw_example =
    upload_raw-download_raw memory (storage 2) (storage 3) 1 snapshot.0 (9 ∷ [])
      (storage-IsValid 2 (omega arith)) (storage-IsValid 3 (omega arith)) refl (omega arith)
      snapshot.1

release-total_bytes_example : allocated memory (release memory (storage 2)) ≡ total_bytes 2 fp16_q8
release-total_bytes_example =
    release-total_bytes memory (storage 2) (storage-IsValid 2 (omega arith))

abbrev layer : Recurrent memory
layer = Recurrent.construct memory

upload-download_example :
    (s' : Recurrent memory) × (upload memory layer
        (replicate state_bytes 1)
        (replicate conv_history_bytes 2)
        7
      ≡ ok s')
    × (download memory s' ≡ (replicate state_bytes 1, replicate conv_history_bytes 2))
    × (s'.position ≡ 7)
    × Recurrent.Transfer.IsValid memory s'
upload-download_example =
    Recurrent.Transfer.upload-download memory layer (replicate state_bytes 1)
      (replicate conv_history_bytes 2) 7 (Recurrent.Transfer.construct-IsValid memory)
      (length-replicate state_bytes 1) (length-replicate conv_history_bytes 2)

reset-download_example :
    (download memory (reset memory layer)
      ≡ (replicate state_bytes 0, replicate conv_history_bytes 0))
    × ((reset memory layer).position ≡ 0)
reset-download_example =
    Recurrent.Transfer.reset-download memory layer (Recurrent.Transfer.construct-IsValid memory)
