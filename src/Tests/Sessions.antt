-- ===== src/Tests/Sessions.antt =====
-- A model in the memory of miinfer.Device.Concrete that is saved and loaded, and a directory with one
-- session.
use miinfer.Prelude.{
  ℕ, zero, suc, ◌≡◌, ◌++◌, refl, true, some, List, [], ◌∷◌, ok, arith, All, replicate,
  length-replicate, list_eq,
}
use miinfer.Prelude.Words.{from_bytes, to_bytes}
use miinfer.Device.Concrete.{memory}
use miinfer.KvCache.{fp16_q8}
use miinfer.Recurrent.{construct}
use miinfer.Recurrent.Transfer.{IsValid, construct-IsValid}
use miinfer.Context.{new_context, same_prefix}
use miinfer.Context.Restore.{new_context-IsAllocated}
use miinfer.Session.Header.{
  Header, serialize, encode, split, decode, c_string, model_view, quantization_view,
}
use miinfer.Session.Model.{Model}
use miinfer.Session.Save.{Calls, Disk, lookup, token_bytes, contents, save_to_file}
use miinfer.Session.Save.Gather.{Holds}
use miinfer.Session.Save.Atomic.{IsAtomic, save_to_file-IsAtomic}
use miinfer.Session.Load.{
  stream_read, read_header, is_session, words, fill_tokens, read_tokens, with_tokens,
  inspect_header, inspect_stream, inspect_file, name_is, load_from_file,
}
use miinfer.Session.Load.Written.{IsReady}
use miinfer.Session.Load.Stages.{IsLoaded}
use miinfer.Session.Load.RoundTrip.{no_failure, save_to_file-load_from_file}
use miinfer.Session.Find.{
  Entry, session_extension, offer_of, offer_found, offer, search_entries, find_matching_session,
}
use miinfer.Session.Find.Longest.{IsAnswer, find_matching_session-IsAnswer}
use miinfer.Tests.Memory.{storage, storage-IsValid}

abbrev model : Model memory
model = record {
  model_name = 109 ∷ [];
  quantization = 113 ∷ [];
  kv_quant_mode = fp16_q8;
  recurrent_states = replicate 48 (construct memory);
  kv_caches = replicate 16 (storage 2);
  reusable_context = new_context memory (109 ∷ []) (113 ∷ []);
}

layers-IsValid : (n : ℕ) → All (IsValid memory) (replicate n (construct memory))
layers-IsValid zero = tt
layers-IsValid (suc n) = (construct-IsValid memory, layers-IsValid n)

caches_hold : (n : ℕ) → All (Holds memory fp16_q8 2) (replicate n (storage 2))
caches_hold zero = tt
caches_hold (suc n) = (
  record { valid = storage-IsValid 2 (omega arith); in_mode = refl; room = omega arith },
  caches_hold n,
)

model-IsReady : IsReady memory 2 model
model-IsReady = record {
  layer_count = length-replicate 48 (construct memory);
  layers_valid = layers-IsValid 48;
  cache_count = length-replicate 16 (storage 2);
  caches_hold = caches_hold 16;
  context_room = new_context-IsAllocated memory (109 ∷ []) (113 ∷ []);
  name_plain = (omega arith, tt);
  name_short = omega arith;
  quantization_plain = (omega arith, tt);
  quantization_short = omega arith;
}

save_to_file-load_from_file_example :
    (disk' : Disk) × (save_to_file memory no_failure (112 ∷ []) [] model 7 (5 ∷ 6 ∷ [])
      ≡ (disk', ok tt))
    × (t' : Model memory) × (load_from_file memory disk' (112 ∷ []) model
        ≡ ok (true, t', some (5 ∷ 6 ∷ [])))
    × IsLoaded memory model (5 ∷ 6 ∷ []) model t'
save_to_file-load_from_file_example =
    save_to_file-load_from_file memory model model 7 (5 ∷ 6 ∷ []) (112 ∷ []) [] model-IsReady
      model-IsReady refl refl refl (omega arith) (omega arith) (omega arith, (omega arith, tt))
      (omega arith)

-- A disk that is full after 100 bytes.
abbrev full_disk : Calls
full_disk = record { created = true; opened = true; cut_at = some 100; renamed = true }

save_to_file-IsAtomic_example :
    IsAtomic
      (112 ∷ [])
      (contents memory model 7 (5 ∷ []))
      ((112 ∷ [], 1 ∷ []) ∷ [])
      (save_to_file memory full_disk (112 ∷ []) ((112 ∷ [], 1 ∷ []) ∷ []) model 7 (5 ∷ [])).0
      (save_to_file memory full_disk (112 ∷ []) ((112 ∷ [], 1 ∷ []) ∷ []) model 7 (5 ∷ [])).1
save_to_file-IsAtomic_example =
    save_to_file-IsAtomic memory full_disk (112 ∷ []) ((112 ∷ [], 1 ∷ []) ∷ []) model 7 5 []

abbrev header : Header
header = record {
  magic = 77 ∷ 73 ∷ 83 ∷ 83 ∷ [];
  version = 20260928;
  model_id = 109 ∷ replicate 63 0;
  quantization = 113 ∷ replicate 31 0;
  prefix_length = 1;
  token_hash = 7;
  gdn_layers = 48;
  gdn_state_bytes = 0;
  gqa_layers = 16;
  kv_quant_mode = 0;
  kv_bytes = 0;
  tokens_bytes = 4;
  created_timestamp = 9;
}

abbrev disk : Disk
disk = (112 ∷ [], serialize header ++ token_bytes (5 ∷ [])) ∷ []

abbrev entries : List Entry
entries = record { path = 112 ∷ []; is_regular_file = true; extension = session_extension } ∷ []

find_run :
    find_matching_session disk (some entries) (109 ∷ []) (113 ∷ []) (5 ∷ 6 ∷ [])
    ≡ ok (some (112 ∷ [], 1))
unfolding find_matching_session search_entries offer offer_found offer_of inspect_file
    inspect_stream inspect_header read_tokens fill_tokens with_tokens words read_header is_session
    stream_read name_is same_prefix lookup token_bytes serialize encode split decode c_string
    model_view quantization_view from_bytes to_bytes list_eq
find_run = refl

find_matching_session-IsAnswer_example :
    IsAnswer disk (109 ∷ []) (113 ∷ []) (5 ∷ 6 ∷ []) entries (some (112 ∷ [], 1))
find_matching_session-IsAnswer_example =
    find_matching_session-IsAnswer disk (109 ∷ []) (113 ∷ []) (5 ∷ 6 ∷ []) entries
      (some (112 ∷ [], 1)) find_run
