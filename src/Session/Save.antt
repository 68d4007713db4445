-- ===== src/Session/Save.antt =====
-- PersistentSession::save_to_file and format_session_filename.
pub mod Gather
pub mod Atomic
use miinfer.Prelude.{
  ℕ, zero, suc, ◌+◌, ◌*◌, ◌/◌, ◌%◌, Bool, true, false, not, Option, some, none, List, [], ◌∷◌, ◌++◌,
  Result, ok, err, ◌>>=◌, ltb, leb, list_eq, if◌then◌else◌, length, take, drop, replicate,
}
use miinfer.Prelude.Words.{to_bytes}
use miinfer.Device.{Hip}
use miinfer.KvCache.{Storage, raw_tokens_bytes, download_raw}
use miinfer.Recurrent.{Recurrent, state_bytes, conv_history_bytes, download}
use miinfer.Context.{token_sequence_hash}
use miinfer.Session.Header.{Header, serialize, strncpy}
use miinfer.Session.Model.{
  Error, empty_prefix, cannot_create, cannot_open, write_failure, cannot_rename, write_past_end,
  Model, gdn_layers, gqa_layers, mode_byte,
}
use miinfer.KvCache

-- A hexadecimal digit, and n of them.
abbrev pub hex_digit : ℕ → ℕ
hex_digit d = if ltb d 10 then 48 + d else 87 + d

unfoldable pub hex : ℕ → ℕ → List ℕ
hex zero v = []
hex (suc n) v = hex n (v / 16) ++ hex_digit (v % 16) ∷ []

-- The decimal digits of a number below 10 ^ n, without leading zeros.
unfoldable pub decimal : ℕ → ℕ → List ℕ
decimal zero v = []
decimal (suc n) v =
    let higher = decimal n (v / 10) in
    if ltb v 10 then (48 + v) ∷ [] else higher ++ (48 + v % 10) ∷ []

-- "sess_", 16 hexadecimal digits, "_p", the length and ".miinfer"
unfoldable pub format_session_filename : ℕ → ℕ → List ℕ
unfolding hex decimal
format_session_filename token_hash prefix_length =
    (115 ∷ 101 ∷ 115 ∷ 115 ∷ 95 ∷ [])
    ++ hex 16 token_hash
    ++ (95 ∷ 112 ∷ [])
    ++ decimal 10 prefix_length
    ++ (46 ∷ 109 ∷ 105 ∷ 105 ∷ 110 ∷ 102 ∷ 101 ∷ 114 ∷ [])

-- The files, by their paths.
abbrev pub Disk : Type 0
Disk = List (List ℕ × List ℕ)

unfoldable pub lookup : List ℕ → Disk → Option (List ℕ)
lookup path [] = none
lookup path ((p, content) ∷ rest) =
    let later = lookup path rest in if list_eq p path then some content else later

unfoldable pub remove : List ℕ → Disk → Disk
remove path [] = []
remove path ((p, content) ∷ rest) =
    let later = remove path rest in if list_eq p path then later else (p, content) ∷ later

unfoldable pub put : List ℕ → List ℕ → Disk → Disk
unfolding remove
put path content disk = (path, content) ∷ remove path disk

-- How the system calls of a save go: whether the directories can be made, whether the temporary file
-- can be opened, how many bytes a failing write still leaves in it (none where nothing fails), and
-- whether the rename succeeds. A close that fails behind the checked flush is not among them.
pub record Calls : Type 0 where
  pub created : Bool
  pub opened : Bool
  pub cut_at : Option ℕ
  pub renamed : Bool

-- final_path.string() + ".tmp"
abbrev pub temp_path : List ℕ → List ℕ
temp_path path = path ++ (46 ∷ 116 ∷ 109 ∷ 112 ∷ [])

-- The third part of save_to_file: the temporary file and the rename, and what is on disk then.
unfoldable pub write_atomically : Calls → List ℕ → List ℕ → Disk → Disk × Result Error (Unit {0})
unfolding lookup remove put
write_atomically calls path content disk =
    if not calls.created
    then (disk, err cannot_create)
    else if not calls.opened
    then (disk, err cannot_open)
    else (elim calls.cut_at [
      | some n ↦ (put (temp_path path) (take n content) disk, err write_failure)
      | none ↦
          if not calls.renamed
          then (put (temp_path path) content disk, err cannot_rename)
          else (put path content (remove (temp_path path) disk), ok tt)
    ])

-- What is thrown before the third part is thrown on.
unfoldable pub save_with :
    Calls → List ℕ → Disk → Result Error (List ℕ) → Disk × Result Error (Unit {0})
unfolding write_atomically
save_with calls path disk (err e) = (disk, err e)
save_with calls path disk (ok content) = write_atomically calls path content disk

-- static_cast of the tokens to bytes
unfoldable pub token_bytes : List ℕ → List ℕ
token_bytes [] = []
token_bytes (t ∷ ts) = to_bytes 4 t ++ token_bytes ts

-- Bytes that are stored in a host buffer from an offset on.
unfoldable pub store_at : List ℕ → ℕ → List ℕ → Result Error (List ℕ)
store_at buffer offset bytes =
    if ltb (length buffer) (offset + length bytes)
    then err write_past_end
    else ok (take offset buffer ++ bytes ++ drop (offset + length bytes) buffer)

-- An exception of a storage goes on to the caller.
unfoldable pub lift_cache {ℓ} : {A : Type ℓ} → Result KvCache.Error A → Result Error A
lift_cache (ok a) = ok a
lift_cache (err e) = err (Error.cache e)

module _ (hip : Hip) where
  -- The states and histories of the layers, one behind the other.
  unfoldable pub gather_gdn : List (Recurrent hip) → List ℕ
  unfolding download
  gather_gdn [] = []
  gather_gdn (s ∷ rest) = (download hip s).0 ++ (download hip s).1 ++ gather_gdn rest

  -- kv_storage(0).raw_tokens_bytes(P)
  unfoldable pub single_layer_kv_bytes : List (Storage hip) → ℕ → ℕ
  single_layer_kv_bytes [] tokens = 0
  single_layer_kv_bytes (s ∷ rest) tokens = raw_tokens_bytes s.quant_mode tokens

  -- The loop over the storages, from j on.
  unfoldable pub gather_kv : List (Storage hip) → ℕ → ℕ → ℕ → List ℕ → Result Error (List ℕ)
  unfolding lift_cache store_at
  gather_kv [] j single tokens buffer = ok buffer
  gather_kv (s ∷ rest) j single tokens buffer = do
    bytes ← lift_cache (download_raw hip s true tokens)
    filled ← store_at buffer (j * single) bytes
    gather_kv rest (j + 1) single tokens filled

  unfoldable pub make_header : Model hip → ℕ → List ℕ → Header
  unfolding single_layer_kv_bytes
  make_header model now tokens =
      let n = length tokens % 4294967296 in
      record {
        magic = 77 ∷ 73 ∷ 83 ∷ 83 ∷ [];
        version = 20260928;
        model_id = strncpy 63 model.model_name ++ 0 ∷ [];
        quantization = strncpy 31 model.quantization ++ 0 ∷ [];
        prefix_length = n;
        token_hash = token_sequence_hash tokens;
        gdn_layers = gdn_layers;
        gdn_state_bytes = gdn_layers * (state_bytes + conv_history_bytes);
        gqa_layers = gqa_layers;
        kv_quant_mode = mode_byte model.kv_quant_mode;
        kv_bytes = gqa_layers * single_layer_kv_bytes model.kv_caches n;
        tokens_bytes = n * 4;
        created_timestamp = now;
      }

  -- The bytes that are written; `now` is the time in seconds.
  unfoldable pub contents : Model hip → ℕ → List ℕ → Result Error (List ℕ)
  unfolding make_header gather_kv gather_gdn token_bytes
  contents model now tokens =
      let header = make_header model now tokens in
      let n = header.prefix_length in
      let single = single_layer_kv_bytes model.kv_caches n in
      do
        kv ← gather_kv model.kv_caches 0 single n (replicate header.kv_bytes 0)
        ok (
            serialize header
            ++ take header.tokens_bytes (token_bytes tokens)
            ++ gather_gdn model.recurrent_states
            ++ kv)

  unfoldable pub save_to_file :
      Calls → List ℕ → Disk → Model hip → ℕ → List ℕ → Disk × Result Error (Unit {0})
  unfolding contents save_with
  save_to_file calls path disk model now [] = (disk, err empty_prefix)
  save_to_file calls path disk model now (t ∷ ts) =
      save_with calls path disk (contents model now (t ∷ ts))
