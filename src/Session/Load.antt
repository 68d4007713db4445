-- ===== src/Session/Load.antt =====
-- PersistentSession::inspect_file and load_from_file.
pub mod States
pub mod Stream
pub mod Written
pub mod Stages
pub mod RoundTrip
use miinfer.Prelude.{
  ℕ, zero, suc, ◌+◌, ◌*◌, ◌/◌, Bool, true, false, ◌&&◌, ◌||◌, not, Option, some, none, List, [],
  ◌∷◌, ◌++◌, Result, ok, err, ◌>>=◌, ltb, ◌==◌, list_eq, if◌then◌else◌, length, take, drop,
  replicate,
}
use miinfer.Prelude.Words.{from_bytes}
use miinfer.Device.{Hip}
use miinfer.KvCache
use miinfer.KvCache.{Storage, upload_raw}
use miinfer.Recurrent.{Recurrent, state_bytes, conv_history_bytes, set_position}
use miinfer.Context
use miinfer.Context.{token_sequence_hash}
use miinfer.Session.Header.{
  Header, header_bytes, widths, split, decode, model_view, quantization_view,
}
use miinfer.Session.Model.{
  Error, read_past_end, write_past_end, unterminated_name, Model, gdn_layers, gqa_layers,
}
use miinfer.Session.Save.{Disk, lookup, lift_cache}

-- in.read of n bytes: they and the rest of the stream, or none where the stream ends before.
unfoldable pub stream_read : ℕ → List ℕ → Option (List ℕ × List ℕ)
stream_read n stream = if ltb (length stream) n then none else some (take n stream, drop n stream)

-- The header in the first bytes, with the rest of the stream.
unfoldable pub read_header : List ℕ → Option (Header × List ℕ)
unfolding stream_read
read_header stream = elim (stream_read header_bytes stream) [
  | none ↦ none
  | some (bytes, rest) ↦ some (decode (split widths bytes), rest)
]

-- memcmp of the magic, and the version
unfoldable pub is_session : Header → Bool
is_session h = list_eq h.magic (77 ∷ 73 ∷ 83 ∷ 83 ∷ []) && (h.version == 20260928)

-- n words of 4 bytes
unfoldable pub words : ℕ → List ℕ → List ℕ
words zero bytes = []
words (suc n) bytes = from_bytes (take 4 bytes) ∷ words n (drop 4 bytes)

-- The vector of n tokens after a read into it.
unfoldable pub fill_tokens : ℕ → Option (List ℕ × List ℕ) → Option (List ℕ × List ℕ)
unfolding words
fill_tokens n none = none
fill_tokens n (some (got, rest)) = some (words n (got ++ replicate (n * 4) 0), rest)

-- resize to n tokens, and a read of `bytes` bytes into them: none where the stream ends before.
-- More bytes than the tokens have would be written behind the end of the vector.
unfoldable pub read_tokens : ℕ → ℕ → List ℕ → Result Error (Option (List ℕ × List ℕ))
unfolding stream_read fill_tokens
read_tokens n bytes stream =
    if ltb (n * 4) bytes then err write_past_end else ok (fill_tokens n (stream_read bytes stream))

unfoldable pub with_tokens : Header → Option (List ℕ × List ℕ) → Option (Header × List ℕ)
with_tokens h none = none
with_tokens h (some (tokens, rest)) = some (h, tokens)

-- inspect_file behind the read of the header.
unfoldable pub inspect_header : Option (Header × List ℕ) → Result Error (Option (Header × List ℕ))
unfolding is_session read_tokens with_tokens
inspect_header none = ok none
inspect_header (some (h, rest)) =
    if not (is_session h)
    then ok none
    else if not (ltb 0 h.prefix_length)
    then ok (some (h, []))
    else (do got ← read_tokens h.prefix_length h.tokens_bytes rest; ok (with_tokens h got))

-- What inspect_file leaves in its out parameters where it returns true, none for false. The tokens
-- are asked for.
unfoldable pub inspect_stream : Option (List ℕ) → Result Error (Option (Header × List ℕ))
unfolding read_header inspect_header
inspect_stream none = ok none
inspect_stream (some stream) = inspect_header (read_header stream)

unfoldable pub inspect_file : Disk → List ℕ → Result Error (Option (Header × List ℕ))
unfolding inspect_stream lookup
inspect_file disk path = inspect_stream (lookup path disk)

-- Comparison of a string_view of an array in the header with a string.
unfoldable pub name_is : Option (List ℕ) → List ℕ → Result Error Bool
name_is none s = err unterminated_name
name_is (some view) s = ok (list_eq view s)

-- The checks of load_from_file before it reads the tokens.
unfoldable pub accepts : Header → List ℕ → List ℕ → Result Error Bool
unfolding name_is is_session model_view quantization_view
accepts h model_name quantization = if not (is_session h) then ok false else (do
  same_model ← name_is (model_view h) model_name
  if not same_model then ok false else (do
    same_quantization ← name_is (quantization_view h) quantization
    ok (same_quantization && (h.gdn_layers == gdn_layers) && (h.gqa_layers == gqa_layers))))

-- n bytes of a host buffer that are copied to a device.
unfoldable pub host_slice : List ℕ → ℕ → ℕ → Result Error (List ℕ)
host_slice buffer offset n =
    if ltb (length buffer) (offset + n) then err read_past_end else ok (take n (drop offset buffer))

module _ (hip : Hip) where
  open hip use {write}

  -- The loop over the recurrent layers, from an offset of the host buffer on.
  unfoldable pub load_gdn :
      List ℕ → ℕ → ℕ → List (Recurrent hip) → Result Error (List (Recurrent hip))
  unfolding host_slice set_position
  load_gdn buffer offset position [] = ok []
  load_gdn buffer offset position (s ∷ rest) = do
    state ← host_slice buffer offset state_bytes
    history ← host_slice buffer (offset + state_bytes) conv_history_bytes
    others ← load_gdn buffer (offset + state_bytes + conv_history_bytes) position rest
    ok (
        set_position hip
          (record s {
            state = write s.state 0 state;
            conv_history = write s.conv_history 0 history;
          })
          position
        ∷ others)

  -- The loop over the attention layers, from j on.
  unfoldable pub load_kv :
      List ℕ → ℕ → ℕ → ℕ → List (Storage hip) → Result Error (List (Storage hip))
  unfolding lift_cache
  load_kv buffer j single tokens [] = ok []
  load_kv buffer j single tokens (s ∷ rest) = do
    loaded ← lift_cache (upload_raw hip s (some (drop (j * single) buffer)) tokens)
    others ← load_kv buffer (j + 1) single tokens rest
    ok (loaded ∷ others)

  -- The answer of load_from_file, the model, and out_prefix_tokens (none where it is not written).
  abbrev pub Loaded : Type 0
  Loaded = Bool × Model hip × Option (List ℕ)

  unfoldable pub keep_context :
      Model hip → Result Context.Error (Context.Context hip) → Result Error (Model hip)
  keep_context model (ok c) = ok (record model { reusable_context = c })
  keep_context model (err e) = err (Error.context e)

  -- The save of the in-memory context at the end.
  unfoldable pub save_context : List ℕ → Model hip → Result Error (Model hip)
  unfolding keep_context
  save_context tokens model =
      keep_context model (Context.save hip model.reusable_context tokens model.recurrent_states)

  -- What follows the read of the cache bytes.
  unfoldable pub load_caches :
      Header → List ℕ → Model hip → Option (List ℕ × List ℕ) → Result Error Loaded
  unfolding load_kv save_context
  load_caches h tokens model none = ok (false, model, some tokens)
  load_caches h tokens model (some (buffer, _)) = do
    caches ← load_kv buffer 0 (h.kv_bytes / gqa_layers) h.prefix_length model.kv_caches
    saved ← save_context tokens (record model { kv_caches = caches })
    ok (true, saved, some tokens)

  -- What follows the read of the state bytes.
  unfoldable pub load_layers :
      Header → List ℕ → Model hip → Option (List ℕ × List ℕ) → Result Error Loaded
  unfolding stream_read load_gdn load_caches
  load_layers h tokens model none = ok (false, model, some tokens)
  load_layers h tokens model (some (buffer, rest)) = do
    layers ← load_gdn buffer 0 h.prefix_length model.recurrent_states
    load_caches h tokens (record model { recurrent_states = layers }) (stream_read h.kv_bytes rest)

  -- What follows the read of the tokens. A short read leaves the tokens that were there.
  unfoldable pub load_tokens :
      Header → List ℕ → Model hip → Option (List ℕ × List ℕ) → Result Error Loaded
  unfolding words stream_read load_layers
  load_tokens h stream model none =
      ok (false, model, some (words h.prefix_length (stream ++ replicate (h.prefix_length * 4) 0)))
  load_tokens h stream model (some (tokens, rest)) =
      if not (token_sequence_hash tokens == h.token_hash)
      then ok (false, model, some tokens)
      else load_layers h tokens model (stream_read h.gdn_state_bytes rest)

  -- What follows the read of the header.
  unfoldable pub load_header : Model hip → Option (Header × List ℕ) → Result Error Loaded
  unfolding accepts read_tokens load_tokens
  load_header model none = ok (false, model, none)
  load_header model (some (h, rest)) = do
    accepted ← accepts h model.model_name model.quantization
    if not accepted then ok (false, model, none) else (do
      got ← read_tokens h.prefix_length h.tokens_bytes rest
      load_tokens h rest model got)

  -- What follows the opening of the file.
  unfoldable pub load_stream : Model hip → Option (List ℕ) → Result Error Loaded
  unfolding read_header load_header
  load_stream model none = ok (false, model, none)
  load_stream model (some stream) = load_header model (read_header stream)

  unfoldable pub load_from_file : Disk → List ℕ → Model hip → Result Error Loaded
  unfolding lookup load_stream
  load_from_file disk path model = load_stream model (lookup path disk)
