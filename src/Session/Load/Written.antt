-- ===== src/Session/Load/Written.antt =====
-- The file that a save writes, in its parts.
use miinfer.Prelude.{
  join, take-all, ℕ, ◌+◌, ◌*◌, ◌%◌, ◌≤◌, ◌<◌, ◌≡◌, refl, sym, ap, ◌∙◌, some, List, [], ◌∷◌, ◌++◌,
  ok, arith, All, length, take, replicate, length-append, length-replicate, append_assoc,
}
use Prim.Native.Nat.{bit_xor}
use miinfer.Prelude.Words.{word_mod, mul64}
use miinfer.Device.{Hip}
use miinfer.KvCache.{QuantMode, Storage, raw_tokens_bytes}
use miinfer.Recurrent.{state_bytes, conv_history_bytes, state_elements, conv_history_elements}
use miinfer.Recurrent.Transfer.{IsValid}
use miinfer.Context.{hash_from, token_sequence_hash}
use miinfer.Context.Restore.{IsAllocated}
use miinfer.Session.Header.{serialize, strncpy, c_string, encode, model_view, quantization_view}
use miinfer.Session.Header.RoundTrip.{IsHeader, length-strncpy, c_string-strncpy}
use miinfer.Session.Model.{Model, gdn_layers, gqa_layers, mode_byte}
use miinfer.Session.Save.{token_bytes, gather_gdn, make_header, single_layer_kv_bytes, contents}
use miinfer.Session.Save.Gather.{Snapshots, Holds, Holds-Snapshots, gather_kv-Snapshots}
use miinfer.Session.Load.Stream.{length-token_bytes}

hash_from-lt : (hash : ℕ) (tokens : List ℕ) → hash < word_mod → hash_from hash tokens < word_mod
unfolding hash_from
hash_from-lt hash [] h = h
hash_from-lt hash (t ∷ ts) h = hash_from-lt (mul64 (bit_xor hash t) 0x100000001b3) ts (omega arith)

token_sequence_hash-lt : (tokens : List ℕ) → token_sequence_hash tokens < word_mod
unfolding token_sequence_hash
token_sequence_hash-lt tokens = hash_from-lt 0xcbf29ce484222325 tokens (omega arith)

-- What an array that was filled by strncpy shows, whatever is behind it.
c_string-name :
    (n : ℕ) (s rest : List ℕ)
    → All (λ c. 0 < c) s
    → length s ≤ n
    → c_string ((strncpy n s ++ 0 ∷ []) ++ rest) ≡ some s
c_string-name n s rest plain short =
    ap c_string (append_assoc (strncpy n s) (0 ∷ []) rest) ∙ c_string-strncpy n s rest plain short

length-name : (n : ℕ) (s : List ℕ) → length (strncpy n s ++ 0 ∷ []) ≡ n + 1
length-name n s = omega (arith, length-append (strncpy n s) (0 ∷ []), length-strncpy n s)

mode_byte-lt : (mode : QuantMode) → mode_byte mode < 256
unfolding mode_byte
mode_byte-lt QuantMode.fp16_fp16 = omega arith
mode_byte-lt QuantMode.q8_fp16 = omega arith
mode_byte-lt QuantMode.fp16_q8 = omega arith
mode_byte-lt QuantMode.q8_q8 = omega arith

pub nothing : (n : ℕ) → 0 * n ≡ 0
nothing n = omega arith

regroup : (a b c d : List ℕ) → a ++ b ++ c ++ d ≡ a ++ (b ++ (c ++ d))
regroup a b c d = append_assoc (a ++ b) c d ∙ append_assoc a b (c ++ d)

module _ (hip : Hip) where
  -- A model whose storages are there, with room for n tokens, and whose names fit the header.
  pub record IsReady (n : ℕ) (m : Model hip) : Type 0 where
    pub layer_count : length m.recurrent_states ≡ gdn_layers
    pub layers_valid : All (IsValid hip) m.recurrent_states
    pub cache_count : length m.kv_caches ≡ gqa_layers
    pub caches_hold : All (Holds hip m.kv_quant_mode n) m.kv_caches
    pub context_room : IsAllocated hip m.reusable_context.checkpoint
    pub name_plain : All (λ c. 0 < c) m.model_name
    pub name_short : length m.model_name ≤ 63
    pub quantization_plain : All (λ c. 0 < c) m.quantization
    pub quantization_short : length m.quantization ≤ 31

  pub single_lem :
      (mode : QuantMode) (n : ℕ) (ss : List (Storage hip))
      → 0 < length ss
      → All (Holds hip mode n) ss
      → single_layer_kv_bytes hip ss n ≡ raw_tokens_bytes mode n
  unfolding single_layer_kv_bytes
  single_lem mode n [] some_caches h = absurd (omega arith)
  single_lem mode n (s ∷ ss) some_caches (here, h) = ap (λ m. raw_tokens_bytes m n) here.in_mode

  raw_tokens_bytes-lt :
      (mode : QuantMode) (n : ℕ) → n < 4294967296 → raw_tokens_bytes mode n < 17592186044416
  unfolding raw_tokens_bytes
  raw_tokens_bytes-lt QuantMode.fp16_fp16 n small = omega arith
  raw_tokens_bytes-lt QuantMode.q8_fp16 n small = omega arith
  raw_tokens_bytes-lt QuantMode.fp16_q8 n small = omega arith
  raw_tokens_bytes-lt QuantMode.q8_q8 n small = omega arith

  layer_bytes : state_bytes + conv_history_bytes ≡ 3309568
  unfolding state_bytes conv_history_bytes state_elements conv_history_elements
  layer_bytes = refl

  pub make_header-IsHeader :
      (m : Model hip) (now : ℕ) (tokens : List ℕ)
      → IsReady (length tokens) m
      → length tokens < 4294967296
      → now < word_mod
      → IsHeader (make_header hip m now tokens)
  unfolding make_header
  make_header-IsHeader m now tokens v small time =
      let n = length tokens in
      let kept : n % 4294967296 ≡ n = omega arith in
      let single =
        single_lem m.kv_quant_mode n m.kv_caches (omega (arith, v.cache_count)) v.caches_hold in
      record {
        magic_whole = refl;
        model_whole = length-name 63 m.model_name;
        quantization_whole = length-name 31 m.quantization;
        version_fits = omega arith;
        prefix_fits = omega arith;
        hash_fits = token_sequence_hash-lt tokens;
        gdn_layers_fits = omega arith;
        gdn_bytes_fits = omega (arith, layer_bytes);
        gqa_layers_fits = omega arith;
        mode_fits = mode_byte-lt m.kv_quant_mode;
        kv_bytes_fits =
            rw kept (omega (arith, single, raw_tokens_bytes-lt m.kv_quant_mode n small));
        tokens_fits = omega arith;
        created_fits = time;
      }

  pub make_header-names :
      (m : Model hip) (now : ℕ) (tokens : List ℕ)
      → IsReady (length tokens) m
      → (model_view (make_header hip m now tokens) ≡ some m.model_name)
        × (quantization_view (make_header hip m now tokens) ≡ some m.quantization)
  unfolding make_header model_view quantization_view encode
  make_header-names m now tokens v = (
    c_string-name 63 m.model_name _ v.name_plain v.name_short,
    c_string-name 31 m.quantization _ v.quantization_plain v.quantization_short,
  )

  -- The file of a model that is ready, in its parts.
  pub record Written (m : Model hip) (now : ℕ) (tokens : List ℕ) : Type 0 where
    pub parts : List (List ℕ)
    pub snapshots :
        Snapshots hip
          (length tokens)
          (raw_tokens_bytes m.kv_quant_mode (length tokens))
          m.kv_caches
          parts
    pub written :
        contents hip m now tokens
        ≡ ok (
            serialize (make_header hip m now tokens)
            ++ (token_bytes tokens ++ (gather_gdn hip m.recurrent_states ++ join parts)))

  pub contents-Written :
      (m : Model hip) (now : ℕ) (tokens : List ℕ)
      → IsReady (length tokens) m
      → length tokens < 4294967296
      → Written m now tokens
  unfolding contents make_header
  contents-Written m now tokens v small =
      let n = length tokens in
      let single = raw_tokens_bytes m.kv_quant_mode n in
      let kept : n % 4294967296 ≡ n = omega arith in
      let same =
        single_lem m.kv_quant_mode n m.kv_caches (omega (arith, v.cache_count)) v.caches_hold in
      let (parts, shots) = Holds-Snapshots hip m.kv_quant_mode n m.kv_caches v.caches_hold in
      let buffer = replicate (gqa_layers * single) 0 in
      let gathered = gather_kv-Snapshots hip n single 0 m.kv_caches parts buffer shots (
        length-replicate (gqa_layers * single) 0
        ∙ ap (λ k. (0 + k) * single) (sym v.cache_count)) in
      let front : take (0 * single) buffer ≡ [] = ap (λ k. take k buffer) (nothing single) in
      let whole : take (n * 4) (token_bytes tokens) ≡ token_bytes tokens =
        take-all (n * 4) (token_bytes tokens) (omega (arith, length-token_bytes tokens)) in
      record {
        parts = parts;
        snapshots = shots;
        written =
            rw (kept, same, gathered, front, whole)
              (ap ok (
                regroup (serialize _) (token_bytes tokens) (gather_gdn hip m.recurrent_states)
                  (join parts)));
      }
