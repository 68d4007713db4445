-- ===== src/KvCache.antt =====
-- AttentionLayerKvCacheStorage, src/prefill_v2/kv_cache.cpp and
-- include/miinfer/prefill_v2/kv_cache.hpp: the key and value cache of one attention layer.
pub mod Rows
pub mod Transfer
pub mod Lifetime
pub mod Floats
pub mod Count
use miinfer.Prelude.{
  ℕ, zero, suc, ◌+◌, ◌*◌, Bool, true, false, ◌||◌, not, Option, some, none, List, [], ◌∷◌, ◌++◌,
  Result, ok, err, ◌>>=◌, ltb, ◌==◌, if◌then◌else◌, length, take, drop,
}
use miinfer.Constants.{kv_heads, head_dim}
use miinfer.Device.{Hip}

-- KvCacheQuantMode: keys then values.
pub data QuantMode : Type 0 where
  fp16_fp16 q8_fp16 fp16_q8 q8_q8 : QuantMode

unfoldable pub is_k_q8 : QuantMode → Bool
is_k_q8 fp16_fp16 = false
is_k_q8 q8_fp16 = true
is_k_q8 fp16_q8 = false
is_k_q8 q8_q8 = true

unfoldable pub is_v_q8 : QuantMode → Bool
is_v_q8 fp16_fp16 = false
is_v_q8 q8_fp16 = false
is_v_q8 fp16_q8 = true
is_v_q8 q8_q8 = true

-- The two exceptions, and a read behind the end of a host buffer, which the language leaves
-- undefined.
pub data Error : Type 0 where
  zero_capacity tokens_exceed_capacity read_past_end : Error

-- f h, f (h + 1), ... one behind the other, n of them.
unfoldable pub each {ℓ} : {A : Type ℓ} → ℕ → ℕ → (ℕ → List A) → List A
each zero h f = []
each (suc n) h f = f h ++ each n (h + 1) f

-- n bytes of a host buffer from an offset on.
unfoldable pub slice : List ℕ → ℕ → ℕ → Result Error (List ℕ)
slice src offset n =
    if ltb (length (drop offset src)) n then err read_past_end else ok (take n (drop offset src))

-- The sizes of the device buffers of a capacity.
abbrev pub q8_bytes : ℕ → ℕ
q8_bytes capacity = capacity * kv_heads * head_dim * 1

abbrev pub scale_bytes : ℕ → ℕ
scale_bytes capacity = capacity * kv_heads * 2

abbrev pub fp16_bytes : ℕ → ℕ
fp16_bytes capacity = capacity * kv_heads * head_dim * 2

unfoldable pub raw_tokens_bytes : QuantMode → ℕ → ℕ
raw_tokens_bytes q8_fp16 tokens =
    tokens * kv_heads * (head_dim * 1 + 2) + tokens * kv_heads * head_dim * 2
raw_tokens_bytes fp16_q8 tokens =
    tokens * kv_heads * head_dim * 2 + tokens * kv_heads * (head_dim * 1 + 2)
raw_tokens_bytes q8_q8 tokens = 2 * tokens * kv_heads * (head_dim * 1 + 2)
raw_tokens_bytes fp16_fp16 tokens = 2 * tokens * kv_heads * head_dim * 2

-- The sizes that the storage reports.
unfoldable pub key_bytes : ℕ → QuantMode → ℕ
unfolding is_k_q8
key_bytes capacity mode =
    if is_k_q8 mode
    then capacity * kv_heads * (head_dim * 1 + 2)
    else capacity * kv_heads * head_dim * 2

unfoldable pub value_bytes : ℕ → QuantMode → ℕ
unfolding is_v_q8
value_bytes capacity mode =
    if is_v_q8 mode
    then capacity * kv_heads * (head_dim * 1 + 2)
    else capacity * kv_heads * head_dim * 2

unfoldable pub total_bytes : ℕ → QuantMode → ℕ
unfolding key_bytes value_bytes
total_bytes capacity mode = key_bytes capacity mode + value_bytes capacity mode

unfoldable pub single_cache_bytes : ℕ → ℕ
single_cache_bytes capacity = capacity * kv_heads * head_dim * 2

module _ (hip : Hip) where
  open hip use {Buffer, malloc, clear, read, write}

  -- The buffers of the keys, or of the values: d_key_cache_, d_key_cache_q8_, d_key_scales_ and
  -- the same for values; none is nullptr.
  pub record Side : Type 0 where
    pub cache : Option Buffer
    pub cache_q8 : Option Buffer
    pub scales : Option Buffer

  pub record Storage : Type 0 where
    pub capacity : ℕ
    pub quant_mode : QuantMode
    pub keys : Side
    pub vals : Side

  -- The allocations of the constructor for one side.
  unfoldable pub allocate : Bool → ℕ → Side
  allocate true capacity = record {
    cache = none;
    cache_q8 = some (malloc (q8_bytes capacity));
    scales = some (malloc (scale_bytes capacity));
  }
  allocate false capacity = record {
    cache = some (malloc (fp16_bytes capacity));
    cache_q8 = none;
    scales = none;
  }

  unfoldable pub clear_all : Option Buffer → ℕ → Option Buffer
  clear_all none bytes = none
  clear_all (some b) bytes = some (clear b bytes)

  unfoldable pub reset_side : ℕ → Side → Side
  unfolding clear_all
  reset_side capacity s = record {
    cache = clear_all s.cache (fp16_bytes capacity);
    cache_q8 = clear_all s.cache_q8 (q8_bytes capacity);
    scales = clear_all s.scales (scale_bytes capacity);
  }

  unfoldable pub reset : Storage → Storage
  unfolding reset_side
  reset s = record s { keys = reset_side s.capacity s.keys; vals = reset_side s.capacity s.vals }

  unfoldable pub construct : ℕ → QuantMode → Result Error Storage
  unfolding allocate reset is_k_q8 is_v_q8
  construct capacity mode =
      if capacity == 0
      then err zero_capacity
      else ok (
          reset (record {
            capacity = capacity;
            quant_mode = mode;
            keys = allocate (is_k_q8 mode) capacity;
            vals = allocate (is_v_q8 mode) capacity;
          }))

  -- What a storage is after its buffers were moved to another one.
  unfoldable pub moved_from : Storage → Storage
  moved_from other = record other {
    keys = record { cache = none; cache_q8 = none; scales = none };
    vals = record { cache = none; cache_q8 = none; scales = none };
  }

  -- The move constructor: the new storage, and what is left of the other.
  unfoldable pub move : Storage → Storage × Storage
  unfolding moved_from
  move other = (other, moved_from other)

  -- The buffers of a storage, which the destructor frees.
  unfoldable pub release : Storage → List (Option Buffer)
  release s =
      s.keys.cache ∷ s.keys.cache_q8 ∷ s.keys.scales ∷ s.vals.cache ∷ s.vals.cache_q8
      ∷ s.vals.scales ∷ []

  -- The move assignment between two storages, with the buffers that are freed.
  unfoldable pub move_assign : Storage → Storage → Storage × Storage × List (Option Buffer)
  unfolding moved_from release
  move_assign this other = (other, moved_from other, release this)

  -- The rows of head h: tokens 0 to tokens - 1 of the half, byte and scale buffers.
  abbrev pub fp16_row : Buffer → ℕ → ℕ → ℕ → List ℕ
  fp16_row b capacity tokens h = read b (h * capacity * head_dim * 2) (tokens * head_dim * 2)

  abbrev pub q8_row : Buffer → ℕ → ℕ → ℕ → List ℕ
  q8_row b capacity tokens h = read b (h * capacity * head_dim * 1) (tokens * head_dim * 1)

  abbrev pub scale_row : Buffer → ℕ → ℕ → ℕ → List ℕ
  scale_row b capacity tokens h = read b (h * capacity * 2) (tokens * 2)

  -- What download_raw writes for one side, from `dst + offset` on.
  unfoldable pub download_side : ℕ → ℕ → Side → List ℕ
  unfolding each
  download_side capacity tokens s = elim s.cache [
    | some b ↦ each kv_heads 0 (fp16_row b capacity tokens)
    | none ↦ elim s.cache_q8 [
      | none ↦ []
      | some q ↦ elim s.scales [
        | none ↦ []
        | some c ↦ each kv_heads 0 λ h. q8_row q capacity tokens h ++ scale_row c capacity tokens h
      ]
    ]
  ]

  -- The bytes that are written from host_dst on; `has_dst` is `host_dst != nullptr`.
  unfoldable pub download_raw : Storage → Bool → ℕ → Result Error (List ℕ)
  unfolding download_side
  download_raw s has_dst tokens =
      if ltb s.capacity tokens
      then err tokens_exceed_capacity
      else if (tokens == 0) || not has_dst
      then ok []
      else ok (download_side s.capacity tokens s.keys ++ download_side s.capacity tokens s.vals)

  -- The loops of upload_raw over n heads from h on, with the offset in the host buffer.
  unfoldable pub upload_fp16 : List ℕ → ℕ → ℕ → ℕ → ℕ → ℕ → Buffer → Result Error (Buffer × ℕ)
  unfolding slice
  upload_fp16 src capacity tokens zero h offset b = ok (b, offset)
  upload_fp16 src capacity tokens (suc n) h offset b = do
    row ← slice src offset (tokens * head_dim * 2)
    upload_fp16 src capacity tokens n (h + 1) (offset + tokens * head_dim * 2)
        (write b (h * capacity * head_dim * 2) row)

  unfoldable pub upload_q8 :
      List ℕ → ℕ → ℕ → ℕ → ℕ → ℕ → Buffer → Buffer → Result Error (Buffer × Buffer × ℕ)
  unfolding slice
  upload_q8 src capacity tokens zero h offset q c = ok (q, c, offset)
  upload_q8 src capacity tokens (suc n) h offset q c = do
    q_row ← slice src offset (tokens * head_dim * 1)
    s_row ← slice src (offset + tokens * head_dim * 1) (tokens * 2)
    upload_q8 src capacity tokens n (h + 1) (offset + tokens * head_dim * 1 + tokens * 2)
        (write q (h * capacity * head_dim * 1) q_row) (write c (h * capacity * 2) s_row)

  unfoldable pub upload_side : List ℕ → ℕ → ℕ → ℕ → Side → Result Error (Side × ℕ)
  unfolding upload_fp16 upload_q8
  upload_side src capacity tokens offset s = elim s.cache [
    | some b ↦ do
      (b', end) ← upload_fp16 src capacity tokens kv_heads 0 offset b
      ok (record s { cache = some b' }, end)
    | none ↦ elim s.cache_q8 [
      | none ↦ ok (s, offset)
      | some q ↦ elim s.scales [
        | none ↦ ok (s, offset)
        | some c ↦ do
          (q', c', end) ← upload_q8 src capacity tokens kv_heads 0 offset q c
          ok (record s { cache_q8 = some q'; scales = some c' }, end)
      ]
    ]
  ]

  -- `src` is none for a null pointer.
  unfoldable pub upload_raw : Storage → Option (List ℕ) → ℕ → Result Error Storage
  unfolding upload_side
  upload_raw s src tokens =
      if ltb s.capacity tokens
      then err tokens_exceed_capacity
      else if tokens == 0
      then ok s
      else (elim src [
        | none ↦ ok s
        | some bytes ↦ do
          (keys, offset) ← upload_side bytes s.capacity tokens 0 s.keys
          (vals, end) ← upload_side bytes s.capacity tokens offset s.vals
          ok (record s { keys = keys; vals = vals })
      ])
