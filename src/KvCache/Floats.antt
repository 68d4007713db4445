-- ===== src/KvCache/Floats.antt =====
-- download_key and download_value, src/prefill_v2/kv_cache.cpp: the rows of a cache as floats.
use miinfer.Prelude.{
  ℕ, ◌*◌, ◌-◌, none, some, List, [], ◌∷◌, ◌++◌, map, Result, ok, err, ltb, if◌then◌else◌, length,
  take, drop, replicate,
}
use miinfer.Constants.{kv_heads, head_dim}
use miinfer.Device.{Hip}
use miinfer.KvCache.{
  Side, Storage, Error, tokens_exceed_capacity, each, fp16_row, q8_row, scale_row,
}

-- The conversions and the product of the language: a half is two bytes, the lower one first.
pub record FloatOps : Type 1 where
  pub Float : Type 0
  pub zero_float : Float
  pub of_half : ℕ → ℕ → Float
  pub of_int8 : ℕ → Float
  pub times : Float → Float → Float

module _ (hip : Hip) (ops : FloatOps) where
  open ops use {Float, zero_float, of_half, of_int8, times}

  -- `host_key.resize(count)`
  unfoldable pub resize : ℕ → List Float → List Float
  resize count host = take count host ++ replicate (count - length host) zero_float

  unfoldable pub halves : List ℕ → List Float
  halves [] = []
  halves (low ∷ []) = []
  halves (low ∷ high ∷ bytes) = of_half low high ∷ halves bytes

  -- The rows and their scales one behind the other: kHeadDim bytes for a scale.
  unfoldable pub dequantize : List ℕ → List ℕ → List Float
  dequantize [] rows = []
  dequantize (low ∷ []) rows = []
  dequantize (low ∷ high ∷ scales) rows =
      map (λ x. times (of_int8 x) (of_half low high)) (take head_dim rows)
      ++ dequantize scales (drop head_dim rows)

  -- The writes `host_key[i] = ...` from the first index on; a write past the end has no effect.
  unfoldable pub overwrite : List Float → List Float → List Float
  overwrite [] host = host
  overwrite (x ∷ xs) [] = []
  overwrite (x ∷ xs) (_ ∷ host) = x ∷ overwrite xs host

  -- The branches behind the resize.
  unfoldable pub filled : ℕ → ℕ → List Float → Side hip → List Float
  unfolding each halves dequantize overwrite
  filled capacity tokens host s = elim s.cache [
    | some b ↦ overwrite (halves (each kv_heads 0 (fp16_row hip b capacity tokens))) host
    | none ↦ elim s.cache_q8 [
      | none ↦ host
      | some q ↦ elim s.scales [
        | none ↦ host
        | some c ↦
            overwrite
              (dequantize (each kv_heads 0 (scale_row hip c capacity tokens))
                (each kv_heads 0 (q8_row hip q capacity tokens)))
              host
      ]
    ]
  ]

  -- What the host vector becomes.
  unfoldable pub floats_of : ℕ → ℕ → List Float → Side hip → List Float
  unfolding resize filled
  floats_of capacity tokens host s =
      filled capacity tokens (resize (kv_heads * tokens * head_dim) host) s

  unfoldable pub download_key : Storage hip → List Float → ℕ → Result Error (List Float)
  unfolding floats_of
  download_key s host tokens =
      if ltb s.capacity tokens
      then err tokens_exceed_capacity
      else ok (floats_of s.capacity tokens host s.keys)

  unfoldable pub download_value : Storage hip → List Float → ℕ → Result Error (List Float)
  unfolding floats_of
  download_value s host tokens =
      if ltb s.capacity tokens
      then err tokens_exceed_capacity
      else ok (floats_of s.capacity tokens host s.vals)
