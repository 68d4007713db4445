-- ===== src/KvCache/Count.antt =====
-- How many floats download_key and download_value give.
use miinfer.Prelude.{
  ℕ, zero, suc, ◌*◌, ◌≤◌, ◌≡◌, refl, ◌∙◌, Bool, true, false, List, [], ◌∷◌, ok, length, take, drop,
  map, sym, ap, ltb, ◌-◌, replicate, length-replicate, length-append, length-map, length-take,
  length-drop, arith,
}
use miinfer.Constants.{kv_heads, head_dim}
use miinfer.Device.{Hip}
use miinfer.KvCache.{Side, Storage, is_k_q8, is_v_q8, each, fp16_row, q8_row, scale_row}
use miinfer.KvCache.Floats.{
  FloatOps, resize, halves, dequantize, overwrite, filled, floats_of, download_key, download_value,
}
use miinfer.KvCache.Transfer.{
  length-each, SideIsValid, IsValid, length-fp16_row, length-q8_row, length-scale_row,
}

module _ (hip : Hip) (ops : FloatOps) where
  open ops use {Float, zero_float, of_half, of_int8, times}

  length-halves :
      (n : ℕ) (bytes : List ℕ) → length bytes ≡ 2 * n → length (halves hip ops bytes) ≡ n
  unfolding halves
  length-halves zero [] h = refl
  length-halves zero (b ∷ bytes) h = absurd (omega arith)
  length-halves (suc n) [] h = absurd (omega arith)
  length-halves (suc n) (low ∷ []) h = absurd (omega arith)
  length-halves (suc n) (low ∷ high ∷ bytes) h = omega (arith, length-halves n bytes (omega arith))

  length-dequantize :
      (n : ℕ) (scales rows : List ℕ)
      → length scales ≡ 2 * n
      → length rows ≡ 256 * n
      → length (dequantize hip ops scales rows) ≡ 256 * n
  unfolding dequantize
  length-dequantize zero [] rows h k = omega arith
  length-dequantize zero (b ∷ scales) rows h k = absurd (omega arith)
  length-dequantize (suc n) [] rows h k = absurd (omega arith)
  length-dequantize (suc n) (low ∷ []) rows h k = absurd (omega arith)
  length-dequantize (suc n) (low ∷ high ∷ scales) rows h k =
      let scaled = map (λ x. times (of_int8 x) (of_half low high)) (take 256 rows) in
      omega (
        arith,
        length-append scaled (dequantize hip ops scales (drop 256 rows)),
        length-map (take 256 rows) (λ x. times (of_int8 x) (of_half low high)),
        length-take 256 rows,
        length-dequantize n scales (drop 256 rows) (omega arith)
            (omega (arith, length-drop 256 rows)),
      )

  length-resize : (n : ℕ) (host : List Float) → length (resize hip ops n host) ≡ n
  unfolding resize
  length-resize n host = omega (
    arith,
    length-append (take n host) (replicate (n - length host) zero_float),
    length-take n host,
    length-replicate (n - length host) zero_float,
  )

  -- As many writes as there are places leave nothing of what was there.
  overwrite-whole :
      (xs host : List Float) → length host ≡ length xs → overwrite hip ops xs host ≡ xs
  unfolding overwrite
  overwrite-whole [] [] h = refl
  overwrite-whole [] (y ∷ host) h = absurd (omega arith)
  overwrite-whole (x ∷ xs) [] h = absurd (omega arith)
  overwrite-whole (x ∷ xs) (y ∷ host) h = ap (◌∷◌ x) (overwrite-whole xs host (omega arith))

  -- The floats that a download leaves in every host vector.
  abbrev Settled : ℕ → ℕ → Side hip → Type 0
  Settled capacity tokens s =
      (floats : List Float) × ((host : List Float)
        → floats_of hip ops capacity tokens host s ≡ floats)
      × (length floats ≡ 4 * tokens * 256)

  settle :
      (tokens : ℕ) (floats host : List Float)
      → length floats ≡ 4 * tokens * 256
      → overwrite hip ops floats (resize hip ops (4 * tokens * 256) host) ≡ floats
  settle tokens floats host h =
      overwrite-whole floats (resize hip ops (4 * tokens * 256) host)
        (length-resize (4 * tokens * 256) host ∙ sym h)

  floats_of-Settled :
      (q8 : Bool) (capacity tokens : ℕ) (s : Side hip)
      → SideIsValid hip q8 capacity s
      → tokens ≤ capacity
      → Settled capacity tokens s
  unfolding floats_of filled
  floats_of-Settled false capacity tokens s (b, shape, sized) fits =
      let floats = halves hip ops (each 4 0 (fp16_row hip b capacity tokens)) in
      let count : length floats ≡ 4 * tokens * 256 =
        length-halves (4 * tokens * 256) (each 4 0 (fp16_row hip b capacity tokens)) (
          length-each 4 0 (tokens * 256 * 2) (fp16_row hip b capacity tokens)
            (λ j hi. length-fp16_row hip b capacity tokens j sized fits hi)
          ∙ omega arith) in
      (floats, (λ host. rw shape (settle tokens floats host count)), count)
  floats_of-Settled true capacity tokens s (q, c, shape, size_q, size_c) fits =
      let rows =
        length-each 4 0 (tokens * 256 * 1) (q8_row hip q capacity tokens)
          (λ j hi. length-q8_row hip q capacity tokens j size_q fits hi) in
      let scales =
        length-each 4 0 (tokens * 2) (scale_row hip c capacity tokens)
          (λ j hi. length-scale_row hip c capacity tokens j size_c fits hi) in
      let floats =
        dequantize hip ops (each 4 0 (scale_row hip c capacity tokens))
          (each 4 0 (q8_row hip q capacity tokens)) in
      let count : length floats ≡ 4 * tokens * 256 =
        length-dequantize (4 * tokens) (each 4 0 (scale_row hip c capacity tokens))
          (each 4 0 (q8_row hip q capacity tokens)) (omega (arith, scales)) (omega (arith, rows))
        ∙ omega arith in
      (floats, (λ host. rw shape (settle tokens floats host count)), count)

  -- On a valid cache, whatever its mode, download_key and download_value of tokens up to the
  -- capacity succeed, and each gives kKvHeads * kHeadDim floats for a token; two host vectors of
  -- whatever lengths and contents come to the same floats.
  pub download-length :
      (s : Storage hip) (host other : List Float) (tokens : ℕ)
      → IsValid hip s
      → tokens ≤ s.capacity
      → ((keys : List Float) × (download_key hip ops s host tokens ≡ ok keys)
          × (download_key hip ops s other tokens ≡ ok keys)
          × (length keys ≡ kv_heads * tokens * head_dim))
        × ((vals : List Float) × (download_value hip ops s host tokens ≡ ok vals)
            × (download_value hip ops s other tokens ≡ ok vals)
            × (length vals ≡ kv_heads * tokens * head_dim))
  unfolding download_key download_value
  download-length s host other tokens v fits =
      let inside : ltb s.capacity tokens ≡ false = ground arith in
      let (keys, same, count) =
        floats_of-Settled (is_k_q8 s.quant_mode) s.capacity tokens s.keys v.keys_valid fits in
      let (vals, same', count') =
        floats_of-Settled (is_v_q8 s.quant_mode) s.capacity tokens s.vals v.vals_valid fits in
      (
        (keys, rw inside (ap ok (same host)), rw inside (ap ok (same other)), count),
        (vals, rw inside (ap ok (same' host)), rw inside (ap ok (same' other)), count'),
      )
