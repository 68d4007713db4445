-- ===== src/KvCache/Transfer.antt =====
-- A snapshot of the first tokens, taken from one storage and loaded into another.
use native.Mathlib.Nat.{mul-le-mul_right}
use miinfer.Prelude.{
  ℕ, zero, suc, ◌+◌, ◌*◌, ◌≤◌, ◌<◌, ◌≡◌, refl, sym, ap, ap₂, subst, ◌∙◌, Bool, true, false, some,
  none, List, [], ◌++◌, ok, arith, length, drop, length-append, append_assoc,
}
use miinfer.Device.{Hip}
use miinfer.KvCache.{
  QuantMode, fp16_fp16, q8_fp16, fp16_q8, q8_q8, is_k_q8, is_v_q8, each, q8_bytes, scale_bytes,
  fp16_bytes, raw_tokens_bytes, Side, Storage, fp16_row, q8_row, scale_row, download_side,
  download_raw, upload_side, upload_raw,
}
use miinfer.KvCache.Rows.{
  upload_fp16-Stored, upload_q8-Stored, fp16_row-Stored, q8_row-Stored, scale_row-Stored,
}

pub each-cong {ℓ} :
    {A : Type ℓ} (n h : ℕ) (f g : ℕ → List A)
    → ((j : ℕ) → h ≤ j → j < h + n → f j ≡ g j)
    → each n h f ≡ each n h g
unfolding each
each-cong zero h f g e = refl
each-cong (suc n) h f g e =
    ap₂ ◌++◌ (e h (omega arith) (omega arith))
      (each-cong n (h + 1) f g (λ j lo hi. e j (omega arith) (omega arith)))

pub length-each {ℓ} :
    {A : Type ℓ} (n h len : ℕ) (f : ℕ → List A)
    → ((j : ℕ) → j < h + n → length (f j) ≡ len)
    → length (each n h f) ≡ n * len
unfolding each
length-each zero h len f e = omega arith
length-each (suc n) h len f e = omega (
  arith,
  length-append (f h) (each n (h + 1) f),
  e h (omega arith),
  length-each n (h + 1) len f (λ j hi. e j (omega arith)),
)

module _ (hip : Hip) where
  open hip use {Buffer, size, read, write, malloc, clear, size-malloc, size-clear, length-read}

  -- The buffers that a side has in its mode, and their sizes.
  abbrev pub SideIsValid : Bool → ℕ → Side hip → Type 0
  SideIsValid true capacity s =
      (q : Buffer) × (c : Buffer) × (s
        ≡ record { cache = none; cache_q8 = some q; scales = some c })
      × (size q ≡ q8_bytes capacity)
      × (size c ≡ scale_bytes capacity)
  SideIsValid false capacity s =
      (b : Buffer) × (s ≡ record { cache = some b; cache_q8 = none; scales = none })
      × (size b ≡ fp16_bytes capacity)

  pub record IsValid (s : Storage hip) : Type 0 where
    pub positive : 0 < s.capacity
    pub keys_valid : SideIsValid (is_k_q8 s.quant_mode) s.capacity s.keys
    pub vals_valid : SideIsValid (is_v_q8 s.quant_mode) s.capacity s.vals

  -- The bytes of one side for a token and head: 256 bytes and a scale, or 256 halves.
  abbrev pub side_bytes : Bool → ℕ → ℕ
  side_bytes true tokens = 4 * (tokens * 256 * 1 + tokens * 2)
  side_bytes false tokens = 4 * (tokens * 256 * 2)

  pub length-fp16_row :
      (b : Buffer) (capacity tokens j : ℕ)
      → size b ≡ fp16_bytes capacity
      → tokens ≤ capacity
      → j < 4
      → length (fp16_row hip b capacity tokens j) ≡ tokens * 256 * 2
  length-fp16_row b capacity tokens j sized fits lt =
      length-read b _ _ (omega (arith, mul-le-mul_right {m = j} {n = 3} capacity (omega arith)))

  pub length-q8_row :
      (b : Buffer) (capacity tokens j : ℕ)
      → size b ≡ q8_bytes capacity
      → tokens ≤ capacity
      → j < 4
      → length (q8_row hip b capacity tokens j) ≡ tokens * 256 * 1
  length-q8_row b capacity tokens j sized fits lt =
      length-read b _ _ (omega (arith, mul-le-mul_right {m = j} {n = 3} capacity (omega arith)))

  pub length-scale_row :
      (b : Buffer) (capacity tokens j : ℕ)
      → size b ≡ scale_bytes capacity
      → tokens ≤ capacity
      → j < 4
      → length (scale_row hip b capacity tokens j) ≡ tokens * 2
  length-scale_row b capacity tokens j sized fits lt =
      length-read b _ _ (omega (arith, mul-le-mul_right {m = j} {n = 3} capacity (omega arith)))

  length-download_side :
      (q8 : Bool) (capacity tokens : ℕ) (s : Side hip)
      → SideIsValid q8 capacity s
      → tokens ≤ capacity
      → length (download_side hip capacity tokens s) ≡ side_bytes q8 tokens
  unfolding download_side
  length-download_side true capacity tokens s (q, c, shape, size_q, size_c) fits = rw shape (
      length-each 4 0 (tokens * 256 * 1 + tokens * 2) _ λ j hi.
        length-append (q8_row hip q capacity tokens j) (scale_row hip c capacity tokens j)
        ∙ ap₂ ◌+◌ (length-q8_row q capacity tokens j size_q fits hi)
            (length-scale_row c capacity tokens j size_c fits hi))
  length-download_side false capacity tokens s (b, shape, size_b) fits = rw shape (
      length-each 4 0 (tokens * 256 * 2) _
        λ j hi. length-fp16_row b capacity tokens j size_b fits hi)

  -- What a side holds after an upload: the rows of the snapshot, and in each head the tokens behind
  -- them as they were.
  pub record Loaded (q8 : Bool) (capacity tokens : ℕ) (snapshot : List ℕ) (t t' : Side hip)
      : Type 0 where
    pub valid : SideIsValid q8 capacity t'
    pub shows : download_side hip capacity tokens t' ≡ snapshot

  side_transfer :
      (q8 : Bool) (cs ct tokens offset : ℕ) (s t : Side hip) (src rest : List ℕ)
      → SideIsValid q8 cs s
      → SideIsValid q8 ct t
      → tokens ≤ cs
      → tokens ≤ ct
      → drop offset src ≡ download_side hip cs tokens s ++ rest
      → (t' : Side hip) × (end : ℕ) × (upload_side hip src ct tokens offset t ≡ ok (t', end))
        × (drop end src ≡ rest)
        × Loaded q8 ct tokens (download_side hip cs tokens s) t t'
  unfolding download_side upload_side
  side_transfer false cs ct tokens offset s t src rest (b, shape_s, size_b) (d, shape_t, size_d) fs
        ft e =
      let (d', end, up, left, stored) =
        upload_fp16-Stored hip src rest ct tokens 4 0 offset (fp16_row hip b cs tokens) d ft
          (λ j hi. length-fp16_row b cs tokens j size_b fs hi) (omega arith) (rw shape_s at e) in
      (
        record { cache = some d'; cache_q8 = none; scales = none },
        end,
        rw (shape_t, up),
        left,
        record {
          valid = (d', refl, stored.same_size ∙ size_d);
          shows = rw shape_s (
              each-cong 4 0 (fp16_row hip d' ct tokens) (fp16_row hip b cs tokens)
                λ j _ hi. fp16_row-Stored hip ct tokens j _ d d' stored hi);
        },
      )
  side_transfer true cs ct tokens offset s t src rest (q, c, shape_s, size_q, size_c)
        (p, d, shape_t, size_p, size_d) fs ft e =
      let (p', d', end, up, left, stored_q, stored_c) =
        upload_q8-Stored hip src rest ct tokens 4 0 offset (q8_row hip q cs tokens)
          (scale_row hip c cs tokens) p d ft (λ j hi. length-q8_row q cs tokens j size_q fs hi)
          (λ j hi. length-scale_row c cs tokens j size_c fs hi) (omega arith) (omega arith)
          (rw shape_s at e) in
      (
        record { cache = none; cache_q8 = some p'; scales = some d' },
        end,
        rw (shape_t, up),
        left,
        record {
          valid = (p', d', refl, stored_q.same_size ∙ size_p, stored_c.same_size ∙ size_d);
          shows = rw shape_s (
              each-cong 4 0 (λ h. q8_row hip p' ct tokens h ++ scale_row hip d' ct tokens h)
                (λ h. q8_row hip q cs tokens h ++ scale_row hip c cs tokens h)
                λ j _ hi.
                  ap₂ ◌++◌ (q8_row-Stored hip ct tokens j _ p p' stored_q hi)
                    (scale_row-Stored hip ct tokens j _ d d' stored_c hi));
        },
      )

  -- raw_tokens_bytes is what download_raw writes.
  bytes_of_sides :
      (mode : QuantMode) (tokens : ℕ)
      → side_bytes (is_k_q8 mode) tokens + side_bytes (is_v_q8 mode) tokens
        ≡ raw_tokens_bytes mode tokens
  unfolding is_k_q8 is_v_q8 raw_tokens_bytes
  bytes_of_sides fp16_fp16 tokens = omega arith
  bytes_of_sides q8_fp16 tokens = omega arith
  bytes_of_sides fp16_q8 tokens = omega arith
  bytes_of_sides q8_q8 tokens = omega arith

  download_suc :
      (s : Storage hip) (n : ℕ)
      → suc n ≤ s.capacity
      → download_raw hip s true (suc n)
        ≡ ok (
            download_side hip s.capacity (suc n) s.keys
            ++ download_side hip s.capacity (suc n) s.vals)
  unfolding download_raw
  download_suc s n fits = ground arith

  no_bytes : (mode : QuantMode) → raw_tokens_bytes mode 0 ≡ 0
  unfolding raw_tokens_bytes
  no_bytes fp16_fp16 = refl
  no_bytes _ = refl

  -- On a valid storage download_raw of tokens up to the capacity succeeds, and writes
  -- raw_tokens_bytes bytes.
  pub download_raw-length :
      (s : Storage hip) (tokens : ℕ)
      → IsValid s
      → tokens ≤ s.capacity
      → (bytes : List ℕ) × (download_raw hip s true tokens ≡ ok bytes)
        × (length bytes ≡ raw_tokens_bytes s.quant_mode tokens)
  unfolding download_raw
  download_raw-length s zero v fits = ([], ground arith, sym (no_bytes s.quant_mode))
  download_raw-length s (suc n) v fits =
      let ks = download_side hip s.capacity (suc n) s.keys in
      let vs = download_side hip s.capacity (suc n) s.vals in
      (
        ks ++ vs,
        download_suc s n fits,
        length-append ks vs
            ∙ ap₂ ◌+◌
                (length-download_side (is_k_q8 s.quant_mode) s.capacity (suc n) s.keys v.keys_valid
                  fits)
                (length-download_side (is_v_q8 s.quant_mode) s.capacity (suc n) s.vals v.vals_valid
                  fits)
            ∙ bytes_of_sides s.quant_mode (suc n),
      )

  -- The snapshot of the first tokens of one storage, loaded into another of the same mode with room
  -- for them, is what the other shows of those tokens afterwards; bytes behind it are ignored. The
  -- other keeps its capacity and mode and stays valid.
  pub upload_raw-download_raw :
      (s t : Storage hip) (tokens : ℕ) (bytes rest : List ℕ)
      → IsValid s
      → IsValid t
      → s.quant_mode ≡ t.quant_mode
      → tokens ≤ t.capacity
      → download_raw hip s true tokens ≡ ok bytes
      → (t' : Storage hip) × (upload_raw hip t (some (bytes ++ rest)) tokens ≡ ok t')
        × (download_raw hip t' true tokens ≡ ok bytes)
        × (t'.capacity ≡ t.capacity)
        × (t'.quant_mode ≡ t.quant_mode)
        × IsValid t'
  unfolding download_raw upload_raw
  upload_raw-download_raw s t zero bytes rest vs vt mode fits e =
      (t, ground arith, ground arith, refl, refl, vt)
  upload_raw-download_raw s t (suc n) bytes rest vs vt mode fits e =
      let room : suc n ≤ s.capacity = ground arith in
      let ks = download_side hip s.capacity (suc n) s.keys in
      let ws = download_side hip s.capacity (suc n) s.vals in
      let whole : ks ++ ws ≡ bytes = ground arith in
      let (keys, middle, up, left, loaded) =
        side_transfer (is_k_q8 t.quant_mode) s.capacity t.capacity (suc n) 0 s.keys t.keys
          (bytes ++ rest) (ws ++ rest)
          (subst (λ m. SideIsValid (is_k_q8 m) s.capacity s.keys) mode vs.keys_valid) vt.keys_valid
          room fits (rw (← whole) (append_assoc ks ws rest)) in
      let (vals, end, up', left', loaded') =
        side_transfer (is_v_q8 t.quant_mode) s.capacity t.capacity (suc n) middle s.vals t.vals
          (bytes ++ rest) rest
          (subst (λ m. SideIsValid (is_v_q8 m) s.capacity s.vals) mode vs.vals_valid) vt.vals_valid
          room fits left in
      (
        record t { keys = keys; vals = vals },
        ground arith,
        download_suc (record t { keys = keys; vals = vals }) n fits
            ∙ ap ok (ap₂ ◌++◌ loaded.shows loaded'.shows ∙ whole),
        refl,
        refl,
        record { positive = vt.positive; keys_valid = loaded.valid; vals_valid = loaded'.valid },
      )
