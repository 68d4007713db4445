-- ===== src/KvCache/Lifetime.antt =====
-- From construction to release: which buffers a storage has, and how large they are.
use miinfer.Prelude.{
  ℕ, ◌+◌, ◌*◌, ◌<◌, ◌≡◌, refl, ◌∙◌, Bool, true, false, Option, some, none, List, [], ◌∷◌, ok, arith,
  if◌then◌else◌,
}
use miinfer.Device.{Hip}
use miinfer.KvCache.{
  QuantMode, is_k_q8, is_v_q8, q8_bytes, scale_bytes, fp16_bytes, Side, Storage, allocate,
  clear_all, reset_side, reset, construct, release, total_bytes, key_bytes, value_bytes,
}
use miinfer.Constants.{kv_heads, head_dim}
use miinfer.KvCache.Transfer.{SideIsValid, IsValid}

module _ (hip : Hip) where
  open hip use {Buffer, size, malloc, clear, size-malloc, size-clear}

  allocate-IsValid :
      (q8 : Bool) (capacity : ℕ) → SideIsValid hip q8 capacity (allocate hip q8 capacity)
  unfolding allocate
  allocate-IsValid true capacity = (
    malloc (q8_bytes capacity),
    malloc (scale_bytes capacity),
    refl,
    size-malloc _,
    size-malloc _,
  )
  allocate-IsValid false capacity = (malloc (fp16_bytes capacity), refl, size-malloc _)

  reset_side-IsValid :
      (q8 : Bool) (capacity : ℕ) (s : Side hip)
      → SideIsValid hip q8 capacity s
      → SideIsValid hip q8 capacity (reset_side hip capacity s)
  unfolding reset_side clear_all
  reset_side-IsValid true capacity s (q, c, shape, size_q, size_c) = (
    clear q (q8_bytes capacity),
    clear c (scale_bytes capacity),
    rw shape refl,
    size-clear q _ ∙ size_q,
    size-clear c _ ∙ size_c,
  )
  reset_side-IsValid false capacity s (b, shape, size_b) =
      (clear b (fp16_bytes capacity), rw shape refl, size-clear b _ ∙ size_b)

  pub reset-IsValid : (s : Storage hip) → IsValid hip s → IsValid hip (reset hip s)
  unfolding reset
  reset-IsValid s v = record {
    positive = v.positive;
    keys_valid = reset_side-IsValid (is_k_q8 s.quant_mode) s.capacity s.keys v.keys_valid;
    vals_valid = reset_side-IsValid (is_v_q8 s.quant_mode) s.capacity s.vals v.vals_valid;
  }

  -- The constructor refuses the capacity 0 and makes a valid storage of any other.
  pub construct-IsValid :
      (capacity : ℕ) (mode : QuantMode)
      → 0 < capacity
      → (s : Storage hip) × (construct hip capacity mode ≡ ok s)
        × (s.capacity ≡ capacity)
        × (s.quant_mode ≡ mode)
        × IsValid hip s
  unfolding construct
  construct-IsValid capacity mode pos =
      let s : Storage hip = record {
        capacity = capacity;
        quant_mode = mode;
        keys = allocate hip (is_k_q8 mode) capacity;
        vals = allocate hip (is_v_q8 mode) capacity;
      } in
      (
        reset hip s,
        ground arith,
        unfold reset in refl,
        unfold reset in refl,
        reset-IsValid s (record {
          positive = pos;
          keys_valid = allocate-IsValid (is_k_q8 mode) capacity;
          vals_valid = allocate-IsValid (is_v_q8 mode) capacity;
        }),
      )

  -- The bytes of device memory that the buffers of a storage take, nullptr being none.
  abbrev pub allocated : List (Option Buffer) → ℕ
  allocated [] = 0
  allocated (none ∷ rest) = allocated rest
  allocated (some b ∷ rest) = size b + allocated rest

  -- The buffers of one side, ahead of others.
  side_allocated :
      (q8 : Bool) (capacity : ℕ) (s : Side hip) (rest : List (Option Buffer))
      → SideIsValid hip q8 capacity s
      → allocated (s.cache ∷ s.cache_q8 ∷ s.scales ∷ rest)
        ≡ (if q8
            then capacity * kv_heads * (head_dim * 1 + 2)
            else capacity * kv_heads * head_dim * 2)
          + allocated rest
  side_allocated true capacity s rest (q, c, shape, size_q, size_c) = rw shape omega arith
  side_allocated false capacity s rest (b, shape, size_b) = rw shape omega arith

  -- What total_bytes reports is the size of the buffers that a valid storage has.
  pub release-total_bytes :
      (s : Storage hip)
      → IsValid hip s
      → allocated (release hip s) ≡ total_bytes s.capacity s.quant_mode
  unfolding release total_bytes key_bytes value_bytes
  release-total_bytes s v =
      let vals = s.vals.cache ∷ s.vals.cache_q8 ∷ s.vals.scales ∷ [] in
      omega (
        arith,
        side_allocated (is_k_q8 s.quant_mode) s.capacity s.keys vals v.keys_valid,
        side_allocated (is_v_q8 s.quant_mode) s.capacity s.vals [] v.vals_valid,
      )
