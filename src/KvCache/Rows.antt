-- ===== src/KvCache/Rows.antt =====
-- The upload loops store row after row, and touch nothing else.
use native.Mathlib.Nat.{mul-le-mul_right}
use miinfer.Prelude.{
  ℕ, zero, suc, ◌+◌, ◌*◌, ◌≤◌, ◌<◌, ◌≡◌, refl, sym, ap, subst, ◌∙◌, ◌⊎◌, inl, inr, List, ◌++◌, ok,
  arith, length, take, drop, length-append, take-append, drop-append, drop-drop, append_assoc,
  dec_lt, ℕ_discrete,
}
use miinfer.Device.{Hip}
use miinfer.KvCache.{each, slice, upload_fp16, upload_q8, fp16_row, q8_row, scale_row}

-- A slice that is there.
slice_lem :
    (src xs ys : List ℕ) (offset n : ℕ)
    → drop offset src ≡ xs ++ ys
    → length xs ≡ n
    → (slice src offset n ≡ ok xs) × (drop (offset + n) src ≡ ys)
unfolding slice
slice_lem src xs ys offset n e h = (
  ground (arith, ap length e, length-append xs ys, take-append n xs ys h, ap (take n) e),
  sym (drop-drop offset n src) ∙ ap (drop n) e ∙ drop-append n xs ys h,
)

module _ (hip : Hip) where
  open hip use {Buffer, size, read, write, size-write, length-read, read-write, read-write_apart}

  -- After the loop over n heads from h on: heads below h are as before, and head j holds f j.
  pub record Stored (stride len n h : ℕ) (f : ℕ → List ℕ) (b b' : Buffer) : Type 0 where
    pub kept : (p k : ℕ) → p + k ≤ h * stride → read b' p k ≡ read b p k
    pub row : (j : ℕ) → h ≤ j → j < h + n → read b' (j * stride) len ≡ f j
    pub gap :
        (j p k : ℕ) → j * stride + len ≤ p → p + k ≤ (j + 1) * stride → read b' p k ≡ read b p k
    pub same_size : size b' ≡ size b

  Stored-none : (stride len h : ℕ) (f : ℕ → List ℕ) (b : Buffer) → Stored stride len 0 h f b b
  Stored-none stride len h f b = record {
    kept = λ p k _. refl;
    row = λ j lo hi. absurd (omega arith);
    gap = λ j p k _ _. refl;
    same_size = refl;
  }

  Stored-step :
      (stride len n h : ℕ) (f : ℕ → List ℕ) (b b' : Buffer)
      → len ≤ stride
      → length (f h) ≡ len
      → h * stride + stride ≤ size b
      → Stored stride len n (h + 1) f (write b (h * stride) (f h)) b'
      → Stored stride len (suc n) h f b b'
  Stored-step stride len n h f b b' fits whole room later = record {
    kept = λ p k lt.
        later.kept p k (omega arith)
        ∙ read-write_apart b (h * stride) p k (f h) (omega arith) (inl lt);
    row = λ j lo hi. elim (ℕ_discrete j h) [
      | yes here ↦
          let first = read-write b (h * stride) len (f h) whole (omega arith) in
          rw here (later.kept (h * stride) len (omega arith) ∙ first)
      | no above ↦ later.row j (omega arith) (omega arith)
    ];
    gap = λ j p k lo hi.
        later.gap j p k lo hi
        ∙ read-write_apart b (h * stride) p k (f h) (omega arith) (side j p k lo hi);
    same_size = later.same_size ∙ size-write b (h * stride) (f h);
  }
    where
      side :
          (j p k : ℕ)
          → j * stride + len ≤ p
          → p + k ≤ (j + 1) * stride
          → (p + k ≤ h * stride) ⊎ (h * stride + length (f h) ≤ p)
      side j p k lo hi = elim (dec_lt j h) [
        | yes below ↦ inl (omega (arith, mul-le-mul_right {m = j + 1} {n = h} stride (omega arith)))
        | no not_below ↦ inr (omega (arith, mul-le-mul_right {m = h} {n = j} stride (omega arith)))
      ]

  -- The half buffer of a side, loaded from a stream of rows.
  pub upload_fp16-Stored :
      (src rest : List ℕ) (capacity tokens n h offset : ℕ) (f : ℕ → List ℕ) (b : Buffer)
      → tokens ≤ capacity
      → ((j : ℕ) → j < h + n → length (f j) ≡ tokens * 256 * 2)
      → (h + n) * (capacity * 256 * 2) ≤ size b
      → drop offset src ≡ each n h f ++ rest
      → (b' : Buffer) × (end : ℕ) × (upload_fp16 hip src capacity tokens n h offset b
          ≡ ok (b', end))
        × (drop end src ≡ rest)
        × Stored (capacity * 256 * 2) (tokens * 256 * 2) n h f b b'
  unfolding upload_fp16 each
  upload_fp16-Stored src rest capacity tokens zero h offset f b fits whole room e =
      (b, offset, refl, e, Stored-none (capacity * 256 * 2) (tokens * 256 * 2) h f b)
  upload_fp16-Stored src rest capacity tokens (suc n) h offset f b fits whole room e =
      let stride = capacity * 256 * 2 in
      let len = tokens * 256 * 2 in
      let b1 = write b (h * stride) (f h) in
      let address : h * capacity * 256 * 2 ≡ h * stride = omega arith in
      let (cut, behind) =
        slice_lem src (f h) (each n (h + 1) f ++ rest) offset len
          (e ∙ append_assoc (f h) (each n (h + 1) f) rest) (whole h (omega arith)) in
      let (b', end, up, left, stored) =
        upload_fp16-Stored src rest capacity tokens n (h + 1) (offset + len) f b1 fits
          (λ j hi. whole j (omega arith)) (omega (arith, size-write b (h * stride) (f h))) behind in
      (
        b',
        end,
        rw (cut, address) up,
        left,
        Stored-step stride len n h f b b' (omega arith) (whole h (omega arith)) (omega arith)
            stored,
      )

  -- The byte and scale buffers of a side, loaded from a stream of rows with their scales.
  pub upload_q8-Stored :
      (src rest : List ℕ) (capacity tokens n h offset : ℕ) (f g : ℕ → List ℕ) (q c : Buffer)
      → tokens ≤ capacity
      → ((j : ℕ) → j < h + n → length (f j) ≡ tokens * 256 * 1)
      → ((j : ℕ) → j < h + n → length (g j) ≡ tokens * 2)
      → (h + n) * (capacity * 256 * 1) ≤ size q
      → (h + n) * (capacity * 2) ≤ size c
      → drop offset src ≡ each n h (λ j. f j ++ g j) ++ rest
      → (q' : Buffer) × (c' : Buffer) × (end : ℕ) × (upload_q8 hip src capacity tokens n h offset q
            c
          ≡ ok (q', c', end))
        × (drop end src ≡ rest)
        × Stored (capacity * 256 * 1) (tokens * 256 * 1) n h f q q'
        × Stored (capacity * 2) (tokens * 2) n h g c c'
  unfolding upload_q8 each
  upload_q8-Stored src rest capacity tokens zero h offset f g q c fits wf wg rq rc e = (
    q,
    c,
    offset,
    refl,
    e,
    Stored-none (capacity * 256 * 1) (tokens * 256 * 1) h f q,
    Stored-none (capacity * 2) (tokens * 2) h g c,
  )
  upload_q8-Stored src rest capacity tokens (suc n) h offset f g q c fits wf wg rq rc e =
      let stride = capacity * 256 * 1 in
      let len = tokens * 256 * 1 in
      let q1 = write q (h * stride) (f h) in
      let c1 = write c (h * (capacity * 2)) (g h) in
      let address : h * capacity * 256 * 1 ≡ h * stride = omega arith in
      let scale_address : h * capacity * 2 ≡ h * (capacity * 2) = omega arith in
      let more = each n (h + 1) (λ j. f j ++ g j) ++ rest in
      let (cut, behind) =
        slice_lem src (f h) (g h ++ more) offset len
          (e
            ∙ append_assoc (f h ++ g h) (each n (h + 1) (λ j. f j ++ g j)) rest
            ∙ append_assoc (f h) (g h) more)
          (wf h (omega arith)) in
      let (cut', behind') =
        slice_lem src (g h) more (offset + len) (tokens * 2) behind (wg h (omega arith)) in
      let (q', c', end, up, left, stored_q, stored_c) =
        upload_q8-Stored src rest capacity tokens n (h + 1) (offset + len + tokens * 2) f g q1 c1
          fits (λ j hi. wf j (omega arith)) (λ j hi. wg j (omega arith))
          (omega (arith, size-write q (h * stride) (f h)))
          (omega (arith, size-write c (h * (capacity * 2)) (g h))) behind' in
      (
        q',
        c',
        end,
        rw (cut, cut', address, scale_address) up,
        left,
        Stored-step stride len n h f q q' (omega arith) (wf h (omega arith)) (omega arith) stored_q,
        Stored-step (capacity * 2) (tokens * 2) n h g c c' (omega arith) (wg h (omega arith))
            (omega arith) stored_c,
      )

  -- The stored rows, at the addresses that the code computes.
  pub fp16_row-Stored :
      (capacity tokens j : ℕ) (f : ℕ → List ℕ) (b b' : Buffer)
      → Stored (capacity * 256 * 2) (tokens * 256 * 2) 4 0 f b b'
      → j < 4
      → fp16_row hip b' capacity tokens j ≡ f j
  fp16_row-Stored capacity tokens j f b b' st lt =
      let address : j * (capacity * 256 * 2) ≡ j * capacity * 256 * 2 = omega arith in
      subst (λ a. read b' a (tokens * 256 * 2) ≡ f j) address (st.row j (omega arith) (omega arith))

  pub q8_row-Stored :
      (capacity tokens j : ℕ) (f : ℕ → List ℕ) (b b' : Buffer)
      → Stored (capacity * 256 * 1) (tokens * 256 * 1) 4 0 f b b'
      → j < 4
      → q8_row hip b' capacity tokens j ≡ f j
  q8_row-Stored capacity tokens j f b b' st lt =
      let address : j * (capacity * 256 * 1) ≡ j * capacity * 256 * 1 = omega arith in
      subst (λ a. read b' a (tokens * 256 * 1) ≡ f j) address (st.row j (omega arith) (omega arith))

  pub scale_row-Stored :
      (capacity tokens j : ℕ) (f : ℕ → List ℕ) (b b' : Buffer)
      → Stored (capacity * 2) (tokens * 2) 4 0 f b b'
      → j < 4
      → scale_row hip b' capacity tokens j ≡ f j
  scale_row-Stored capacity tokens j f b b' st lt =
      let address : j * (capacity * 2) ≡ j * capacity * 2 = omega arith in
      subst (λ a. read b' a (tokens * 2) ≡ f j) address (st.row j (omega arith) (omega arith))
