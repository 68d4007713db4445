-- ===== src/Workspace/Layout.antt =====
-- The regions of the arena tile it: in order, without overlap, up to the last byte.
use miinfer.Prelude.{
  ℕ, ◌+◌, ◌%◌, ◌≤◌, ◌<◌, ◌≡◌, refl, sym, ap, ◌∙◌, some, List, [], ◌∷◌, map, ok, err, arith, All,
  sum,
}
use miinfer.Prelude.Words.{word_mod}
use miinfer.Constants.{max_prefill_batch, gdn_chunk_size}
use miinfer.Workspace.{
  Region, raw_bytes, region_bytes, total_bytes, assignments, Placed, assign, Manager, Error,
  construct,
}
use miinfer.Workspace.Align.{align128_lem}
use miinfer.Workspace.Shapes.{needed, needed-raw_bytes}

-- Each region ends before every later one begins.
abbrev pub Ordered : List Placed → Type 0
Ordered [] = Unit {0}
Ordered (p ∷ ps) = All (λ q. p.start + p.bytes ≤ q.start) ps × Ordered ps

-- A region in the arena of `total` bytes at `base` that holds a buffer of its shape.
pub record Fits (tokens base total : ℕ) (p : Placed) : Type 0 where
  pub above : base ≤ p.start
  pub below : p.start + p.bytes ≤ base + total
  pub aligned : p.start % 128 ≡ 0
  pub enough : needed tokens p.region ≤ p.bytes

module _ (tokens : ℕ) (small : tokens ≤ 512) where
  raw_bytes-lt : (r : Region) → raw_bytes tokens r + 127 < 1000000000000
  unfolding raw_bytes
  raw_bytes-lt Region.normalized = omega arith
  raw_bytes-lt _ = omega arith

  region_bytes_lem :
      (r : Region)
      → (region_bytes tokens r % 128 ≡ 0)
        × (raw_bytes tokens r ≤ region_bytes tokens r)
        × (region_bytes tokens r < 1000000000000)
  unfolding region_bytes
  region_bytes_lem r =
      omega
        (arith, align128_lem (raw_bytes tokens r) (omega (arith, raw_bytes-lt r)), raw_bytes-lt r)

  needed-region_bytes : (r : Region) → needed tokens r ≤ region_bytes tokens r
  needed-region_bytes r = omega (arith, needed-raw_bytes tokens r, region_bytes_lem r)

  sizes : List Region → List ℕ
  sizes rs = map (region_bytes tokens) rs

  assign-above :
      (lo ptr : ℕ) (rs : List Region)
      → lo ≤ ptr
      → All (λ p. lo ≤ p.start) (assign (region_bytes tokens) ptr rs)
  unfolding assign
  assign-above lo ptr [] h = tt
  assign-above lo ptr (r ∷ rs) h =
      (h, assign-above lo (ptr + region_bytes tokens r) rs (omega arith))

  assign-Ordered : (ptr : ℕ) (rs : List Region) → Ordered (assign (region_bytes tokens) ptr rs)
  unfolding assign
  assign-Ordered ptr [] = tt
  assign-Ordered ptr (r ∷ rs) = (
    assign-above (ptr + region_bytes tokens r) (ptr + region_bytes tokens r) rs (omega arith),
    assign-Ordered (ptr + region_bytes tokens r) rs,
  )

  assign-Fits :
      (base total ptr : ℕ) (rs : List Region)
      → base ≤ ptr
      → ptr + sum (map (region_bytes tokens) rs) ≤ base + total
      → ptr % 128 ≡ 0
      → All (Fits tokens base total) (assign (region_bytes tokens) ptr rs)
  unfolding assign
  assign-Fits base total ptr [] lo hi al = tt
  assign-Fits base total ptr (r ∷ rs) lo hi al =
      let (mult, _, _) = region_bytes_lem r in
      (
        record { above = lo; below = omega arith; aligned = al; enough = needed-region_bytes r },
        assign-Fits base total (ptr + region_bytes tokens r) rs (omega arith) (omega arith)
            (omega arith),
      )

assign-regions :
    (size : Region → ℕ) (ptr : ℕ) (rs : List Region) → map (λ p. p.region) (assign size ptr rs) ≡ rs
unfolding assign
assign-regions size ptr [] = refl
assign-regions size ptr (r ∷ rs) = ap (λ l. r ∷ l) (assign-regions size (ptr + size r) rs)

-- The total of the source is the sum over the assignments: no region is forgotten in either.
pub total_bytes-sum :
    (tokens : ℕ) → total_bytes tokens ≡ sum (map (region_bytes tokens) assignments)
unfolding total_bytes region_bytes
total_bytes-sum tokens = omega arith

total_bytes-lt : (tokens : ℕ) → tokens ≤ 512 → total_bytes tokens < word_mod
unfolding total_bytes
total_bytes-lt tokens small = omega (arith, λ (r : Region). (region_bytes_lem tokens small r).2)

-- The arena of a manager for `tokens` tokens, in a block of device memory at `base`.
pub record IsArena (tokens base : ℕ) (m : Manager) : Type 0 where
  pub sized : m.max_tokens ≡ tokens
  pub owned : m.buffer ≡ some base
  pub complete : map (λ p. p.region) m.workspace ≡ assignments
  pub ordered : Ordered m.workspace
  pub fits : All (Fits tokens base m.total) m.workspace
  pub tight : sum (map (λ p. p.bytes) m.workspace) ≡ m.total
  pub bounded : m.total < word_mod

-- The token counts that the constructor takes.
abbrev pub IsValid : ℕ → Type 0
IsValid tokens = (0 < tokens) × (tokens ≤ max_prefill_batch) × (tokens % gdn_chunk_size ≡ 0)

assign-bytes :
    (size : Region → ℕ) (ptr : ℕ) (rs : List Region)
    → map (λ p. p.bytes) (assign size ptr rs) ≡ map size rs
unfolding assign
assign-bytes size ptr [] = refl
assign-bytes size ptr (r ∷ rs) = ap (λ l. size r ∷ l) (assign-bytes size (ptr + size r) rs)

arena :
    (tokens base : ℕ)
    → tokens ≤ 512
    → base % 128 ≡ 0
    → IsArena tokens base (record {
      max_tokens = tokens;
      total = total_bytes tokens;
      buffer = some base;
      workspace = assign (region_bytes tokens) base assignments;
    })
arena tokens base small al = record {
  sized = refl;
  owned = refl;
  complete = assign-regions (region_bytes tokens) base assignments;
  ordered = assign-Ordered tokens small base assignments;
  fits =
      assign-Fits tokens small base (total_bytes tokens) base assignments (omega arith)
        (omega (arith, total_bytes-sum tokens)) al;
  tight =
      ap sum (assign-bytes (region_bytes tokens) base assignments) ∙ sym (total_bytes-sum tokens);
  bounded = total_bytes-lt tokens small;
}

-- For a token count that is a positive multiple of 64 up to 512, where the block that hipMalloc returns
-- starts at a multiple of 128, the constructor succeeds, and the regions tile the block in order: they
-- are 128-aligned, do not overlap, are each as large as the shape of the buffer asks for, and take all of its bytes,
-- which fit 64 bits.
pub construct-IsArena :
    (malloc : ℕ → ℕ) (tokens : ℕ)
    → IsValid tokens
    → malloc (total_bytes tokens) % 128 ≡ 0
    → (m : Manager) × (construct malloc tokens ≡ ok m)
      × IsArena tokens (malloc (total_bytes tokens)) m
unfolding construct
construct-IsArena malloc tokens v al = (
  record {
    max_tokens = tokens;
    total = total_bytes tokens;
    buffer = some (malloc (total_bytes tokens));
    workspace = assign (region_bytes tokens) (malloc (total_bytes tokens)) assignments;
  },
  ground arith,
  arena tokens (malloc (total_bytes tokens)) v.1 al,
)

-- For every other token count the constructor throws.
pub construct-err :
    (malloc : ℕ → ℕ) (tokens : ℕ)
    → ¬ IsValid tokens
    → construct malloc tokens ≡ err (Error.invalid_max_tokens tokens)
unfolding construct
construct-err malloc tokens v = ground arith
