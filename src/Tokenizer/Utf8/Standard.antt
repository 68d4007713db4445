-- ===== src/Tokenizer/Utf8/Standard.antt =====
-- Texts in UTF-8, described by their bytes alone, and that the tokenizer reads them all.
use miinfer.Prelude.{ℕ, ◌+◌, ◌*◌, ◌%◌, ◌<◌, ◌≡◌, refl, List, [], ◌∷◌, ok, ◌==◌, arith, subst}
use miinfer.Prelude.Below.{holds_below, holds_below-lem}
use miinfer.Tokenizer.Utf8.{bit_or, lead, codepoint}
use miinfer.Tokenizer.Utf8.RoundTrip.{
  tail_byte, two_bytes, three_bytes, four_bytes, follow_one, follow_two, follow_three, codepoint-ok,
}
use miinfer.Tokenizer.Utf8.Valid.{IsUtf8, IsUtf8-ascii, done, next}

-- 0xxxxxxx, 110xxxxx 10yyyyyy, 1110xxxx 10yyyyyy 10zzzzzz, 11110xxx 10yyyyyy 10zzzzzz 10wwwwww, one
-- behind the other. All valid UTF-8 is of this form.
pub data IsText : List ℕ → Type 0 where
  empty : IsText []
  ascii : (x : ℕ) (rest : List ℕ) → x < 128 → IsText rest → IsText (x ∷ rest)
  two :
      (x y : ℕ) (rest : List ℕ)
      → x < 32
      → y < 64
      → IsText rest
      → IsText ((192 + x) ∷ (128 + y) ∷ rest)
  three :
      (x y z : ℕ) (rest : List ℕ)
      → x < 16
      → y < 64
      → z < 64
      → IsText rest
      → IsText ((224 + x) ∷ (128 + y) ∷ (128 + z) ∷ rest)
  four :
      (x y z w : ℕ) (rest : List ℕ)
      → x < 8
      → y < 64
      → z < 64
      → w < 64
      → IsText rest
      → IsText ((240 + x) ∷ (128 + y) ∷ (128 + z) ∷ (128 + w) ∷ rest)

tail_byte_lem : (y : ℕ) → y < 64 → tail_byte y ≡ 128 + y
unfolding holds_below
tail_byte_lem y h =
    let same = holds_below-lem 64 (λ y. tail_byte y == (128 + y)) refl y h in ground arith

lead-two : (x : ℕ) → x < 32 → lead (192 + x) ≡ (x, 1)
unfolding holds_below
lead-two x h =
    let same = holds_below-lem 32 (λ x. bit_or 192 x % 256 == (192 + x)) refl x h in
    let byte : bit_or 192 x % 256 ≡ 192 + x = ground arith in
    subst (λ b. lead b ≡ (x, 1)) byte (two_bytes x h)

lead-three : (x : ℕ) → x < 16 → lead (224 + x) ≡ (x, 2)
unfolding holds_below
lead-three x h =
    let same = holds_below-lem 16 (λ x. bit_or 224 x % 256 == (224 + x)) refl x h in
    let byte : bit_or 224 x % 256 ≡ 224 + x = ground arith in
    subst (λ b. lead b ≡ (x, 2)) byte (three_bytes x h)

lead-four : (x : ℕ) → x < 8 → lead (240 + x) ≡ (x, 3)
unfolding holds_below
lead-four x h =
    let same = holds_below-lem 8 (λ x. bit_or 240 x % 256 == (240 + x)) refl x h in
    let byte : bit_or 240 x % 256 ≡ 240 + x = ground arith in
    subst (λ b. lead b ≡ (x, 3)) byte (four_bytes x h)

codepoint-two :
    (x y : ℕ) (rest : List ℕ)
    → x < 32
    → y < 64
    → codepoint (192 + x) ((128 + y) ∷ rest)
      ≡ ok (record { value = x * 64 + y; bytes = (192 + x) ∷ (128 + y) ∷ [] }, rest)
codepoint-two x y rest hx hy = rw (← tail_byte_lem y hy) (
    codepoint-ok (192 + x) x 1 (x * 64 + y) (tail_byte y ∷ rest) (tail_byte y ∷ []) rest
      (lead-two x hx) (omega arith) (follow_one x y rest hy))

codepoint-three :
    (x y z : ℕ) (rest : List ℕ)
    → x < 16
    → y < 64
    → z < 64
    → codepoint (224 + x) ((128 + y) ∷ (128 + z) ∷ rest)
      ≡ ok (
        record { value = (x * 64 + y) * 64 + z; bytes = (224 + x) ∷ (128 + y) ∷ (128 + z) ∷ [] },
        rest,
      )
codepoint-three x y z rest hx hy hz =
    rw (← tail_byte_lem y hy, ← tail_byte_lem z hz)
      (codepoint-ok (224 + x) x 2 ((x * 64 + y) * 64 + z) (tail_byte y ∷ tail_byte z ∷ rest)
        (tail_byte y ∷ tail_byte z ∷ []) rest (lead-three x hx) (omega arith)
        (follow_two x y z rest hy hz))

codepoint-four :
    (x y z w : ℕ) (rest : List ℕ)
    → x < 8
    → y < 64
    → z < 64
    → w < 64
    → codepoint (240 + x) ((128 + y) ∷ (128 + z) ∷ (128 + w) ∷ rest)
      ≡ ok (
        record {
          value = ((x * 64 + y) * 64 + z) * 64 + w;
          bytes = (240 + x) ∷ (128 + y) ∷ (128 + z) ∷ (128 + w) ∷ [];
        },
        rest,
      )
codepoint-four x y z w rest hx hy hz hw =
    rw (← tail_byte_lem y hy, ← tail_byte_lem z hz, ← tail_byte_lem w hw)
      (codepoint-ok (240 + x) x 3 (((x * 64 + y) * 64 + z) * 64 + w)
        (tail_byte y ∷ tail_byte z ∷ tail_byte w ∷ rest)
        (tail_byte y ∷ tail_byte z ∷ tail_byte w ∷ []) rest (lead-four x hx) (omega arith)
        (follow_three x y z w rest hy hz hw))

pub IsText-IsUtf8 : (text : List ℕ) → IsText text → IsUtf8 text
IsText-IsUtf8 _ empty = done
IsText-IsUtf8 _ (ascii x rest hx later) = IsUtf8-ascii x rest hx (IsText-IsUtf8 rest later)
IsText-IsUtf8 _ (two x y rest hx hy later) =
    next (192 + x) ((128 + y) ∷ rest) _ rest (codepoint-two x y rest hx hy)
      (IsText-IsUtf8 rest later)
IsText-IsUtf8 _ (three x y z rest hx hy hz later) =
    next (224 + x) ((128 + y) ∷ (128 + z) ∷ rest) _ rest (codepoint-three x y z rest hx hy hz)
      (IsText-IsUtf8 rest later)
IsText-IsUtf8 _ (four x y z w rest hx hy hz hw later) =
    next (240 + x) ((128 + y) ∷ (128 + z) ∷ (128 + w) ∷ rest) _ rest
      (codepoint-four x y z w rest hx hy hz hw) (IsText-IsUtf8 rest later)
