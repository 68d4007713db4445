-- ===== src/Tokenizer/Utf8/RoundTrip.antt =====
-- The bytes of a code point are read as that code point.
use Prim.Native.Nat.{bit_and}
use miinfer.Prelude.{
  ℕ, suc, ◌+◌, ◌*◌, ◌/◌, ◌%◌, ◌≤◌, ◌<◌, ◌≡◌, refl, ap, ◌∙◌, Bool, true, ◌&&◌, List, [], ◌∷◌, ◌++◌,
  ok, ◌>>=◌, ◌==◌, leb, le→leb, length, arith, subst, append-nil, Bool-cases, inl, inr,
}
use miinfer.Prelude.Below.{holds_below, holds_below-lem}
use miinfer.Prelude.Bits.{bit_and_mask}
use miinfer.Tokenizer.Utf8.{bit_or, lead, follow, codepoint, codepoints_loop, codepoints, utf8}

-- The test that a first byte has a value and a number of continuation bytes.
leads : ℕ → ℕ → ℕ → Bool
unfolding lead
leads byte value count = ((lead byte).0 == value) && ((lead byte).1 == count)

leads-lem : (byte value count : ℕ) → leads byte value count ≡ true → lead byte ≡ (value, count)
unfolding leads
leads-lem byte value count h = ground arith

pub one_byte : (x : ℕ) → x < 128 → lead (x % 256) ≡ (x, 0)
unfolding leads holds_below lead
one_byte x h = leads-lem (x % 256) x 0 (holds_below-lem 128 (λ x. leads (x % 256) x 0) refl x h)

pub two_bytes : (x : ℕ) → x < 32 → lead (bit_or 192 x % 256) ≡ (x, 1)
unfolding leads holds_below lead
two_bytes x h =
    leads-lem (bit_or 192 x % 256) x 1
      (holds_below-lem 32 (λ x. leads (bit_or 192 x % 256) x 1) refl x h)

pub three_bytes : (x : ℕ) → x < 16 → lead (bit_or 224 x % 256) ≡ (x, 2)
unfolding leads holds_below lead
three_bytes x h =
    leads-lem (bit_or 224 x % 256) x 2
      (holds_below-lem 16 (λ x. leads (bit_or 224 x % 256) x 2) refl x h)

pub four_bytes : (x : ℕ) → x < 8 → lead (bit_or 240 x % 256) ≡ (x, 3)
unfolding leads holds_below lead
four_bytes x h =
    leads-lem (bit_or 240 x % 256) x 3
      (holds_below-lem 8 (λ x. leads (bit_or 240 x % 256) x 3) refl x h)

-- A continuation byte.
abbrev pub tail_byte : ℕ → ℕ
tail_byte y = bit_or 128 y % 256

tail_marked : (y : ℕ) → y < 64 → bit_and (tail_byte y) 192 == 128 ≡ true
unfolding holds_below
tail_marked y h = holds_below-lem 64 (λ y. bit_and (tail_byte y) 192 == 128) refl y h

tail_value : (y : ℕ) → y < 64 → bit_and (tail_byte y) 63 ≡ y
unfolding holds_below
tail_value y h =
    let same = holds_below-lem 64 (λ y. bit_and (tail_byte y) 63 == y) refl y h in ground arith

low_six : (v : ℕ) → bit_and v 63 ≡ v % 64
low_six v = bit_and_mask 64 v (omega arith) refl

-- One continuation byte more.
follow-tail :
    (n value y : ℕ) (bytes : List ℕ)
    → y < 64
    → follow (suc n) value (tail_byte y ∷ bytes) ≡ (
        follow n (value * 64 + y) bytes >>= λ (whole, read, rest).
        ok (whole, tail_byte y ∷ read, rest))
unfolding follow
follow-tail n value y bytes h = rw (tail_marked y h, tail_value y h) refl

-- Bytes that are read as the code point v, whatever is behind them.
abbrev pub Reads : ℕ → List ℕ → Type 0
Reads v bytes =
    (first : ℕ) × (tail : List ℕ) × (bytes ≡ first ∷ tail)
    × ((rest : List ℕ)
        → codepoint first (tail ++ rest) ≡ ok (record { value = v; bytes = first ∷ tail }, rest))

pub codepoint-ok :
    (first value count whole : ℕ) (bytes read rest : List ℕ)
    → lead first ≡ (value, count)
    → count ≤ length bytes
    → follow count value bytes ≡ ok (whole, read, rest)
    → codepoint first bytes ≡ ok (record { value = whole; bytes = first ∷ read }, rest)
unfolding codepoint
codepoint-ok first value count whole bytes read rest leading enough followed =
    rw (leading, le→leb count (length bytes) enough, followed) refl

pub follow_none : (a : ℕ) (rest : List ℕ) → follow 0 a rest ≡ ok (a, [], rest)
unfolding follow
follow_none a rest = refl

pub follow_one :
    (a y : ℕ) (rest : List ℕ)
    → y < 64
    → follow 1 a (tail_byte y ∷ rest) ≡ ok (a * 64 + y, tail_byte y ∷ [], rest)
unfolding follow
follow_one a y rest h = follow-tail 0 a y rest h

pub follow_two :
    (a y z : ℕ) (rest : List ℕ)
    → y < 64
    → z < 64
    → follow 2 a (tail_byte y ∷ tail_byte z ∷ rest)
      ≡ ok ((a * 64 + y) * 64 + z, tail_byte y ∷ tail_byte z ∷ [], rest)
follow_two a y z rest h k =
    rw (follow-tail 1 a y (tail_byte z ∷ rest) h, follow_one (a * 64 + y) z rest k) refl

pub follow_three :
    (a y z w : ℕ) (rest : List ℕ)
    → y < 64
    → z < 64
    → w < 64
    → follow 3 a (tail_byte y ∷ tail_byte z ∷ tail_byte w ∷ rest)
      ≡ ok (((a * 64 + y) * 64 + z) * 64 + w, tail_byte y ∷ tail_byte z ∷ tail_byte w ∷ [], rest)
follow_three a y z w rest h k l =
    rw
      (follow-tail 2 a y (tail_byte z ∷ tail_byte w ∷ rest) h, follow_two (a * 64 + y) z w rest k l)
      refl

pub utf8-Reads : (v : ℕ) → v < 2097152 → Reads v (utf8 v)
unfolding utf8
utf8-Reads v h =
    let y = v % 64 in
    let z = v / 64 % 64 in
    let w = v / 4096 % 64 in
    let y_low = low_six v in
    let z_low = low_six (v / 64) in
    let w_low = low_six (v / 4096) in
    elim (Bool-cases (leb v 127)) [
      | inl small ↦ (
        v % 256,
        [],
        rw small refl,
        λ rest.
            codepoint-ok (v % 256) v 0 v rest [] rest (one_byte v (ground arith)) (omega arith)
              (follow_none v rest),
      )
      | inr over1 ↦ elim (Bool-cases (leb v 2047)) [
        | inl small ↦ (
          bit_or 192 (v / 64) % 256,
          tail_byte y ∷ [],
          rw (over1, small, y_low) refl,
          λ rest.
              codepoint-ok (bit_or 192 (v / 64) % 256) (v / 64) 1 v (tail_byte y ∷ rest)
                (tail_byte y ∷ []) rest (two_bytes (v / 64) (ground arith)) (omega arith)
                (follow_one (v / 64) y rest (omega arith)
                  ∙ ap (λ n. ok (n, tail_byte y ∷ [], rest)) (omega arith)),
        )
        | inr over2 ↦ elim (Bool-cases (leb v 65535)) [
          | inl small ↦ (
            bit_or 224 (v / 4096) % 256,
            tail_byte z ∷ tail_byte y ∷ [],
            rw (over1, over2, small, y_low, z_low) refl,
            λ rest.
                codepoint-ok (bit_or 224 (v / 4096) % 256) (v / 4096) 2 v
                  (tail_byte z ∷ tail_byte y ∷ rest) (tail_byte z ∷ tail_byte y ∷ []) rest
                  (three_bytes (v / 4096) (ground arith)) (omega arith)
                  (follow_two (v / 4096) z y rest (omega arith) (omega arith)
                    ∙ ap (λ n. ok (n, tail_byte z ∷ tail_byte y ∷ [], rest)) (omega arith)),
          )
          | inr over3 ↦ (
            bit_or 240 (v / 262144) % 256,
            tail_byte w ∷ tail_byte z ∷ tail_byte y ∷ [],
            rw (over1, over2, over3, y_low, z_low, w_low) refl,
            λ rest.
                codepoint-ok (bit_or 240 (v / 262144) % 256) (v / 262144) 3 v
                  (tail_byte w ∷ tail_byte z ∷ tail_byte y ∷ rest)
                  (tail_byte w ∷ tail_byte z ∷ tail_byte y ∷ []) rest
                  (four_bytes (v / 262144) (omega arith)) (omega arith)
                  (follow_three (v / 262144) w z y rest (omega arith) (omega arith) (omega arith)
                    ∙ ap (λ n. ok (n, tail_byte w ∷ tail_byte z ∷ tail_byte y ∷ [], rest))
                        (omega arith)),
          )
        ]
      ]
    ]

-- For every code point below 2^21, the bytes that utf8 makes are read back as that code point alone.
pub codepoints-utf8 :
    (v : ℕ) → v < 2097152 → codepoints (utf8 v) ≡ ok (record { value = v; bytes = utf8 v } ∷ [])
unfolding codepoints codepoints_loop
codepoints-utf8 v h =
    let (first, tail, bytes, read) = utf8-Reads v h in
    let alone : codepoint first tail ≡ ok (record { value = v; bytes = first ∷ tail }, []) =
      subst (λ u. codepoint first u ≡ ok (record { value = v; bytes = first ∷ tail }, []))
        (append-nil tail) (read []) in
    rw (bytes, alone) refl
