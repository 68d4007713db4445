-- ===== src/Tokenizer/Alphabet/RoundTrip.antt =====
-- A byte is found again from its code point, and a piece from its code points.
use miinfer.Prelude.{
  ℕ, zero, suc, ◌+◌, ◌-◌, ◌≤◌, ◌<◌, ◌≡◌, refl, ap, sym, ◌∙◌, some, List, [], ◌∷◌, ◌++◌, map, ok,
  ◌==◌, ltb, ltb→lt, if◌then◌else◌, length, All, length-append, append_assoc, arith, dec_lt,
  Bool-cases, inl, inr, ==_iff,
}
use miinfer.Prelude.Words.{IsByte}
use miinfer.Prelude.Below.{holds_below, holds_below-lem}
use miinfer.Tokenizer.Types.{Codepoint}
use miinfer.Tokenizer.Utf8.{codepoints_loop, codepoints, utf8}
use miinfer.Tokenizer.Utf8.RoundTrip.{utf8-Reads}
use miinfer.Tokenizer.Alphabet.{
  direct, missing, byte_to_codepoint, find_byte, codepoint_to_byte, byte_encode, decode_point,
  decode_points, decode_piece,
}

byte_to_codepoint-lt : (byte : ℕ) → IsByte byte → byte_to_codepoint byte < 324
unfolding holds_below byte_to_codepoint direct missing
byte_to_codepoint-lt byte h =
    ltb→lt (byte_to_codepoint byte) 324
      (holds_below-lem 256 (λ b. ltb (byte_to_codepoint b) 324) refl byte h)

-- The byte of a code point, in closed form: the code points from 256 on stand for the bytes 0 to
-- 32, 127 to 160 and 173.
unfoldable inverse : ℕ → ℕ
inverse value =
    if ltb value 256
    then value
    else if ltb value 289
    then value - 256
    else if ltb value 323
    then value - 162
    else 173

inverse-byte_to_codepoint : (byte : ℕ) → IsByte byte → inverse (byte_to_codepoint byte) ≡ byte
unfolding holds_below byte_to_codepoint direct missing inverse
inverse-byte_to_codepoint byte h =
    (==_iff (inverse (byte_to_codepoint byte)) byte).0
      (holds_below-lem 256 (λ b. inverse (byte_to_codepoint b) == b) refl byte h)

-- The loop stops at the byte.
find_byte-lem :
    (n candidate byte : ℕ)
    → candidate ≤ byte
    → byte < candidate + n
    → candidate + n ≤ 256
    → find_byte n candidate (byte_to_codepoint byte) ≡ some byte
unfolding find_byte
find_byte-lem zero candidate byte low high within = absurd (omega arith)
find_byte-lem (suc n) candidate byte low high within =
    let mine = byte_to_codepoint candidate in
    elim (Bool-cases (mine == byte_to_codepoint byte)) [
      | inl same ↦
          let equal : mine ≡ byte_to_codepoint byte = ground arith in
          let here : candidate ≡ byte =
            sym (inverse-byte_to_codepoint candidate (omega arith))
            ∙ ap inverse equal
            ∙ inverse-byte_to_codepoint byte (omega arith) in
          rw same (ap some here)
      | inr other ↦ elim (dec_lt candidate byte) [
        | yes later ↦
            rw other
              (find_byte-lem n (candidate + 1) byte (omega arith) (omega arith) (omega arith))
        | no here ↦
            let e : candidate ≡ byte = omega arith in
            absurd (let same = ap byte_to_codepoint e in ground arith)
      ]
    ]

pub codepoint_to_byte-byte_to_codepoint :
    (byte : ℕ) → IsByte byte → codepoint_to_byte (byte_to_codepoint byte) ≡ some byte
unfolding codepoint_to_byte
codepoint_to_byte-byte_to_codepoint byte h =
    find_byte-lem 256 0 byte (omega arith) (omega arith) (omega arith)

-- The code points of an encoded piece, one for each byte.
abbrev pub byte_points : List ℕ → List Codepoint
byte_points piece =
    map (λ b. record { value = byte_to_codepoint b; bytes = utf8 (byte_to_codepoint b) }) piece

codepoints_loop-byte_encode :
    (fuel : ℕ) (piece : List ℕ)
    → All IsByte piece
    → length (byte_encode piece) ≤ fuel
    → codepoints_loop fuel (byte_encode piece) ≡ ok (byte_points piece)
unfolding codepoints_loop byte_encode
codepoints_loop-byte_encode fuel [] h enough = refl
codepoints_loop-byte_encode zero (b ∷ piece) h enough =
    let v = byte_to_codepoint b in
    let (first, tail, bytes, _) = utf8-Reads v (omega (arith, byte_to_codepoint-lt b h.0)) in
    absurd (omega (arith, ap length bytes, length-append (utf8 v) (byte_encode piece)))
codepoints_loop-byte_encode (suc fuel) (b ∷ piece) h enough =
    let v = byte_to_codepoint b in
    let (first, tail, bytes, read) = utf8-Reads v (omega (arith, byte_to_codepoint-lt b h.0)) in
    let sized : length (utf8 v) ≡ suc (length tail) = ap length bytes in
    let ih =
      codepoints_loop-byte_encode fuel piece h.1
        (omega (arith, length-append (utf8 v) (byte_encode piece))) in
    rw (bytes, read (byte_encode piece), ih) refl

pub codepoints-byte_encode :
    (piece : List ℕ) → All IsByte piece → codepoints (byte_encode piece) ≡ ok (byte_points piece)
unfolding codepoints
codepoints-byte_encode piece h =
    codepoints_loop-byte_encode (length (byte_encode piece)) piece h (omega arith)

decode_points-byte_points :
    (piece : List ℕ) → All IsByte piece → decode_points (byte_points piece) ≡ piece
unfolding decode_points decode_point
decode_points-byte_points [] h = refl
decode_points-byte_points (b ∷ piece) h =
    rw (codepoint_to_byte-byte_to_codepoint b h.0)
      (ap (◌∷◌ b) (decode_points-byte_points piece h.1))

-- Bytes that are encoded for the vocabulary are decoded to themselves.
pub decode_piece-byte_encode :
    (piece : List ℕ) → All IsByte piece → decode_piece (byte_encode piece) ≡ ok piece
unfolding decode_piece
decode_piece-byte_encode piece h =
    rw (codepoints-byte_encode piece h) (ap ok (decode_points-byte_points piece h))

pub byte_encode-append :
    (xs ys : List ℕ) → byte_encode (xs ++ ys) ≡ byte_encode xs ++ byte_encode ys
unfolding byte_encode
byte_encode-append [] ys = refl
byte_encode-append (b ∷ xs) ys =
    ap (λ t. utf8 (byte_to_codepoint b) ++ t) (byte_encode-append xs ys)
    ∙ sym (append_assoc (utf8 (byte_to_codepoint b)) (byte_encode xs) (byte_encode ys))
