-- ===== src/Tokenizer/Alphabet.antt =====
-- src/qwen3_tokenizer.cpp: the printable code points that stand for the bytes of a piece.
pub mod RoundTrip
use miinfer.Prelude.{
  ℕ, zero, suc, ◌+◌, Bool, ◌&&◌, ◌||◌, Option, none, some, List, [], ◌∷◌, ◌++◌, Result, ok, ◌>>=◌,
  leb, ◌==◌, if◌then◌else◌,
}
use miinfer.Tokenizer.Types.{Error, Codepoint}
use miinfer.Tokenizer.Utf8.{codepoints, utf8}

-- A byte that stands for itself.
unfoldable pub direct : ℕ → Bool
direct byte = leb 33 byte && leb byte 126 || leb 161 byte && leb byte 172 || leb 174 byte

-- The bytes below a candidate that do not stand for themselves.
unfoldable pub missing : ℕ → ℕ
unfolding direct
missing zero = 0
missing (suc prior) = let before = missing prior in if direct prior then before else before + 1

unfoldable pub byte_to_codepoint : ℕ → ℕ
unfolding direct missing
byte_to_codepoint byte = if direct byte then byte else 256 + missing byte

-- The loop over n candidates.
unfoldable pub find_byte : ℕ → ℕ → ℕ → Option ℕ
unfolding byte_to_codepoint
find_byte zero candidate value = none
find_byte (suc n) candidate value =
    let later = find_byte n (candidate + 1) value in
    if byte_to_codepoint candidate == value then some candidate else later

-- The byte, none for `false`.
unfoldable pub codepoint_to_byte : ℕ → Option ℕ
unfolding find_byte
codepoint_to_byte value = find_byte 256 0 value

unfoldable pub byte_encode : List ℕ → List ℕ
unfolding byte_to_codepoint utf8
byte_encode [] = []
byte_encode (byte ∷ piece) = utf8 (byte_to_codepoint byte) ++ byte_encode piece

-- What one code point adds to the text.
unfoldable pub decode_point : Option ℕ → ℕ → List ℕ
unfolding utf8
decode_point (some byte) value = byte ∷ []
decode_point none value = utf8 value

unfoldable pub decode_points : List Codepoint → List ℕ
unfolding decode_point codepoint_to_byte
decode_points [] = []
decode_points (point ∷ points) =
    decode_point (codepoint_to_byte point.value) point.value ++ decode_points points

unfoldable pub decode_piece : List ℕ → Result Error (List ℕ)
unfolding decode_points codepoints
decode_piece piece = codepoints piece >>= λ points. ok (decode_points points)
