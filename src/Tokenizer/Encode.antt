-- ===== src/Tokenizer/Encode.antt =====
-- src/qwen3_tokenizer.cpp: encode and decode.
pub mod Best
pub mod Merging
pub mod Special
pub mod Ids
pub mod Returns
pub mod Complete
pub mod RoundTrip
use miinfer.Prelude.{
  ℕ, zero, suc, ◌+◌, ◌*◌, Bool, true, false, ◌&&◌, Option, none, some, List, [], ◌∷◌, ◌++◌, map,
  Result, ok, err, ◌>>=◌, ◌==◌, ltb, if◌then◌else◌, length, get_elem?,
}
use miinfer.Tokenizer.Types.{
  Error, Codepoint, unknown_token, token_out_of_range, out_of_fuel, Dictionary, find, Tokenizer,
}
use miinfer.Tokenizer.Utf8.{codepoints}
use miinfer.Tokenizer.Alphabet.{byte_encode, decode_piece}
use miinfer.Tokenizer.Split.{split_qwen2}

unfoldable pub merge_key : List ℕ → List ℕ → List ℕ
merge_key left right = left ++ (1 ∷ right)

-- The best pair so far, its index and its rank, none while `best == symbols.size()`; then what it
-- is behind the look at pair i, whose rank is none for `merge_ranks_.end()`.
unfoldable pub better : Option (ℕ × ℕ) → ℕ → Option ℕ → Option (ℕ × ℕ)
better best i none = best
better none i (some rank) = some (i, rank)
better (some (j, best_rank)) i (some rank) =
    if ltb rank best_rank then some (i, rank) else some (j, best_rank)

-- The loop over the pairs, from index i on.
unfoldable pub best_from : Dictionary → ℕ → Option (ℕ × ℕ) → List (List ℕ) → Option (ℕ × ℕ)
unfolding better find merge_key
best_from ranks i best [] = best
best_from ranks i best (a ∷ []) = best
best_from ranks i best (a ∷ b ∷ symbols) =
    best_from ranks (i + 1) (better best i (find ranks (merge_key a b))) (b ∷ symbols)

unfoldable pub best_pair : Dictionary → List (List ℕ) → Option (ℕ × ℕ)
unfolding best_from
best_pair ranks symbols = best_from ranks 0 none symbols

-- `symbols[best] += symbols[best + 1]`, and the erasure.
unfoldable pub merge_at : ℕ → List (List ℕ) → List (List ℕ)
merge_at best [] = []
merge_at best (a ∷ []) = a ∷ []
merge_at zero (a ∷ b ∷ symbols) = (a ++ b) ∷ symbols
merge_at (suc best) (a ∷ b ∷ symbols) = a ∷ merge_at best (b ∷ symbols)

-- One round of `while (symbols.size() > 1)`, none where the loop ends: a list of one symbol or none
-- has no pair.
unfoldable pub merge_once : Dictionary → List (List ℕ) → Option (List (List ℕ))
unfolding best_pair merge_at
merge_once ranks symbols = elim (best_pair ranks symbols) [
  | none ↦ none
  | some (best, rank) ↦ some (merge_at best symbols)
]

unfoldable pub merge_loop : Dictionary → ℕ → List (List ℕ) → List (List ℕ)
unfolding merge_once
merge_loop ranks zero symbols = symbols
merge_loop ranks (suc fuel) symbols = elim (merge_once ranks symbols) [
  | none ↦ symbols
  | some next ↦ merge_loop ranks fuel next
]

-- One round takes a symbol away.
unfoldable pub merge : Dictionary → List (List ℕ) → List (List ℕ)
unfolding merge_loop
merge ranks symbols = merge_loop ranks (length symbols) symbols

-- `it->second`, and the exception for `token_to_id_.end()`.
unfoldable pub known : Option ℕ → Result Error ℕ
known none = err unknown_token
known (some id) = ok id

unfoldable pub ids_of : Dictionary → List (List ℕ) → Result Error (List ℕ)
unfolding known find
ids_of ids [] = ok []
ids_of ids (symbol ∷ symbols) = do
  id ← known (find ids symbol)
  later ← ids_of ids symbols
  ok (id ∷ later)

unfoldable pub symbols_of : List ℕ → Result Error (List (List ℕ))
unfolding codepoints byte_encode
symbols_of piece = codepoints (byte_encode piece) >>= λ points. ok (map (λ p. p.bytes) points)

unfoldable pub encode_pieces : Tokenizer → List (List ℕ) → Result Error (List ℕ)
unfolding symbols_of merge ids_of
encode_pieces t [] = ok []
encode_pieces t (piece ∷ pieces) = do
  symbols ← symbols_of piece
  ids ← ids_of t.token_to_id (merge t.merge_ranks symbols)
  later ← encode_pieces t pieces
  ok (ids ++ later)

-- For the empty slice the loop over the pieces does nothing either.
unfoldable pub encode_plain : Tokenizer → List ℕ → Result Error (List ℕ)
unfolding encode_pieces split_qwen2
encode_plain t [] = ok []
encode_plain t (byte ∷ slice) = split_qwen2 (byte ∷ slice) >>= encode_pieces t

-- The first place of two bytes in a text: what is in front of them and what is behind them, none
-- for npos.
unfoldable pub find_two : ℕ → ℕ → List ℕ → Option (List ℕ × List ℕ)
find_two a b [] = none
find_two a b (x ∷ []) = none
find_two a b (x ∷ y ∷ text) =
    if (x == a) && (y == b) then some ([], text) else elim (find_two a b (y ∷ text)) [
      | none ↦ none
      | some (front, behind) ↦ some (x ∷ front, behind)
    ]

-- The text from pos on, cut at `<|` and the next `|>`: what is in front, what is between them and
-- what is behind them.
unfoldable pub find_special : List ℕ → Option (List ℕ × List ℕ × List ℕ)
unfolding find_two
find_special text = elim (find_two 60 124 text) [
  | none ↦ none
  | some (front, behind) ↦ elim (find_two 124 62 behind) [
    | none ↦ none
    | some (inside, rest) ↦ some (front, inside, rest)
  ]
]

unfoldable pub candidate : List ℕ → List ℕ
candidate inside = 60 ∷ 124 ∷ (inside ++ (124 ∷ 62 ∷ []))

-- The round: a slice that is encoded, an id behind it, and the text from the next pos on.
unfoldable pub special_step : Tokenizer → List ℕ × List ℕ × List ℕ → List ℕ × List ℕ × List ℕ
unfolding find candidate
special_step t (front, inside, rest) = elim (find t.token_to_id (candidate inside)) [
  | some id ↦ (front, id ∷ [], rest)
  | none ↦ (front ++ (60 ∷ 124 ∷ []), [], inside ++ (124 ∷ 62 ∷ rest))
]

unfoldable pub encode_loop : Tokenizer → ℕ → List ℕ → Result Error (List ℕ)
unfolding encode_plain find_special special_step
encode_loop t fuel [] = ok []
encode_loop t zero (byte ∷ text) = err out_of_fuel
encode_loop t (suc fuel) (byte ∷ text) = elim (find_special (byte ∷ text)) [
  | none ↦ encode_plain t (byte ∷ text)
  | some found ↦ do
    ids ← encode_plain t ((special_step t found).0)
    later ← encode_loop t fuel ((special_step t found).2)
    ok (ids ++ (special_step t found).1 ++ later)
]

-- The ids that `add_bos` and `add_eos` ask for.
unfoldable pub optional_id : Bool → ℕ → List ℕ
optional_id true id = id ∷ []
optional_id false id = []

unfoldable pub encode : Tokenizer → List ℕ → Result Error (List ℕ)
unfolding encode_loop optional_id
encode t text = do
  ids ← encode_loop t (length text) text
  ok (optional_id t.add_bos t.bos_id ++ (ids ++ optional_id t.add_eos t.eos_id))

unfoldable pub decode_one : Option (List ℕ) → Result Error (List ℕ)
unfolding decode_piece
decode_one none = err token_out_of_range
decode_one (some token) = decode_piece token

unfoldable pub decode : Tokenizer → List ℕ → Result Error (List ℕ)
unfolding decode_one
decode t [] = ok []
decode t (id ∷ ids) = do
  front ← decode_one (get_elem? t.tokens id)
  rest ← decode t ids
  ok (front ++ rest)
