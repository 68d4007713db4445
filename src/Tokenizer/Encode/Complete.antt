-- ===== src/Tokenizer/Encode/Complete.antt =====
-- A vocabulary that encodes every valid text.
use miinfer.Prelude.{
  ℕ, zero, suc, ◌≤◌, ◌≡◌, refl, sym, ◌∙◌, inl, inr, some, Option-cases, List, [], ◌∷◌, ◌++◌, map,
  Result, ok, length, join, arith, All, subst,
}
use miinfer.Prelude.Words.{IsByte}
use miinfer.Tokenizer.Types.{Error, find, Tokenizer}
use miinfer.Tokenizer.Utf8.Standard.{IsText, IsText-IsUtf8}
use miinfer.Tokenizer.Utf8.Valid.{
  IsUtf8, IsUtf8-codepoints, IsUtf8-append, IsUtf8-cut, IsUtf8-tail, IsUtf8-ascii, done,
}
use miinfer.Tokenizer.Alphabet.{byte_encode}
use miinfer.Tokenizer.Pieces.{split_qwen2-lem}
use miinfer.Tokenizer.Encode.{
  merge_key, merge, known, ids_of, encode_pieces, encode_plain, find_special, candidate,
  special_step, encode_loop, optional_id, encode,
}
use miinfer.Tokenizer.Encode.Merging.{merge-All}
use miinfer.Tokenizer.Encode.Ids.{singles, symbols_of-lem, All-front}
use miinfer.Tokenizer.Encode.Special.{find_special-lem, special_step-lem}
use miinfer.Tokenizer.Encode.Returns.{between}

-- A symbol that is a token.
abbrev pub IsKnown : Tokenizer → List ℕ → Type 0
IsKnown t symbol = (id : ℕ) × (find t.token_to_id symbol ≡ some id)

-- Every byte is a token, and every merge makes one.
pub record IsComplete (t : Tokenizer) : Type 0 where
  pub bytes : (b : ℕ) → IsByte b → IsKnown t (byte_encode (b ∷ []))
  pub merges :
      (a b : List ℕ) (rank : ℕ)
      → find t.merge_ranks (merge_key a b) ≡ some rank
      → IsKnown t (a ++ b)

abbrev Returns {ℓ} : {A : Type ℓ} → Result Error A → Type ℓ
Returns {A = A} r = (a : A) × (r ≡ ok a)

ids_of-Returns :
    (t : Tokenizer) (symbols : List (List ℕ))
    → All (IsKnown t) symbols
    → Returns (ids_of t.token_to_id symbols)
unfolding ids_of known
ids_of-Returns t [] h = ([], refl)
ids_of-Returns t (symbol ∷ symbols) ((id, there), h) =
    let (later, fine) = ids_of-Returns t symbols h in (id ∷ later, rw (there, fine) refl)

singles-IsKnown :
    (t : Tokenizer) (piece : List ℕ)
    → IsComplete t
    → All IsByte piece
    → All (IsKnown t) (map byte_encode (singles piece))
unfolding singles
singles-IsKnown t [] complete h = tt
singles-IsKnown t (b ∷ piece) complete (here, h) =
    (complete.bytes b here, singles-IsKnown t piece complete h)

encode_pieces-Returns :
    (t : Tokenizer) (pieces : List (List ℕ))
    → IsComplete t
    → All IsByte (join pieces)
    → Returns (encode_pieces t pieces)
unfolding encode_pieces
encode_pieces-Returns t [] complete h = ([], refl)
encode_pieces-Returns t (piece ∷ pieces) complete h =
    let (mine, others) = All-front IsByte piece (join pieces) h in
    let symbols = map byte_encode (singles piece) in
    let all_known =
      merge-All (IsKnown t) t.merge_ranks symbols complete.merges
        (singles-IsKnown t piece complete mine) in
    let (first, fine) = ids_of-Returns t (merge t.merge_ranks symbols) all_known in
    let (later, fine2) = encode_pieces-Returns t pieces complete others in
    (first ++ later, rw (symbols_of-lem piece mine, fine, fine2) refl)

encode_plain-Returns :
    (t : Tokenizer) (slice : List ℕ)
    → IsComplete t
    → All IsByte slice
    → IsUtf8 slice
    → Returns (encode_plain t slice)
unfolding encode_plain
encode_plain-Returns t [] complete bytes valid = ([], refl)
encode_plain-Returns t (b ∷ slice) complete bytes valid =
    let (points, read) = IsUtf8-codepoints (b ∷ slice) valid in
    let (pieces, cut_up, whole) = split_qwen2-lem (b ∷ slice) points read in
    let (ids, fine) =
      encode_pieces-Returns t pieces complete (subst (λ u. All IsByte u) (sym whole) bytes) in
    (ids, rw (cut_up, fine) refl)

-- The slice of a round and the rest are valid where the text is.
special_step-IsUtf8 :
    (t : Tokenizer) (text front inside rest slice ids later : List ℕ)
    → find_special text ≡ some (front, inside, rest)
    → special_step t (front, inside, rest) ≡ (slice, ids, later)
    → IsUtf8 text
    → IsUtf8 slice × IsUtf8 later
unfolding special_step
special_step-IsUtf8 t text front inside rest slice ids later found step valid =
    let whole = find_special-lem text front inside rest found in
    let (this, opened) =
      IsUtf8-cut front 60 (124 ∷ (inside ++ (124 ∷ 62 ∷ rest))) (omega arith)
        (subst (λ u. IsUtf8 u) whole valid) in
    let after =
      IsUtf8-tail 124 (inside ++ (124 ∷ 62 ∷ rest)) (omega arith)
        (IsUtf8-tail 60 (124 ∷ (inside ++ (124 ∷ 62 ∷ rest))) (omega arith) opened) in
    let (_, closed) = IsUtf8-cut inside 124 (62 ∷ rest) (omega arith) after in
    let behind =
      IsUtf8-tail 62 rest (omega arith) (IsUtf8-tail 124 (62 ∷ rest) (omega arith) closed) in
    let mark = IsUtf8-ascii 60 (124 ∷ []) (omega arith) (IsUtf8-ascii 124 [] (omega arith) done) in
    elim (Option-cases (find t.token_to_id (candidate inside))) [
      | inr (id, e) ↦
          let shown : special_step t (front, inside, rest) ≡ (front, id ∷ [], rest) =
            rw (special_step, e) refl in
          subst (λ u. IsUtf8 u.0 × IsUtf8 u.2) (sym shown ∙ step) (this, behind)
      | inl e ↦
          let shown : special_step t (front, inside, rest)
              ≡ (front ++ (60 ∷ 124 ∷ []), [], inside ++ (124 ∷ 62 ∷ rest)) =
            rw (special_step, e) refl in
          subst (λ u. IsUtf8 u.0 × IsUtf8 u.2) (sym shown ∙ step)
            (IsUtf8-append front (60 ∷ 124 ∷ []) this mark, after)
    ]

encode_loop-Returns :
    (t : Tokenizer) (fuel : ℕ) (text : List ℕ)
    → IsComplete t
    → length text ≤ fuel
    → All IsByte text
    → IsUtf8 text
    → Returns (encode_loop t fuel text)
unfolding encode_loop
encode_loop-Returns t fuel [] complete enough bytes valid = ([], refl)
encode_loop-Returns t zero (b ∷ text) complete enough bytes valid = absurd (omega arith)
encode_loop-Returns t (suc fuel) (b ∷ text) complete enough bytes valid =
    elim (Option-cases (find_special (b ∷ text))) [
      | inl nothing ↦
          let (ids, fine) = encode_plain-Returns t (b ∷ text) complete bytes valid in
          (ids, rw (encode_loop, nothing) fine)
      | inr ((front, inside, rest), found) ↦
          let (slice, middle, later, step, shorter, cut) =
            special_step-lem t (b ∷ text) front inside rest found in
          let (left_valid, right_valid) =
            special_step-IsUtf8 t (b ∷ text) front inside rest slice middle later found step
              valid in
          let (token, whole) = between (b ∷ text) slice middle later t inside cut in
          let (left, right) =
            All-front IsByte slice (token ++ later) (subst (λ u. All IsByte u) whole bytes) in
          let (_, behind) = All-front IsByte token later right in
          let (xs, fine) = encode_plain-Returns t slice complete left left_valid in
          let (ys, fine2) =
            encode_loop-Returns t fuel later complete (omega arith) behind right_valid in
          (xs ++ middle ++ ys, rw (encode_loop, found, step, fine, fine2) refl)
    ]

-- With a vocabulary that has a token for every byte and for the result of every merge, encode
-- returns ids for every text of bytes in the forms of UTF-8, 0xxxxxxx, 110xxxxx 10xxxxxx, 1110xxxx
-- 10xxxxxx 10xxxxxx and 11110xxx 10xxxxxx 10xxxxxx 10xxxxxx.
pub encode-Returns :
    (t : Tokenizer) (text : List ℕ)
    → IsComplete t
    → All IsByte text
    → IsText text
    → (ids : List ℕ) × (encode t text ≡ ok ids)
unfolding encode
encode-Returns t text complete bytes valid =
    let (ids, fine) =
      encode_loop-Returns t (length text) text complete (omega arith) bytes
        (IsText-IsUtf8 text valid) in
    (optional_id t.add_bos t.bos_id ++ (ids ++ optional_id t.add_eos t.eos_id), rw fine refl)
