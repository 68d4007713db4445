-- ===== src/Tokenizer/Encode/Returns.antt =====
-- When encode returns, and which exceptions it throws.
use miinfer.Prelude.{
  ℕ, zero, suc, ◌≤◌, ◌≡◌, refl, sym, ◌∙◌, ◌⊎◌, inl, inr, some, Option-cases, List, [], ◌∷◌, ◌++◌,
  map, ok, err, ◌>>=◌, Result-cases, length, join, arith, All, subst,
}
use miinfer.Prelude.Words.{IsByte}
use miinfer.Tokenizer.Types.{Error, Dictionary, find, Tokenizer, invalid_utf8, unknown_token}
use miinfer.Tokenizer.Alphabet.{byte_encode}
use miinfer.Tokenizer.Split.{split_qwen2}
use miinfer.Tokenizer.Pieces.{split_qwen2-join, split_qwen2-error}
use miinfer.Tokenizer.Encode.{
  merge, known, ids_of, encode_pieces, encode_plain, find_special, candidate, encode_loop, encode,
}
use miinfer.Tokenizer.Encode.Ids.{singles, symbols_of-lem, All-front}
use miinfer.Tokenizer.Encode.Special.{special_step-lem}

-- The two exceptions that are left.
abbrev pub IsExpected : Error → Type 0
IsExpected e = (e ≡ invalid_utf8) ⊎ (e ≡ unknown_token)

ids_of-error :
    (ids : Dictionary) (symbols : List (List ℕ)) (e : Error)
    → ids_of ids symbols ≡ err e
    → e ≡ unknown_token
unfolding ids_of known
ids_of-error ids [] e h = absurd (cc)
ids_of-error ids (symbol ∷ symbols) e h = elim (Option-cases (find ids symbol)) [
  | inl nothing ↦ ground arith
  | inr (id, there) ↦ elim (Result-cases (ids_of ids symbols)) [
    | inl (later, shown) ↦ absurd (ground arith)
    | inr (e2, shown) ↦ let only = ids_of-error ids symbols e2 shown in ground arith
  ]
]

encode_pieces-error :
    (t : Tokenizer) (pieces : List (List ℕ)) (e : Error)
    → All IsByte (join pieces)
    → encode_pieces t pieces ≡ err e
    → e ≡ unknown_token
unfolding encode_pieces
encode_pieces-error t [] e bytes h = absurd (cc)
encode_pieces-error t (piece ∷ pieces) e bytes h =
    let (mine, others) = All-front IsByte piece (join pieces) bytes in
    let symbols = map byte_encode (singles piece) in
    let shown = symbols_of-lem piece mine in
    elim (Result-cases (ids_of t.token_to_id (merge t.merge_ranks symbols))) [
      | inr (e2, failed) ↦
          let only = ids_of-error t.token_to_id (merge t.merge_ranks symbols) e2 failed in
          ground arith
      | inl (first, found) ↦ elim (Result-cases (encode_pieces t pieces)) [
        | inl (later, fine) ↦ absurd (ground arith)
        | inr (e2, failed) ↦
            let only = encode_pieces-error t pieces e2 others failed in ground arith
      ]
    ]

encode_plain-error :
    (t : Tokenizer) (slice : List ℕ) (e : Error)
    → All IsByte slice
    → encode_plain t slice ≡ err e
    → IsExpected e
unfolding encode_plain
encode_plain-error t [] e bytes h = absurd (cc)
encode_plain-error t (b ∷ slice) e bytes h = elim (Result-cases (split_qwen2 (b ∷ slice))) [
  | inr (e2, failed) ↦
      let only = split_qwen2-error (b ∷ slice) e2 failed in
      let same : e2 ≡ e = ground arith in inl (sym same ∙ only)
  | inl (pieces, cut_up) ↦
      let whole = split_qwen2-join (b ∷ slice) pieces cut_up in
      inr (
        encode_pieces-error t pieces e (subst (λ u. All IsByte u) (sym whole) bytes) (ground arith))
]

-- The bytes between a slice and what is left of the text.
pub between :
    (text slice ids later : List ℕ) (t : Tokenizer) (inside : List ℕ)
    → ((ids ≡ []) × (text ≡ slice ++ later))
      ⊎ ((id : ℕ) × (ids ≡ id ∷ [])
          × (find t.token_to_id (candidate inside) ≡ some id)
          × (text ≡ slice ++ (candidate inside ++ later)))
    → (token : List ℕ) × (text ≡ slice ++ (token ++ later))
between text slice ids later t inside (inl (_, whole)) = ([], whole)
between text slice ids later t inside (inr (_, _, _, whole)) = (candidate inside, whole)

encode_loop-error :
    (t : Tokenizer) (fuel : ℕ) (text : List ℕ) (e : Error)
    → length text ≤ fuel
    → All IsByte text
    → encode_loop t fuel text ≡ err e
    → IsExpected e
unfolding encode_loop
encode_loop-error t fuel [] e enough bytes h = absurd (cc)
encode_loop-error t zero (b ∷ text) e enough bytes h = absurd (omega arith)
encode_loop-error t (suc fuel) (b ∷ text) e enough bytes h =
    elim (Option-cases (find_special (b ∷ text))) [
      | inl nothing ↦
          let shown : encode_loop t (suc fuel) (b ∷ text) ≡ encode_plain t (b ∷ text) =
            rw (encode_loop, nothing) refl in
          encode_plain-error t (b ∷ text) e bytes (sym shown ∙ h)
      | inr ((front, inside, rest), found) ↦
          let (slice, middle, later, step, shorter, cut) =
            special_step-lem t (b ∷ text) front inside rest found in
          let shown : encode_loop t (suc fuel) (b ∷ text) ≡ (
              encode_plain t slice >>= λ xs.
              encode_loop t fuel later >>= λ ys. ok (xs ++ middle ++ ys)) =
            rw (encode_loop, found, step) refl in
          let (token, whole) = between (b ∷ text) slice middle later t inside cut in
          let (left, right) =
            All-front IsByte slice (token ++ later) (subst (λ u. All IsByte u) whole bytes) in
          let (_, behind) = All-front IsByte token later right in
          elim (Result-cases (encode_plain t slice)) [
            | inr (e2, failed) ↦
                let only = encode_plain-error t slice e2 left failed in
                subst IsExpected (ground arith) only
            | inl (xs, fine) ↦ elim (Result-cases (encode_loop t fuel later)) [
              | inr (e2, failed) ↦
                  let only = encode_loop-error t fuel later e2 (omega arith) behind failed in
                  subst IsExpected (ground arith) only
              | inl (ys, fine2) ↦ absurd (ground arith)
            ]
          ]
    ]

-- encode throws for a text that is not valid UTF-8 or for a symbol that is no token, and for
-- nothing else: no round finds a code point that it cannot classify, and every loop ends.
pub encode-error :
    (t : Tokenizer) (text : List ℕ) (e : Error)
    → All IsByte text
    → encode t text ≡ err e
    → IsExpected e
unfolding encode
encode-error t text e bytes h = elim (Result-cases (encode_loop t (length text) text)) [
  | inl (ids, fine) ↦ absurd (ground arith)
  | inr (e2, failed) ↦
      let only = encode_loop-error t (length text) text e2 (omega arith) bytes failed in
      subst IsExpected (ground arith) only
]
