-- ===== src/Tokenizer/Encode/Ids.antt =====
-- The ids of the pieces of a text, and their tokens.
use miinfer.Prelude.{
  ℕ, ◌≡◌, refl, ap, ap₂, sym, ◌∙◌, inl, inr, some, Option-cases, List, [], ◌∷◌, ◌++◌, map, ok,
  >>=-ok, ok-injective, get_elem?, join, append_assoc, append-nil, arith, All, subst,
}
use miinfer.Prelude.Words.{IsByte}
use miinfer.Tokenizer.Types.{find, Tokenizer}
use miinfer.Tokenizer.Utf8.{utf8}
use miinfer.Tokenizer.Alphabet.{byte_to_codepoint, byte_encode}
use miinfer.Tokenizer.Alphabet.RoundTrip.{
  byte_points, codepoints-byte_encode, decode_piece-byte_encode,
}
use miinfer.Tokenizer.Encode.{merge, known, ids_of, symbols_of, encode_pieces, decode_one, decode}
use miinfer.Tokenizer.Encode.Merging.{merge-map}

-- The id of a token leads back to the token.
abbrev pub IsConsistent : Tokenizer → Type 0
IsConsistent t =
    (token : List ℕ) (id : ℕ)
    → find t.token_to_id token ≡ some id
    → get_elem? t.tokens id ≡ some token

pub All-front {ℓ κ} :
    {A : Type ℓ} (P : A → Type κ) (xs ys : List A) → All P (xs ++ ys) → All P xs × All P ys
All-front P [] ys h = (tt, h)
All-front P (x ∷ xs) ys (here, h) = let (a, b) = All-front P xs ys h in ((here, a), b)

pub decode-append :
    (t : Tokenizer) (xs ys : List ℕ) (a b : List ℕ)
    → decode t xs ≡ ok a
    → decode t ys ≡ ok b
    → decode t (xs ++ ys) ≡ ok (a ++ b)
unfolding decode
decode-append t [] ys a b h k = k ∙ ap (λ u. ok (u ++ b)) (ok-injective h)
decode-append t (id ∷ xs) ys a b h k = >>=-ok (decode_one (get_elem? t.tokens id)) _ h λ front e h2.
    >>=-ok (decode t xs) _ h2 λ rest e2 h3.
      let ih = decode-append t xs ys rest b e2 k in
      rw (e, ih) (ap ok (sym (append_assoc front rest b)) ∙ ap (λ u. ok (u ++ b)) (ok-injective h3))

-- The symbols of a piece are its bytes, each encoded.
unfoldable pub singles : List ℕ → List (List ℕ)
singles piece = map (λ b. b ∷ []) piece

join-singles : (piece : List ℕ) → join (singles piece) ≡ piece
unfolding singles
join-singles [] = refl
join-singles (b ∷ piece) = ap (◌∷◌ b) (join-singles piece)

bytes_of_points :
    (piece : List ℕ) → map (λ p. p.bytes) (byte_points piece) ≡ map byte_encode (singles piece)
unfolding singles byte_encode
bytes_of_points [] = refl
bytes_of_points (b ∷ piece) =
    ap₂ (λ x xs. x ∷ xs) (sym (append-nil (utf8 (byte_to_codepoint b)))) (bytes_of_points piece)

pub symbols_of-lem :
    (piece : List ℕ) → All IsByte piece → symbols_of piece ≡ ok (map byte_encode (singles piece))
unfolding symbols_of
symbols_of-lem piece h = rw (codepoints-byte_encode piece h) (ap ok (bytes_of_points piece))

-- The ids of encoded parts are decoded to the parts.
ids_of-decode :
    (t : Tokenizer) (parts : List (List ℕ)) (ids : List ℕ)
    → IsConsistent t
    → All IsByte (join parts)
    → ids_of t.token_to_id (map byte_encode parts) ≡ ok ids
    → decode t ids ≡ ok (join parts)
unfolding ids_of decode known decode_one
ids_of-decode t [] ids consistent bytes h = subst (λ u. decode t u ≡ ok []) (ok-injective h) refl
ids_of-decode t (part ∷ parts) ids consistent bytes h =
    let (mine, others) = All-front IsByte part (join parts) bytes in
    elim (Option-cases (find t.token_to_id (byte_encode part))) [
      | inl unknown ↦ absurd (ground arith)
      | inr (id, e) ↦ >>=-ok (known (find t.token_to_id (byte_encode part))) _ h λ id2 e2 h2.
          >>=-ok (ids_of t.token_to_id (map byte_encode parts)) _ h2 λ later e3 h3.
            let same : id ≡ id2 = ground arith in
            let token = consistent (byte_encode part) id2 (e ∙ ap some same) in
            let ih = ids_of-decode t parts later consistent others e3 in
            let piece = decode_piece-byte_encode part mine in
            subst (λ u. decode t u ≡ ok (part ++ join parts)) (ok-injective h3)
              (rw (token, piece, ih) refl)
    ]

pub encode_pieces-decode :
    (t : Tokenizer) (pieces : List (List ℕ)) (ids : List ℕ)
    → IsConsistent t
    → All IsByte (join pieces)
    → encode_pieces t pieces ≡ ok ids
    → decode t ids ≡ ok (join pieces)
unfolding encode_pieces decode
encode_pieces-decode t [] ids consistent bytes h =
    subst (λ u. decode t u ≡ ok []) (ok-injective h) refl
encode_pieces-decode t (piece ∷ pieces) ids consistent bytes h =
    let (mine, others) = All-front IsByte piece (join pieces) bytes in
    let (merged, same, whole) = merge-map t.merge_ranks (singles piece) in
    let parts : join merged ≡ piece = whole ∙ join-singles piece in
    >>=-ok (symbols_of piece) _ h λ symbols e h2.
      let split : symbols ≡ map byte_encode (singles piece) =
        ok-injective (sym e ∙ symbols_of-lem piece mine) in
      >>=-ok (ids_of t.token_to_id (merge t.merge_ranks symbols)) _ h2 λ first e2 h3.
        >>=-ok (encode_pieces t pieces) _ h3 λ later e3 h4.
          let shown =
            subst (λ u. ids_of t.token_to_id u ≡ ok first)
              (ap (λ u. merge t.merge_ranks u) split ∙ same) e2 in
          let front =
            ids_of-decode t merged first consistent (subst (λ u. All IsByte u) (sym parts) mine)
              shown in
          let ih = encode_pieces-decode t pieces later consistent others e3 in
          subst (λ u. decode t u ≡ ok (piece ++ join pieces)) (ok-injective h4)
            (decode-append t first later piece (join pieces) (front ∙ ap ok parts) ih)
