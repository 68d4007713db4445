-- ===== src/Tokenizer/Encode/RoundTrip.antt =====
-- Qwen3Tokenizer, src/qwen3_tokenizer.cpp: what encode makes of a text, decode turns back.
use miinfer.Prelude.{
  ℕ, zero, suc, ◌≡◌, refl, ap, ap₂, sym, ◌∙◌, ◌⊎◌, inl, inr, some, Option-cases, List, [], ◌∷◌,
  ◌++◌, ok, ◌>>=◌, >>=-ok, ok-injective, length, append_assoc, append-nil, All, subst, false,
}
use miinfer.Prelude.Words.{IsByte}
use miinfer.Tokenizer.Types.{find, Tokenizer}
use miinfer.Tokenizer.Split.{split_qwen2}
use miinfer.Tokenizer.Pieces.{split_qwen2-join}
use miinfer.Tokenizer.Encode.{
  encode_plain, find_special, candidate, encode_loop, optional_id, encode, decode_one, decode,
}
use miinfer.Tokenizer.Encode.Ids.{IsConsistent, All-front, decode-append, encode_pieces-decode}
use miinfer.Tokenizer.Encode.Special.{PrintableSpecials, decode_piece-IsPrintable, special_step-lem}

encode_plain-decode :
    (t : Tokenizer) (slice ids : List ℕ)
    → IsConsistent t
    → All IsByte slice
    → encode_plain t slice ≡ ok ids
    → decode t ids ≡ ok slice
unfolding encode_plain decode
encode_plain-decode t [] ids consistent bytes h =
    subst (λ u. decode t u ≡ ok []) (ok-injective h) refl
encode_plain-decode t (b ∷ slice) ids consistent bytes h =
    >>=-ok (split_qwen2 (b ∷ slice)) _ h λ pieces e h2.
      let whole = split_qwen2-join (b ∷ slice) pieces e in
      encode_pieces-decode t pieces ids consistent (subst (λ u. All IsByte u) (sym whole) bytes) h2
      ∙ ap ok whole

-- What a round takes behind its slice is decoded to itself too.
taken :
    (t : Tokenizer) (text slice inside later ids : List ℕ)
    → IsConsistent t
    → PrintableSpecials t
    → ((ids ≡ []) × (text ≡ slice ++ later))
      ⊎ ((id : ℕ) × (ids ≡ id ∷ [])
          × (find t.token_to_id (candidate inside) ≡ some id)
          × (text ≡ slice ++ (candidate inside ++ later)))
    → (token : List ℕ) × (decode t ids ≡ ok token) × (text ≡ slice ++ (token ++ later))
unfolding decode decode_one
taken t text slice inside later ids consistent printable (inl (e, whole)) = ([], rw e refl, whole)
taken t text slice inside later ids consistent printable (inr (id, e, known, whole)) =
    let token = candidate inside in
    let there = consistent token id known in
    let itself = decode_piece-IsPrintable token (printable inside id known) in
    (token, rw (e, there, itself) (ap ok (append-nil token)), whole)

encode_loop-decode :
    (t : Tokenizer) (fuel : ℕ) (text ids : List ℕ)
    → IsConsistent t
    → PrintableSpecials t
    → All IsByte text
    → encode_loop t fuel text ≡ ok ids
    → decode t ids ≡ ok text
unfolding encode_loop decode decode_one
encode_loop-decode t fuel [] ids consistent printable bytes h =
    subst (λ u. decode t u ≡ ok []) (ok-injective h) refl
encode_loop-decode t zero (b ∷ text) ids consistent printable bytes h = absurd (cc)
encode_loop-decode t (suc fuel) (b ∷ text) ids consistent printable bytes h =
    elim (Option-cases (find_special (b ∷ text))) [
      | inl nothing ↦
          let shown : encode_loop t (suc fuel) (b ∷ text) ≡ encode_plain t (b ∷ text) =
            rw (encode_loop, nothing) refl in
          encode_plain-decode t (b ∷ text) ids consistent bytes (sym shown ∙ h)
      | inr ((front, inside, rest), found) ↦
          let (slice, middle, later, step, shorter, cut) =
            special_step-lem t (b ∷ text) front inside rest found in
          let shown : encode_loop t (suc fuel) (b ∷ text) ≡ (
              encode_plain t slice >>= λ xs.
              encode_loop t fuel later >>= λ ys. ok (xs ++ middle ++ ys)) =
            rw (encode_loop, found, step) refl in
          >>=-ok (encode_plain t slice) _ (sym shown ∙ h) λ xs e h2.
            >>=-ok (encode_loop t fuel later) _ h2 λ ys e2 h3.
              let (token, shown_middle, whole) =
                taken t (b ∷ text) slice inside later middle consistent printable cut in
              let (left, right) =
                All-front IsByte slice (token ++ later) (subst (λ u. All IsByte u) whole bytes) in
              let (_, behind) = All-front IsByte token later right in
              let first = encode_plain-decode t slice xs consistent left e in
              let ih = encode_loop-decode t fuel later ys consistent printable behind e2 in
              let all =
                decode-append t (xs ++ middle) ys (slice ++ token) later
                  (decode-append t xs middle slice token first shown_middle) ih in
              subst (λ u. decode t u ≡ ok (b ∷ text)) (ok-injective h3)
                (all ∙ ap ok (append_assoc slice token later ∙ sym whole))
    ]

-- Where a tokenizer adds no token in front or behind, its ids lead back to its tokens and its
-- tokens `<|...|>` are graphic characters, the ids of a text are decoded to that text.
pub encode-decode :
    (t : Tokenizer) (text ids : List ℕ)
    → t.add_bos ≡ false
    → t.add_eos ≡ false
    → IsConsistent t
    → PrintableSpecials t
    → All IsByte text
    → encode t text ≡ ok ids
    → decode t ids ≡ ok text
unfolding encode optional_id
encode-decode t text ids no_bos no_eos consistent printable bytes h =
    >>=-ok (encode_loop t (length text) text) _ h λ middle e h2.
      let plain : optional_id t.add_bos t.bos_id ++ (middle ++ optional_id t.add_eos t.eos_id)
          ≡ middle =
        ap₂ (λ a b. optional_id a t.bos_id ++ (middle ++ optional_id b t.eos_id)) no_bos no_eos
        ∙ append-nil middle in
      subst (λ u. decode t u ≡ ok text) (sym plain ∙ ok-injective h2)
        (encode_loop-decode t (length text) text middle consistent printable bytes e)
