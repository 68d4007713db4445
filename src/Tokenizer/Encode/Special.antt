-- ===== src/Tokenizer/Encode/Special.antt =====
-- The tokens `<|...|>` of a text.
use miinfer.Prelude.{
  ℕ, ◌≤◌, ◌<◌, ◌≡◌, refl, ap, ap₂, sym, ◌∙◌, ◌⊎◌, inl, inr, ◌&&◌, none, some, Option-cases,
  some-injective, List, [], ◌∷◌, ◌++◌, ◌==◌, ok, length, length-append, append_assoc, arith,
  Bool-cases, true, All, le→leb, leb, subst, ◌%◌, All-mono,
}
use miinfer.Tokenizer.Types.{find, Tokenizer}
use miinfer.Tokenizer.Utf8.{utf8}
use miinfer.Prelude.Words.{IsByte}
use miinfer.Tokenizer.Alphabet.{direct, byte_to_codepoint, byte_encode, decode_piece}
use miinfer.Tokenizer.Alphabet.RoundTrip.{decode_piece-byte_encode}
use miinfer.Tokenizer.Encode.{find_two, find_special, candidate, special_step}

-- The graphic characters of ASCII.
abbrev pub IsPrintable : ℕ → Type 0
IsPrintable b = (33 ≤ b) × (b ≤ 126)

printable-byte_encode : (token : List ℕ) → All IsPrintable token → byte_encode token ≡ token
unfolding byte_encode byte_to_codepoint direct utf8
printable-byte_encode [] h = refl
printable-byte_encode (b ∷ token) ((low, high), h) =
    let itself : direct b ≡ true = ground arith in
    let small : leb b 127 ≡ true = le→leb b 127 (omega arith) in
    let one : b % 256 ≡ b = omega arith in
    rw (itself, small, one) (ap (◌∷◌ b) (printable-byte_encode token h))

-- A token of graphic characters is decoded to itself.
pub decode_piece-IsPrintable :
    (token : List ℕ) → All IsPrintable token → decode_piece token ≡ ok token
decode_piece-IsPrintable token h =
    let bytes = All-mono IsPrintable IsByte (λ a k. let (l, u) = k in omega arith) token h in
    subst (λ t. decode_piece t ≡ ok token) (printable-byte_encode token h)
      (decode_piece-byte_encode token bytes)

find_two-lem :
    (a b : ℕ) (text front behind : List ℕ)
    → find_two a b text ≡ some (front, behind)
    → text ≡ front ++ (a ∷ b ∷ behind)
unfolding find_two
find_two-lem a b [] front behind h = absurd (cc)
find_two-lem a b (x ∷ []) front behind h = absurd (cc)
find_two-lem a b (x ∷ y ∷ text) front behind h = elim (Bool-cases ((x == a) && (y == b))) [
  | inl here ↦
      let ex : x ≡ a = ground arith in
      let ey : y ≡ b = ground arith in
      let shown : find_two a b (x ∷ y ∷ text) ≡ some ([], text) = rw (find_two, here) refl in
      ap₂ (λ u v. u ∷ v ∷ text) ex ey
      ∙ ap (λ t. t.0 ++ (a ∷ b ∷ t.1)) (some-injective (sym shown ∙ h))
  | inr later ↦ elim (Option-cases (find_two a b (y ∷ text))) [
    | inl nothing ↦
        let shown : find_two a b (x ∷ y ∷ text) ≡ none = rw (find_two, later, nothing) refl in
        absurd (cc)
    | inr ((front2, behind2), e) ↦
        let ih = find_two-lem a b (y ∷ text) front2 behind2 e in
        let shown : find_two a b (x ∷ y ∷ text) ≡ some (x ∷ front2, behind2) =
          rw (find_two, later, e) refl in
        ap (◌∷◌ x) ih ∙ ap (λ t. t.0 ++ (a ∷ b ∷ t.1)) (some-injective (sym shown ∙ h))
  ]
]

-- Where a special token may stand in a text.
pub find_special-lem :
    (text front inside rest : List ℕ)
    → find_special text ≡ some (front, inside, rest)
    → text ≡ front ++ (60 ∷ 124 ∷ (inside ++ (124 ∷ 62 ∷ rest)))
unfolding find_special
find_special-lem text front inside rest h = elim (Option-cases (find_two 60 124 text)) [
  | inl nothing ↦
      let shown : find_special text ≡ none = rw (find_special, nothing) refl in absurd (cc)
  | inr ((front2, behind), e) ↦ elim (Option-cases (find_two 124 62 behind)) [
    | inl nothing ↦
        let shown : find_special text ≡ none = rw (find_special, e, nothing) refl in absurd (cc)
    | inr ((inside2, rest2), e2) ↦
        let shown : find_special text ≡ some (front2, inside2, rest2) =
          rw (find_special, e, e2) refl in
        find_two-lem 60 124 text front2 behind e
        ∙ ap (λ t. front2 ++ (60 ∷ 124 ∷ t)) (find_two-lem 124 62 behind inside2 rest2 e2)
        ∙ ap (λ t. t.0 ++ (60 ∷ 124 ∷ (t.1 ++ (124 ∷ 62 ∷ t.2)))) (some-injective (sym shown ∙ h))
  ]
]

-- The tokens that a round of encode takes from the text are made of graphic characters.
abbrev pub PrintableSpecials : Tokenizer → Type 0
PrintableSpecials t =
    (inside : List ℕ) (id : ℕ)
    → find t.token_to_id (candidate inside) ≡ some id
    → All IsPrintable (candidate inside)

-- A round cuts the text into a slice, a token or nothing, and the rest, which is shorter.
pub special_step-lem :
    (t : Tokenizer) (text front inside rest : List ℕ)
    → find_special text ≡ some (front, inside, rest)
    → (slice : List ℕ) × (ids : List ℕ) × (later : List ℕ) × (special_step t (front, inside, rest)
        ≡ (slice, ids, later))
      × (length later < length text)
      × (((ids ≡ []) × (text ≡ slice ++ later))
          ⊎ ((id : ℕ) × (ids ≡ id ∷ [])
              × (find t.token_to_id (candidate inside) ≡ some id)
              × (text ≡ slice ++ (candidate inside ++ later))))
unfolding special_step candidate
special_step-lem t text front inside rest h =
    let whole = find_special-lem text front inside rest h in
    let token = find t.token_to_id (candidate inside) in
    elim (Option-cases token) [
      | inr (id, e) ↦ (
        front,
        id ∷ [],
        rest,
        rw (special_step, e) refl,
        omega (
          arith,
          ap length whole,
          length-append front (60 ∷ 124 ∷ (inside ++ (124 ∷ 62 ∷ rest))),
          length-append inside (124 ∷ 62 ∷ rest),
        ),
        inr (
          id,
          refl,
          e,
          whole
              ∙ ap (λ u. front ++ (60 ∷ 124 ∷ u)) (sym (append_assoc inside (124 ∷ 62 ∷ []) rest)),
        ),
      )
      | inl e ↦ (
        front ++ (60 ∷ 124 ∷ []),
        [],
        inside ++ (124 ∷ 62 ∷ rest),
        rw (special_step, e) refl,
        omega (
          arith,
          ap length whole,
          length-append front (60 ∷ 124 ∷ (inside ++ (124 ∷ 62 ∷ rest))),
        ),
        inl (refl, whole ∙ sym (append_assoc front (60 ∷ 124 ∷ []) (inside ++ (124 ∷ 62 ∷ rest)))),
      )
    ]
