-- ===== src/Tokenizer/Cover.antt =====
-- The code points of a text are the text, cut: nothing is lost, and the loop comes to its end.
use miinfer.Prelude.{
  ℕ, zero, suc, ◌+◌, ◌*◌, ◌≤◌, ◌≡◌, ap, ◌∙◌, sym, inl, inr, List, [], ◌∷◌, ◌++◌, ok-injective,
  guard, ok, err, >>=-ok, Result-cases, ◌==◌, leb, length, length-append, arith,
}
use Prim.Native.Nat.{bit_and}
use miinfer.Tokenizer.Types.{Error, Codepoint, text_of, invalid_utf8}
use miinfer.Tokenizer.Utf8.{lead, follow, codepoint, codepoints_loop, codepoints}

follow-cover :
    (n value : ℕ) (bytes : List ℕ) (whole : ℕ) (read rest : List ℕ)
    → follow n value bytes ≡ ok (whole, read, rest)
    → read ++ rest ≡ bytes
unfolding follow
follow-cover zero value bytes whole read rest h = cc
follow-cover (suc n) value [] whole read rest h = absurd (cc)
follow-cover (suc n) value (byte ∷ bytes) whole read rest h =
    >>=-ok (guard (bit_and byte 192 == 128) invalid_utf8) _ h λ _ _ h2.
      >>=-ok (follow n (value * 64 + bit_and byte 63) bytes) _ h2 λ (w, r, s) e h3.
        let ih = follow-cover n (value * 64 + bit_and byte 63) bytes w r s e in
        ap (λ t. t.1 ++ t.2) (sym (ok-injective h3)) ∙ ap (◌∷◌ byte) ih

codepoint-cover :
    (first : ℕ) (bytes : List ℕ) (point : Codepoint) (rest : List ℕ)
    → codepoint first bytes ≡ ok (point, rest)
    → point.bytes ++ rest ≡ first ∷ bytes
unfolding codepoint
codepoint-cover first bytes point rest h =
    >>=-ok (guard (leb ((lead first).1) (length bytes)) invalid_utf8) _ h λ _ _ h2.
      >>=-ok (follow ((lead first).1) ((lead first).0) bytes) _ h2 λ (w, r, s) e h3.
        let ih = follow-cover ((lead first).1) ((lead first).0) bytes w r s e in
        ap (λ t. t.0.bytes ++ t.1) (sym (ok-injective h3)) ∙ ap (◌∷◌ first) ih

-- The text behind a code point is shorter than the text with it.
pub codepoint-shorter :
    (first : ℕ) (bytes : List ℕ) (point : Codepoint) (rest : List ℕ)
    → codepoint first bytes ≡ ok (point, rest)
    → length rest ≤ length bytes
unfolding codepoint
codepoint-shorter first bytes point rest h =
    >>=-ok (guard (leb ((lead first).1) (length bytes)) invalid_utf8) _ h λ _ _ h2.
      >>=-ok (follow ((lead first).1) ((lead first).0) bytes) _ h2 λ (w, r, s) e h3.
        let ih = follow-cover ((lead first).1) ((lead first).0) bytes w r s e in
        let same : s ≡ rest = ap (λ t. t.1) (ok-injective h3) in
        omega (arith, ap length ih, length-append r s, ap length same)

codepoints_loop-cover :
    (fuel : ℕ) (text : List ℕ) (points : List Codepoint)
    → codepoints_loop fuel text ≡ ok points
    → text_of points ≡ text
unfolding codepoints_loop text_of
codepoints_loop-cover fuel [] points h = ap text_of (sym (ok-injective h))
codepoints_loop-cover zero (first ∷ bytes) points h = absurd (cc)
codepoints_loop-cover (suc fuel) (first ∷ bytes) points h =
    >>=-ok (codepoint first bytes) _ h λ (point, rest) e h2.
      >>=-ok (codepoints_loop fuel rest) _ h2 λ later e2 h3.
        let ih = codepoints_loop-cover fuel rest later e2 in
        ap text_of (sym (ok-injective h3))
        ∙ ap (λ t. point.bytes ++ t) ih
        ∙ codepoint-cover first bytes point rest e

-- The bytes of the code points of a text, in order, are the text.
pub codepoints-cover :
    (text : List ℕ) (points : List Codepoint) → codepoints text ≡ ok points → text_of points ≡ text
unfolding codepoints
codepoints-cover text = codepoints_loop-cover (length text) text

follow-error :
    (n value : ℕ) (bytes : List ℕ) (e : Error) → follow n value bytes ≡ err e → e ≡ invalid_utf8
unfolding follow
follow-error zero value bytes e h = absurd (cc)
follow-error (suc n) value [] e h = cc
follow-error (suc n) value (byte ∷ bytes) e h =
    elim (Result-cases (follow n (value * 64 + bit_and byte 63) bytes)) [
      | inl (a, q) ↦ ground arith
      | inr (e2, q) ↦
          let ih = follow-error n (value * 64 + bit_and byte 63) bytes e2 q in ground arith
    ]

codepoint-error :
    (first : ℕ) (bytes : List ℕ) (e : Error) → codepoint first bytes ≡ err e → e ≡ invalid_utf8
unfolding codepoint
codepoint-error first bytes e h =
    elim (Result-cases (follow ((lead first).1) ((lead first).0) bytes)) [
      | inl (a, q) ↦ ground arith
      | inr (e2, q) ↦
          let ih = follow-error ((lead first).1) ((lead first).0) bytes e2 q in ground arith
    ]

codepoints_loop-error :
    (fuel : ℕ) (text : List ℕ) (e : Error)
    → length text ≤ fuel
    → codepoints_loop fuel text ≡ err e
    → e ≡ invalid_utf8
unfolding codepoints_loop
codepoints_loop-error fuel [] e le h = absurd (cc)
codepoints_loop-error zero (first ∷ bytes) e le h = absurd (omega arith)
codepoints_loop-error (suc fuel) (first ∷ bytes) e le h =
    elim (Result-cases (codepoint first bytes)) [
      | inr (e2, q) ↦ let only = codepoint-error first bytes e2 q in ground arith
      | inl ((point, rest), q) ↦
          let shorter = codepoint-shorter first bytes point rest q in
          elim (Result-cases (codepoints_loop fuel rest)) [
            | inl (later, q2) ↦ ground arith
            | inr (e2, q2) ↦
                let only = codepoints_loop-error fuel rest e2 (omega arith) q2 in ground arith
          ]
    ]

-- The loop over a text ends with its code points or with the exception for invalid UTF-8.
pub codepoints-error : (text : List ℕ) (e : Error) → codepoints text ≡ err e → e ≡ invalid_utf8
unfolding codepoints
codepoints-error text e = codepoints_loop-error (length text) text e (omega arith)
