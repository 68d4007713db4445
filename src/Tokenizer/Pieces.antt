-- ===== src/Tokenizer/Pieces.antt =====
-- The pieces of a text: the rounds of split_qwen2 take every code point in turn.
use miinfer.Prelude.{
  join, ℕ, zero, suc, ◌+◌, ◌≤◌, ◌<◌, ◌≡◌, refl, ap, sym, ◌∙◌, inl, inr, true, false, not, ◌&&◌,
  ◌||◌, List, [], ◌∷◌, ◌++◌, Result, ok, err, ◌==◌, ltb, length, take, drop, length-drop,
  take-append-drop, append_assoc, arith, Bool-cases, Result-cases, ok-injective, subst, ltb→lt,
}
use miinfer.Tokenizer.Types.{Error, Codepoint, text_of, invalid_utf8}
use miinfer.Tokenizer.Utf8.{codepoints}
use miinfer.Tokenizer.Cover.{codepoints-cover, codepoints-error}
use miinfer.Tokenizer.Split.{
  letter, number, whitespace, punctuation, value_is_newline, run, at_front, contraction, cut,
  whitespace_step, skipped_space, mark_step, step, split_loop, split_qwen2,
}

-- A round that takes code points from the front.
abbrev Takes : List Codepoint → Result Error (List Codepoint × List Codepoint) → Type 0
Takes points r =
    (piece : List Codepoint) × (rest : List Codepoint) × (r ≡ ok (piece, rest))
    × (piece ++ rest ≡ points)
    × (length rest < length points)

cut-Takes :
    (n : ℕ) (p : Codepoint) (points : List Codepoint)
    → 0 < n
    → Takes (p ∷ points) (ok (cut n (p ∷ points)))
cut-Takes n p points h = (
  take n (p ∷ points),
  drop n (p ∷ points),
  refl,
  take-append-drop n (p ∷ points),
  omega (arith, length-drop n (p ∷ points)),
)

-- A code point is of one of the four classes.
classes :
    (v : ℕ) → letter v ≡ false → number v ≡ false → punctuation v ≡ false → whitespace v ≡ true
unfolding punctuation
classes v l n p = elim (Bool-cases (whitespace v)) [
  | inl yes_white ↦ yes_white
  | inr not_white ↦ absurd (ground (arith))
]

whitespace_step-Takes :
    (p : Codepoint) (points : List Codepoint)
    → whitespace p.value ≡ true
    → Takes (p ∷ points) (whitespace_step (p ∷ points))
unfolding whitespace_step run
whitespace_step-Takes p points h =
    let n = run whitespace points + 1 in
    let counted : ltb 0 n ≡ true = ground arith in
    rw (whitespace_step, run, h, counted) (cut-Takes n p points (omega arith))

mark_step-Takes :
    (p : Codepoint) (points : List Codepoint)
    → letter p.value ≡ false
    → number p.value ≡ false
    → Takes (p ∷ points) (mark_step (p ∷ points))
unfolding mark_step skipped_space at_front
mark_step-Takes p points l n = elim (Bool-cases ((p.value == 32) && at_front punctuation points)) [
  | inl space ↦
      let marked : at_front punctuation points ≡ true = ground arith in
      rw (space, marked) (cut-Takes _ p points (omega arith))
  | inr none_skipped ↦ elim (Bool-cases (punctuation p.value)) [
    | inl mark ↦ rw (none_skipped, mark) (cut-Takes _ p points (omega arith))
    | inr other ↦
        rw (none_skipped, other) (whitespace_step-Takes p points (classes p.value l n other))
  ]
]

letter_inside :
    (v : ℕ) → letter v ≡ true → number v ≡ false → not (value_is_newline v) && not (number v) ≡ true
unfolding letter number value_is_newline
letter_inside v l n = ground arith

-- A round takes a piece that is not empty from the front, whatever the code points are.
step-Takes : (p : Codepoint) (points : List Codepoint) → Takes (p ∷ points) (step p points)
unfolding step
step-Takes p points =
    let short = contraction (p ∷ points) in
    let word =
      not (value_is_newline p.value)
      && not (number p.value)
      && (letter p.value || at_front letter points) in
    elim (Bool-cases (ltb 0 short)) [
      | inl yes_short ↦ rw yes_short (cut-Takes short p points (ltb→lt 0 short yes_short))
      | inr long ↦ elim (Bool-cases word) [
        | inl yes_word ↦
            rw (long, yes_word) (cut-Takes (1 + run letter points) p points (omega arith))
        | inr no_word ↦ elim (Bool-cases (number p.value)) [
          | inl digit ↦ rw (long, no_word, digit) (cut-Takes 1 p points (omega arith))
          | inr no_digit ↦ elim (Bool-cases (letter p.value)) [
            | inl in_word ↦
                absurd (let inside = letter_inside p.value in_word no_digit in ground arith)
            | inr no_letter ↦
                rw (long, no_word, no_digit) (mark_step-Takes p points no_letter no_digit)
          ]
        ]
      ]
    ]

text_of-append : (xs ys : List Codepoint) → text_of (xs ++ ys) ≡ text_of xs ++ text_of ys
unfolding text_of
text_of-append [] ys = refl
text_of-append (p ∷ xs) ys =
    ap (λ t. p.bytes ++ t) (text_of-append xs ys)
    ∙ sym (append_assoc p.bytes (text_of xs) (text_of ys))

split_loop-lem :
    (fuel : ℕ) (points : List Codepoint)
    → length points ≤ fuel
    → (pieces : List (List ℕ)) × (split_loop fuel points ≡ ok pieces)
      × (join pieces ≡ text_of points)
unfolding split_loop text_of
split_loop-lem fuel [] h = ([], refl, refl)
split_loop-lem zero (p ∷ points) h = absurd (omega arith)
split_loop-lem (suc fuel) (p ∷ points) h =
    let (piece, rest, taken, whole, shorter) = step-Takes p points in
    let (pieces, split, same) = split_loop-lem fuel rest (omega arith) in
    (
      text_of piece ∷ pieces,
      rw (taken, split) refl,
      ap (λ t. text_of piece ++ t) same ∙ sym (text_of-append piece rest) ∙ ap text_of whole,
    )

-- A text that is valid UTF-8 is cut into pieces, and the pieces one behind the other are the text.
pub split_qwen2-lem :
    (text : List ℕ) (points : List Codepoint)
    → codepoints text ≡ ok points
    → (pieces : List (List ℕ)) × (split_qwen2 text ≡ ok pieces) × (join pieces ≡ text)
unfolding split_qwen2
split_qwen2-lem text points h =
    let (pieces, split, same) = split_loop-lem (length points) points (omega arith) in
    (pieces, rw h split, same ∙ codepoints-cover text points h)

pub split_qwen2-join :
    (text : List ℕ) (pieces : List (List ℕ)) → split_qwen2 text ≡ ok pieces → join pieces ≡ text
unfolding split_qwen2
split_qwen2-join text pieces h = elim (Result-cases (codepoints text)) [
  | inl (points, e) ↦
      let (cut_up, split, same) = split_qwen2-lem text points e in
      let one : cut_up ≡ pieces = ok-injective (sym split ∙ h) in
      subst (λ ps. join ps ≡ text) one same
  | inr (e, q) ↦ absurd (ground arith)
]

failed :
    (text : List ℕ) (e e2 : Error)
    → codepoints text ≡ err e2
    → split_qwen2 text ≡ err e
    → codepoints text ≡ err e
unfolding split_qwen2
failed text e e2 q h = ground arith

-- The exceptions that could not classify the input, and the fuel, do not come up.
pub split_qwen2-error : (text : List ℕ) (e : Error) → split_qwen2 text ≡ err e → e ≡ invalid_utf8
split_qwen2-error text e h = elim (Result-cases (codepoints text)) [
  | inl (points, q) ↦ let (pieces, split, _) = split_qwen2-lem text points q in absurd (cc)
  | inr (e2, q) ↦ codepoints-error text e (failed text e e2 q h)
]
