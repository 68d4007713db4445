-- ===== src/Tokenizer/Split.antt =====
-- src/qwen3_tokenizer.cpp: how a text is cut into pieces.
use miinfer.Prelude.{
  ℕ, zero, suc, ◌+◌, Bool, false, not, ◌&&◌, ◌||◌, List, [], ◌∷◌, Result, ok, err, ◌>>=◌, leb, ltb,
  ◌==◌, if◌then◌else◌, length, take, drop,
}
use miinfer.Tokenizer.Types.{Error, Codepoint, text_of, unclassified, out_of_fuel}
use miinfer.Tokenizer.Utf8.{codepoints}

unfoldable pub letter : ℕ → Bool
letter value = leb 65 value && leb value 90 || leb 97 value && leb value 122 || leb 128 value

unfoldable pub number : ℕ → Bool
number value = leb 48 value && leb value 57

unfoldable pub whitespace : ℕ → Bool
whitespace value =
    (value == 32)
    || (value == 9)
    || (value == 10)
    || (value == 13)
    || (value == 11)
    || (value == 12)

unfoldable pub punctuation : ℕ → Bool
unfolding whitespace letter number
punctuation value = not (whitespace value) && not (letter value) && not (number value)

unfoldable pub value_is_newline : ℕ → Bool
value_is_newline value = (value == 13) || (value == 10)

-- How many code points at the front pass a test: the loops `while (pos < size && test) ++pos`.
unfoldable pub run : (ℕ → Bool) → List Codepoint → ℕ
run test [] = 0
run test (p ∷ points) = let later = run test points in if test p.value then later + 1 else 0

-- `pos < points.size() && test(points[pos].value)`
unfoldable pub at_front : (ℕ → Bool) → List Codepoint → Bool
at_front test [] = false
at_front test (p ∷ points) = test p.value

-- The suffixes of one letter, s t m d, and of two, re ve ll, in either case.
unfoldable pub one_letter : ℕ → Bool
one_letter next =
    (next == 115)
    || (next == 83)
    || (next == 116)
    || (next == 84)
    || (next == 109)
    || (next == 77)
    || (next == 100)
    || (next == 68)

unfoldable pub two_letters : ℕ → ℕ → Bool
two_letters next third =
    ((next == 114) || (next == 82)) && ((third == 101) || (third == 69))
    || ((next == 118) || (next == 86)) && ((third == 101) || (third == 69))
    || ((next == 108) || (next == 76)) && ((third == 108) || (third == 76))

-- The length of a contraction at the front, 0 where there is none.
unfoldable pub contraction : List Codepoint → ℕ
unfolding one_letter two_letters
contraction [] = 0
contraction (p ∷ []) = 0
contraction (p ∷ next ∷ []) = if (p.value == 39) && one_letter next.value then 2 else 0
contraction (p ∷ next ∷ third ∷ points) =
    if p.value == 39
    then (if one_letter next.value then 2 else if two_letters next.value third.value then 3 else 0)
    else 0

-- The end of a round: n code points are the piece, and the round goes on behind them.
abbrev pub cut : ℕ → List Codepoint → List Codepoint × List Codepoint
cut n points = (take n points, drop n points)

-- Punctuation with the newlines behind it, from punctuation_start on, where `skipped` code points
-- are in front of pos.
unfoldable pub punctuation_run : ℕ → List Codepoint → ℕ
unfolding run punctuation value_is_newline
punctuation_run skipped points =
    let marks = run punctuation (drop skipped points) in
    skipped + marks + run value_is_newline (drop (skipped + marks) points)

-- White space from pos on, which is whitespace_start; otherwise the exception.
unfoldable pub whitespace_step : List Codepoint → Result Error (List Codepoint × List Codepoint)
unfolding run whitespace
whitespace_step points =
    let n = run whitespace points in if ltb 0 n then ok (cut n points) else err unclassified

-- `starts_with_space && pos + 1 < points.size() && punctuation(points[pos + 1].value)`
unfoldable pub skipped_space : List Codepoint → ℕ
unfolding at_front punctuation
skipped_space points =
    if at_front (λ v. v == 32) points && at_front punctuation (drop 1 points) then 1 else 0

unfoldable pub mark_step : List Codepoint → Result Error (List Codepoint × List Codepoint)
unfolding skipped_space at_front punctuation_run whitespace_step
mark_step points =
    let skipped = skipped_space points in
    if at_front punctuation (drop skipped points)
    then ok (cut (punctuation_run skipped points) points)
    else whitespace_step (drop skipped points)

-- One round: the piece, and the code points from the next pos on.
unfoldable pub step : Codepoint → List Codepoint → Result Error (List Codepoint × List Codepoint)
unfolding contraction letter number value_is_newline run at_front mark_step
step p points =
    let short = contraction (p ∷ points) in
    if ltb 0 short
    then ok (cut short (p ∷ points))
    else if not (value_is_newline p.value)
        && not (number p.value)
        && (letter p.value || at_front letter points)
    then ok (cut (1 + run letter points) (p ∷ points))
    else if number p.value
    then ok (cut 1 (p ∷ points))
    else mark_step (p ∷ points)

unfoldable pub split_loop : ℕ → List Codepoint → Result Error (List (List ℕ))
unfolding step text_of
split_loop fuel [] = ok []
split_loop zero (p ∷ points) = err out_of_fuel
split_loop (suc fuel) (p ∷ points) = do
  (piece, rest) ← step p points
  pieces ← split_loop fuel rest
  ok (text_of piece ∷ pieces)

unfoldable pub split_qwen2 : List ℕ → Result Error (List (List ℕ))
unfolding codepoints split_loop
split_qwen2 text = codepoints text >>= λ points. split_loop (length points) points
