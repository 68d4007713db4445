-- ===== src/Tests/Tokens.antt =====
-- A vocabulary of the 256 bytes, the token "hi" that a merge makes, and the special token <|x|>.
use miinfer.Prelude.{
  ℕ, zero, suc, ◌+◌, ◌≡◌, refl, sym, subst, Bool, true, false, Option, none, some, List, [], ◌∷◌,
  ◌++◌, ok, err, arith, All, join, inl, inr, list_eq, ◌==◌, eq_of_list_eq, Bool-cases,
  if◌then◌else◌, leb, ◌&&◌, ◌≤◌, length,
}
use miinfer.Prelude.Words.{IsByte}
use miinfer.Prelude.Below.{holds_below, holds_below-lem}
use miinfer.Tokenizer.Types.{Codepoint, Dictionary, find, Tokenizer, unknown_token}
use miinfer.Tokenizer.Utf8.{lead, follow, codepoint, codepoints_loop, codepoints, utf8}
use miinfer.Tokenizer.Utf8.Standard.{IsText, empty, ascii, two}
use miinfer.Tokenizer.Utf8.RoundTrip.{codepoints-utf8}
use miinfer.Tokenizer.Alphabet.{direct, missing, byte_to_codepoint, byte_encode, decode_piece}
use miinfer.Tokenizer.Split.{split_qwen2}
use miinfer.Tokenizer.Pieces.{split_qwen2-lem}
use miinfer.Tokenizer.Encode.{
  merge_key, best_pair, merge, known, ids_of, symbols_of, encode_pieces, encode_plain, find_special,
  candidate, special_step, encode_loop, optional_id, encode, decode,
}
use miinfer.Gguf.Types.{File, Scalar, unsigned, str, scalar, array}
use miinfer.Tokenizer.Load.{
  load, load_behind, model_key, pre_key, tokens_key, merges_key, bos_token_id_key, eos_token_id_key,
  gpt2, qwen2,
}
use miinfer.Tokenizer.Load.Consistent.{load-IsConsistent}
use miinfer.Tokenizer.Encode.Ids.{IsConsistent}
use miinfer.Tokenizer.Encode.Special.{IsPrintable, PrintableSpecials}
use miinfer.Tokenizer.Alphabet.RoundTrip.{decode_piece-byte_encode}
use miinfer.Tokenizer.Encode.Best.{pair_rank, IsBest, best_pair-IsBest}
use miinfer.Tokenizer.Encode.Merging.{merge-Merged}
use miinfer.Tokenizer.Encode.Returns.{IsExpected, encode-error}
use miinfer.Tokenizer.Encode.RoundTrip.{encode-decode}
use miinfer.Tokenizer.Encode.Complete.{IsComplete, IsKnown, encode-Returns}

-- The encoded bytes n, n + 1, ... as tokens with their ids.
unfoldable byte_tokens : ℕ → ℕ → List (List ℕ)
unfolding byte_encode
byte_tokens zero b = []
byte_tokens (suc n) b = byte_encode (b ∷ []) ∷ byte_tokens n (b + 1)

unfoldable numbered : ℕ → List (List ℕ) → Dictionary
numbered id [] = []
numbered id (token ∷ tokens) = (token, id) ∷ numbered (id + 1) tokens

abbrev special : List ℕ
special = 60 ∷ 124 ∷ 120 ∷ 124 ∷ 62 ∷ []

unfoldable vocabulary : List (List ℕ)
unfolding byte_tokens
vocabulary = (104 ∷ 105 ∷ []) ∷ special ∷ byte_tokens 256 0

unfoldable small : Tokenizer
unfolding vocabulary numbered
small = record {
  tokens = vocabulary;
  token_to_id = numbered 0 vocabulary;
  merge_ranks = (merge_key (104 ∷ []) (105 ∷ []), 0) ∷ [];
  bos_id = 0;
  eos_id = 0;
  add_bos = false;
  add_eos = false;
}

is_some : Option ℕ → Bool
is_some none = false
is_some (some n) = true

bytes_known : (b : ℕ) → IsByte b → is_some (find small.token_to_id (byte_encode (b ∷ []))) ≡ true
unfolding holds_below find numbered vocabulary small byte_tokens byte_encode byte_to_codepoint
    direct missing utf8 is_some list_eq
bytes_known b h =
    holds_below-lem 256 (λ b. is_some (find small.token_to_id (byte_encode (b ∷ [])))) refl b h

some_of : (o : Option ℕ) → is_some o ≡ true → (n : ℕ) × (o ≡ some n)
unfolding is_some
some_of none h = absurd (cc)
some_of (some n) h = (n, refl)

-- The only merge is of "h" and "i".
parts : (a b : List ℕ) → a ++ (1 ∷ b) ≡ 104 ∷ 1 ∷ 105 ∷ [] → a ++ b ≡ 104 ∷ 105 ∷ []
parts [] b h = absurd (ground arith)
parts (x ∷ []) b h = ground arith
parts (x ∷ y ∷ []) b h = absurd (ground arith)
parts (x ∷ y ∷ z ∷ []) b h = absurd (ground arith)
parts (x ∷ y ∷ z ∷ w ∷ a) b h = absurd (ground arith)

hi_known : find small.token_to_id (104 ∷ 105 ∷ []) ≡ some 0
unfolding find small vocabulary numbered byte_tokens list_eq
hi_known = refl

merge-IsKnown :
    (a b : List ℕ) (rank : ℕ)
    → find small.merge_ranks (merge_key a b) ≡ some rank
    → IsKnown small (a ++ b)
unfolding find small merge_key
merge-IsKnown a b rank h = elim (Bool-cases (list_eq (104 ∷ 1 ∷ 105 ∷ []) (a ++ (1 ∷ b)))) [
  | inl same ↦
      let whole = parts a b (sym (eq_of_list_eq (104 ∷ 1 ∷ 105 ∷ []) (a ++ (1 ∷ b)) same)) in
      subst (λ u. IsKnown small u) (sym whole) (0, hi_known)
  | inr other ↦ absurd (ground arith)
]

small-IsComplete : IsComplete small
small-IsComplete = record {
  bytes = λ b h. some_of (find small.token_to_id (byte_encode (b ∷ []))) (bytes_known b h);
  merges = merge-IsKnown;
}

-- "hi!<|x|>"
abbrev greeting : List ℕ
greeting = 104 ∷ 105 ∷ 33 ∷ 60 ∷ 124 ∷ 120 ∷ 124 ∷ 62 ∷ []

greeting_bytes : All IsByte greeting
greeting_bytes = (
  omega arith,
  (
    omega arith,
    (omega arith, (omega arith, (omega arith, (omega arith, (omega arith, (omega arith, tt)))))),
  ),
)

-- "é<|x|>", where the first character takes two bytes.
abbrev accented : List ℕ
accented = 195 ∷ 169 ∷ 60 ∷ 124 ∷ 120 ∷ 124 ∷ 62 ∷ []

accented_bytes : All IsByte accented
accented_bytes = (
  omega arith,
  (omega arith, (omega arith, (omega arith, (omega arith, (omega arith, (omega arith, tt)))))),
)

accented-IsText : IsText accented
accented-IsText = two 3 41 _ (omega arith) (omega arith) (
    ascii 60 _ (omega arith) (
      ascii 124 _ (omega arith)
        (ascii 120 _ (omega arith) (ascii 124 _ (omega arith) (ascii 62 _ (omega arith) empty)))))

encode-Returns_example : (ids : List ℕ) × (encode small accented ≡ ok ids)
encode-Returns_example =
    encode-Returns small accented small-IsComplete accented_bytes accented-IsText

greeting_encoded : encode small greeting ≡ ok (0 ∷ 35 ∷ 1 ∷ [])
unfolding encode encode_loop encode_plain encode_pieces split_qwen2 symbols_of merge ids_of
    find_special special_step optional_id known find candidate small vocabulary list_eq
greeting_encoded = refl

greeting_unknown : encode (record small { token_to_id = [] }) greeting ≡ err unknown_token
unfolding encode small list_eq
greeting_unknown = refl

-- The file that the vocabulary is loaded from.
unfoldable strings : List (List ℕ) → List Scalar
strings [] = []
strings (token ∷ tokens) = str token ∷ strings tokens

unfoldable small_file : File
unfolding strings vocabulary
small_file = record {
  mapping = [];
  version = 3;
  data_offset = 0;
  metadata =
      (model_key, scalar (str gpt2))
      ∷ (pre_key, scalar (str qwen2))
      ∷ (tokens_key, array (strings vocabulary))
      ∷ (merges_key, array (str (104 ∷ 32 ∷ 105 ∷ []) ∷ []))
      ∷ (bos_token_id_key, scalar (unsigned 0))
      ∷ (eos_token_id_key, scalar (unsigned 0))
      ∷ [];
  tensors = [];
}

small_loaded : load small_file ≡ ok small
unfolding load load_behind small_file small vocabulary list_eq
small_loaded = refl

few_tokens : length small.tokens ≤ 4294967296
unfolding small vocabulary byte_tokens
few_tokens = omega arith

load-IsConsistent_example : IsConsistent small
load-IsConsistent_example = load-IsConsistent small_file small small_loaded few_tokens

-- A test that all keys pass, at a key that is found.
all_keys : (List ℕ → Bool) → Dictionary → Bool
all_keys test [] = true
all_keys test ((key, value) ∷ entries) = test key && all_keys test entries

find-all_keys :
    (test : List ℕ → Bool) (entries : Dictionary) (key : List ℕ) (value : ℕ)
    → all_keys test entries ≡ true
    → find entries key ≡ some value
    → test key ≡ true
unfolding all_keys find
find-all_keys test [] key value h found = absurd (cc)
find-all_keys test ((k, v) ∷ entries) key value h found = elim (Bool-cases (list_eq k key)) [
  | inl same ↦ let e = eq_of_list_eq k key same in subst (λ u. test u ≡ true) e (ground arith)
  | inr other ↦ find-all_keys test entries key value (ground arith) (ground arith)
]

all_printable : List ℕ → Bool
all_printable [] = true
all_printable (b ∷ token) = leb 33 b && leb b 126 && all_printable token

all_printable-lem : (token : List ℕ) → all_printable token ≡ true → All IsPrintable token
unfolding all_printable
all_printable-lem [] h = tt
all_printable-lem (b ∷ token) h =
    ((ground arith, ground arith), all_printable-lem token (ground arith))

special_printable : List ℕ → Bool
unfolding all_printable
special_printable [] = true
special_printable (a ∷ []) = true
special_printable (a ∷ b ∷ token) =
    if a == 60 && b == 124 then all_printable (a ∷ b ∷ token) else true

small-PrintableSpecials : PrintableSpecials small
unfolding special_printable all_keys small vocabulary candidate
small-PrintableSpecials inside id found =
    all_printable-lem (candidate inside)
      (find-all_keys special_printable small.token_to_id (candidate inside) id refl found)

encode-decode_example : decode small (0 ∷ 35 ∷ 1 ∷ []) ≡ ok greeting
unfolding small
encode-decode_example =
    encode-decode small greeting (0 ∷ 35 ∷ 1 ∷ []) refl refl load-IsConsistent_example
      small-PrintableSpecials greeting_bytes greeting_encoded

encode-error_example : IsExpected unknown_token
encode-error_example =
    encode-error (record small { token_to_id = [] }) greeting unknown_token greeting_bytes
      greeting_unknown

-- "I'm 3" with the points that its bytes are.
abbrev sentence : List ℕ
sentence = 73 ∷ 39 ∷ 109 ∷ 32 ∷ 51 ∷ []

sentence_points : (points : List Codepoint) × (codepoints sentence ≡ ok points)
unfolding codepoints codepoints_loop codepoint follow lead
sentence_points = (_, refl)

sentence_split :
    split_qwen2 sentence ≡ ok ((73 ∷ []) ∷ (39 ∷ 109 ∷ []) ∷ (32 ∷ []) ∷ (51 ∷ []) ∷ [])
unfolding split_qwen2
sentence_split = refl

split_qwen2-lem_example :
    (pieces : List (List ℕ)) × (split_qwen2 sentence ≡ ok pieces) × (join pieces ≡ sentence)
split_qwen2-lem_example = split_qwen2-lem sentence (sentence_points.0) (sentence_points.1)

-- Three symbols, of which the last two are a merge.
abbrev ranks : Dictionary
ranks = (merge_key (104 ∷ []) (105 ∷ []), 7) ∷ []

abbrev symbols : List (List ℕ)
symbols = (33 ∷ []) ∷ (104 ∷ []) ∷ (105 ∷ []) ∷ []

symbols_merged : merge ranks symbols ≡ (33 ∷ []) ∷ (104 ∷ 105 ∷ []) ∷ []
unfolding merge list_eq
symbols_merged = refl

merge-Merged_example : pair_rank ranks (merge ranks symbols) 0 ≡ none
merge-Merged_example = merge-Merged ranks symbols 0

best_pair-IsBest_example : IsBest ranks symbols (best_pair ranks symbols)
best_pair-IsBest_example = best_pair-IsBest ranks symbols

codepoints-utf8_example :
    codepoints (utf8 8364) ≡ ok (record { value = 8364; bytes = utf8 8364 } ∷ [])
codepoints-utf8_example = codepoints-utf8 8364 (omega arith)

decode_piece-byte_encode_example : decode_piece (byte_encode (32 ∷ 104 ∷ [])) ≡ ok (32 ∷ 104 ∷ [])
decode_piece-byte_encode_example =
    decode_piece-byte_encode (32 ∷ 104 ∷ []) (omega arith, (omega arith, tt))
