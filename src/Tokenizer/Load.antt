-- ===== src/Tokenizer/Load.antt =====
-- src/qwen3_tokenizer.cpp: the tokenizer of a GGUF file.
pub mod Consistent
use miinfer.Prelude.{
  ℕ, zero, suc, ◌+◌, ◌%◌, ◌^◌, Bool, true, false, not, ◌&&◌, ◌||◌, Option, none, some, List, [],
  ◌∷◌, ◌++◌, Result, ok, err, guard, ◌>>=◌, ◌>>◌, list_eq, if◌then◌else◌, ◌==◌,
}
use miinfer.Gguf.Types.{File, Scalar, Value, unsigned, bool, str, scalar, array}
use miinfer.Gguf.Metadata.{metadata}
use miinfer.Tokenizer.Types.{Dictionary, emplace, Tokenizer}
use miinfer.Tokenizer.Encode.{merge_key}

-- The exceptions of load, with the key that they name.
pub data LoadError : Type 0 where
  unsupported_format unsupported_tokenizer non_string_token non_string_merge : LoadError
  invalid_merge : LoadError
  missing_or_non_array missing_metadata not_unsigned not_scalar not_boolean : List ℕ → LoadError

-- The bytes of the string literals: "tokenizer.ggml." and the names behind it.
abbrev prefix : List ℕ → List ℕ
prefix name =
    116 ∷ 111 ∷ 107 ∷ 101 ∷ 110 ∷ 105 ∷ 122 ∷ 101 ∷ 114 ∷ 46 ∷ 103 ∷ 103 ∷ 109 ∷ 108 ∷ 46 ∷ name

abbrev pub model_key : List ℕ
model_key = prefix (109 ∷ 111 ∷ 100 ∷ 101 ∷ 108 ∷ [])

abbrev pub pre_key : List ℕ
pre_key = prefix (112 ∷ 114 ∷ 101 ∷ [])

abbrev pub tokens_key : List ℕ
tokens_key = prefix (116 ∷ 111 ∷ 107 ∷ 101 ∷ 110 ∷ 115 ∷ [])

abbrev pub merges_key : List ℕ
merges_key = prefix (109 ∷ 101 ∷ 114 ∷ 103 ∷ 101 ∷ 115 ∷ [])

abbrev pub bos_token_id_key : List ℕ
bos_token_id_key = prefix (98 ∷ 111 ∷ 115 ∷ 95 ∷ 116 ∷ 111 ∷ 107 ∷ 101 ∷ 110 ∷ 95 ∷ 105 ∷ 100 ∷ [])

abbrev pub eos_token_id_key : List ℕ
eos_token_id_key = prefix (101 ∷ 111 ∷ 115 ∷ 95 ∷ 116 ∷ 111 ∷ 107 ∷ 101 ∷ 110 ∷ 95 ∷ 105 ∷ 100 ∷ [])

abbrev pub add_bos_token_key : List ℕ
add_bos_token_key =
    prefix (97 ∷ 100 ∷ 100 ∷ 95 ∷ 98 ∷ 111 ∷ 115 ∷ 95 ∷ 116 ∷ 111 ∷ 107 ∷ 101 ∷ 110 ∷ [])

abbrev pub add_eos_token_key : List ℕ
add_eos_token_key =
    prefix (97 ∷ 100 ∷ 100 ∷ 95 ∷ 101 ∷ 111 ∷ 115 ∷ 95 ∷ 116 ∷ 111 ∷ 107 ∷ 101 ∷ 110 ∷ [])

abbrev pub gpt2 : List ℕ
gpt2 = 103 ∷ 112 ∷ 116 ∷ 50 ∷ []

abbrev pub qwen2 : List ℕ
qwen2 = 113 ∷ 119 ∷ 101 ∷ 110 ∷ 50 ∷ []

abbrev pub qwen35 : List ℕ
qwen35 = 113 ∷ 119 ∷ 101 ∷ 110 ∷ 51 ∷ 53 ∷ []

-- A value that is a string.
unfoldable pub string_value : Option Value → Result LoadError (List ℕ)
string_value (some (scalar (str text))) = ok text
string_value other = err unsupported_format

unfoldable pub array_value : List ℕ → Option Value → Result LoadError (List Scalar)
array_value key (some (array values)) = ok values
array_value key other = err (missing_or_non_array key)

-- std::uint32_t
abbrev pub uint32_mod : ℕ
uint32_mod = 4294967296

unfoldable pub uint_value : List ℕ → Option Value → Result LoadError ℕ
uint_value key (some (scalar (unsigned value))) = ok (value % uint32_mod)
uint_value key (some (scalar other)) = err (not_unsigned key)
uint_value key other = err (missing_metadata key)

unfoldable pub bool_value : List ℕ → Bool → Option Value → Result LoadError Bool
bool_value key fallback none = ok fallback
bool_value key fallback (some (scalar (bool value))) = ok value
bool_value key fallback (some (scalar other)) = err (not_boolean key)
bool_value key fallback (some (array values)) = err (not_scalar key)

-- The loop over the tokens, from an id on.
unfoldable pub load_tokens :
    ℕ → List (List ℕ) → Dictionary → List Scalar → Result LoadError (List (List ℕ) × Dictionary)
unfolding emplace
load_tokens id tokens ids [] = ok (tokens, ids)
load_tokens id tokens ids (str token ∷ values) =
    load_tokens (id + 1) (tokens ++ (token ∷ [])) (emplace ids token (id % uint32_mod)) values
load_tokens id tokens ids (other ∷ values) = err non_string_token

-- The text in front of the first space and the text behind it.
unfoldable pub cut_space : List ℕ → Option (List ℕ × List ℕ)
cut_space [] = none
cut_space (c ∷ text) =
    let later = cut_space text in
    if c == 32
    then some ([], text)
    else elim later [ none ↦ none | some (left, right) ↦ some (c ∷ left, right) ]

unfoldable pub separated : Option (List ℕ × List ℕ) → Result LoadError (List ℕ × List ℕ)
separated none = err invalid_merge
separated (some parts) = ok parts

-- The loop over the merges, from a rank on.
unfoldable pub load_merges : ℕ → Dictionary → List Scalar → Result LoadError Dictionary
unfolding emplace cut_space separated merge_key
load_merges rank ranks [] = ok ranks
load_merges rank ranks (str merge ∷ values) = do
  (left, right) ← separated (cut_space merge)
  load_merges (rank + 1) (emplace ranks (merge_key left right) (rank % uint32_mod)) values
load_merges rank ranks (other ∷ values) = err non_string_merge

-- The statements of load behind the loop over the tokens.
unfoldable pub load_behind : File → List (List ℕ) → Dictionary → Result LoadError Tokenizer
unfolding metadata array_value uint_value bool_value load_merges
load_behind file tokens token_to_id = do
  merge_values ← array_value merges_key (metadata file merges_key)
  merge_ranks ← load_merges 0 [] merge_values
  bos_id ← uint_value bos_token_id_key (metadata file bos_token_id_key)
  eos_id ← uint_value eos_token_id_key (metadata file eos_token_id_key)
  add_bos ← bool_value add_bos_token_key false (metadata file add_bos_token_key)
  add_eos ← bool_value add_eos_token_key false (metadata file add_eos_token_key)
  ok (record {
    tokens = tokens;
    token_to_id = token_to_id;
    merge_ranks = merge_ranks;
    bos_id = bos_id;
    eos_id = eos_id;
    add_bos = add_bos;
    add_eos = add_eos;
  })

unfoldable pub load : File → Result LoadError Tokenizer
unfolding metadata string_value array_value load_tokens load_behind
load file = do
  model ← string_value (metadata file model_key)
  pre ← string_value (metadata file pre_key)
  guard (list_eq model gpt2 && (list_eq pre qwen2 || list_eq pre qwen35)) unsupported_tokenizer
  token_values ← array_value tokens_key (metadata file tokens_key)
  (tokens, token_to_id) ← load_tokens 0 [] [] token_values
  load_behind file tokens token_to_id
