-- ===== src/Tokenizer/Types.antt =====
-- src/qwen3_tokenizer.cpp and include/miinfer/qwen3_tokenizer.hpp: the data of the tokenizer.
use miinfer.Prelude.{ℕ, Bool, List, [], ◌∷◌, ◌++◌, Option, none, some, list_eq, if◌then◌else◌}

-- The exceptions of encode and decode, and the end of a loop's fuel.
pub data Error : Type 0 where
  invalid_utf8 unclassified unknown_token token_out_of_range out_of_fuel : Error

-- A code point with `text.substr(begin, end - begin)`.
pub record Codepoint : Type 0 where
  pub value : ℕ
  pub bytes : List ℕ

-- `text.substr(points[first].begin, points[last].end - points[first].begin)`: the code points
-- stand one behind the other in the text.
unfoldable pub text_of : List Codepoint → List ℕ
text_of [] = []
text_of (p ∷ points) = p.bytes ++ text_of points

-- std::unordered_map<std::string, std::uint32_t>
abbrev pub Dictionary : Type 0
Dictionary = List (List ℕ × ℕ)

unfoldable pub find : Dictionary → List ℕ → Option ℕ
find [] key = none
find ((k, v) ∷ entries) key = let rest = find entries key in if list_eq k key then some v else rest

-- `emplace`: an entry that is there stays as it is.
unfoldable pub emplace : Dictionary → List ℕ → ℕ → Dictionary
emplace entries key value = entries ++ (key, value) ∷ []

pub record Tokenizer : Type 0 where
  pub tokens : List (List ℕ)
  pub token_to_id : Dictionary
  pub merge_ranks : Dictionary
  pub bos_id : ℕ
  pub eos_id : ℕ
  pub add_bos : Bool
  pub add_eos : Bool
