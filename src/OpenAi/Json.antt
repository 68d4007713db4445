-- ===== src/OpenAi/Json.antt =====
-- The JSON library that src/openai_api.cpp calls, as far as it calls it: a parameter of the model.
use miinfer.Prelude.{ℕ, Bool, ◌≡◌, Option, none, some, List, [], ◌∷◌, list_eq, if◌then◌else◌}

-- What a value is, by the tests is_null, is_boolean, is_number_unsigned, is_number, is_string,
-- is_array and is_object; `number` is a number that is not unsigned.
pub data View (J : Type 0) : Type 0 where
  null number : View J
  boolean : Bool → View J
  unsigned : ℕ → View J
  str : List ℕ → View J
  arr : List J → View J
  obj : List (List ℕ × J) → View J

-- `parse` and `dump` are none where they throw: text that is no JSON, and strings that are no UTF-8. The library's documentation says that `json::object()` is an
-- object without members.
pub record Json : Type 1 where
  pub Value : Type 0
  pub Float : Type 0
  pub view : Value → View Value
  pub parse : List ℕ → Option Value
  pub dump : Value → Option (List ℕ)
  pub to_float : Value → Float
  -- A string, and an object by its members, as the initializer lists of the library make them.
  pub of_text : List ℕ → Value
  pub of_members : List (List ℕ × Value) → Value
  pub empty_object : Value
  pub view-empty_object : view empty_object ≡ obj []

unfoldable pub find_member {ℓ} : {J : Type ℓ} → List ℕ → List (List ℕ × J) → Option J
find_member key [] = none
find_member key ((k, v) ∷ entries) =
    let later = find_member key entries in if list_eq k key then some v else later

unfoldable pub member_of : {J : Type 0} → List ℕ → View J → Option J
unfolding find_member
member_of key (obj entries) = find_member key entries
member_of key other = none

unfoldable pub text_view : {J : Type 0} → View J → Option (List ℕ)
text_view (str text) = some text
text_view other = none

module _ (json : Json) where
  open json use {Value, view}

  -- `value.contains(key)`, with `value[key]`.
  unfoldable pub member : Value → List ℕ → Option Value
  unfolding member_of
  member value key = member_of key (view value)

  unfoldable pub view_option : Option Value → Option (View Value)
  view_option none = none
  view_option (some value) = some (view value)

  -- `value.contains(key) && value[key].is_string()`, with the string.
  unfoldable pub string_option : Option Value → Option (List ℕ)
  unfolding text_view
  string_option none = none
  string_option (some value) = text_view (view value)

  unfoldable pub string_member : Value → List ℕ → Option (List ℕ)
  unfolding member string_option
  string_member value key = string_option (member value key)
