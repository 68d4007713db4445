-- ===== src/OpenAi/Parse.antt =====
-- parse_openai_chat_request, src/openai_api.cpp.
use miinfer.Prelude.{
  ℕ, ◌%◌, Bool, true, false, ◌&&◌, ◌||◌, Option, none, some, List, [], ◌∷◌, Result, ok, err, guard,
  ◌>>=◌, ◌>>◌, list_eq, ltb, ◌==◌, if◌then◌else◌,
}
use miinfer.OpenAi.Words
use miinfer.OpenAi.Json.{
  View, null, number, boolean, unsigned, str, arr, obj, Json, text_view, member, view_option,
  string_member,
}
use miinfer.OpenAi.Request.{
  ChatTool, Settings, Error, no_messages, model_not_string, stream_not_boolean,
  completion_tokens_not_unsigned, completion_tokens_zero, completion_tokens_too_large,
  max_tokens_not_unsigned, max_tokens_zero, max_tokens_too_large, unsupported_tool_choice,
  invalid_tool_choice, tools_not_array, only_function_tools, tool_without_name,
  parameters_not_object, invalid_json, max_output_tokens,
}

-- `throw` or an answer with an error where there is no value.
unfoldable pub required {ℓ} : {A : Type ℓ} → Error → Option A → Result Error A
required e none = err e
required e (some a) = ok a

module _ (json : Json) where
  open json use {Value, Float, view, parse, dump, to_float, empty_object}

  -- `!json["messages"].is_array() || json["messages"].empty()`
  unfoldable pub messages_of : Option (View Value) → Result Error (List Value)
  messages_of (some (arr (message ∷ messages))) = ok (message ∷ messages)
  messages_of other = err no_messages

  unfoldable pub model_of : Option (View Value) → Result Error (Option (List ℕ))
  model_of none = ok none
  model_of (some (str text)) = ok (some text)
  model_of (some other) = err model_not_string

  unfoldable pub stream_of : Option (View Value) → Result Error Bool
  stream_of none = ok false
  stream_of (some (boolean b)) = ok b
  stream_of (some other) = err stream_not_boolean

  -- A limit that is given, with the three errors of its name.
  unfoldable pub limit_of : Error → Error → Error → View Value → Result Error (Option ℕ)
  limit_of not_unsigned is_zero too_large (unsigned n) =
      if n == 0 then err is_zero else if ltb max_output_tokens n then err too_large else ok (some n)
  limit_of not_unsigned is_zero too_large other = err not_unsigned

  unfoldable pub max_tokens_of : Option (View Value) → Result Error (Option ℕ)
  unfolding limit_of
  max_tokens_of none = ok none
  max_tokens_of (some null) = ok none
  max_tokens_of (some other) =
      limit_of max_tokens_not_unsigned max_tokens_zero max_tokens_too_large other

  -- The second name counts where the first is missing or null.
  unfoldable pub token_limit_of :
      Option (View Value) → Option (View Value) → Result Error (Option ℕ)
  unfolding limit_of max_tokens_of
  token_limit_of none second = max_tokens_of second
  token_limit_of (some null) second = max_tokens_of second
  token_limit_of (some first) second =
      limit_of completion_tokens_not_unsigned completion_tokens_zero completion_tokens_too_large
        first

  unfoldable pub texts : List Value → List (List ℕ)
  unfolding text_view
  texts [] = []
  texts (value ∷ values) =
      let later = texts values in
      elim (text_view (view value)) [ none ↦ later | some text ↦ text ∷ later ]

  unfoldable pub stop_of : Option (View Value) → List (List ℕ)
  unfolding texts
  stop_of (some (str text)) = text ∷ []
  stop_of (some (arr values)) = texts values
  stop_of other = []

  unfoldable pub is_number : View Value → Bool
  is_number number = true
  is_number (unsigned n) = true
  is_number other = false

  unfoldable pub float_of : Option Value → Option Float
  unfolding is_number
  float_of none = none
  float_of (some value) = if is_number (view value) then some (to_float value) else none

  unfoldable pub unsigned_of : Option (View Value) → Option ℕ
  unsigned_of (some (unsigned n)) = some n
  unsigned_of other = none

  -- `if (first) ... else if (second) ...`
  unfoldable pub either : Option Float → Option Float → Option Float
  either none second = second
  either (some first) second = some first

  -- `get<std::uint32_t>()`
  unfoldable pub narrow : Option ℕ → Option ℕ
  narrow none = none
  narrow (some n) = some (n % 4294967296)

  unfoldable pub settings_of : Value → Settings Float
  unfolding member view_option float_of unsigned_of either narrow
  settings_of root = record {
    temperature = float_of (member json root Words.temperature_word);
    top_p = float_of (member json root Words.top_p_word);
    top_k = narrow (unsigned_of (view_option json (member json root Words.top_k_word)));
    repetition_penalty =
        either (float_of (member json root Words.repetition_penalty_word))
          (float_of (member json root Words.repeat_penalty_word));
    frequency_penalty = float_of (member json root Words.frequency_penalty_word);
    presence_penalty = float_of (member json root Words.presence_penalty_word);
    repeat_last_n = unsigned_of (view_option json (member json root Words.repeat_last_n_word));
  }

  unfoldable pub is_choice : List ℕ → Bool
  is_choice text =
      list_eq text Words.none_word
      || list_eq text Words.auto_word
      || list_eq text Words.required_word

  unfoldable pub text_is : Option (List ℕ) → List ℕ → Bool
  text_is none word = false
  text_is (some text) word = list_eq text word

  unfoldable pub is_some {ℓ} : {A : Type ℓ} → Option A → Bool
  is_some none = false
  is_some (some a) = true

  -- `choice["function"]["name"]` is a string; `member` of what is no object is none.
  unfoldable pub names_function : Value → Bool
  unfolding member string_member text_is is_some
  names_function choice =
      text_is (string_member json choice Words.type_word) Words.function_word
      && elim (member json choice Words.function_word) [
        | none ↦ false
        | some function ↦ is_some (string_member json function Words.name_word)
      ]

  unfoldable pub tool_choice_of : Option Value → Result Error (List ℕ)
  unfolding is_choice names_function text_view
  tool_choice_of none = ok Words.auto_word
  tool_choice_of (some choice) = elim (text_view (view choice)) [
    | some text ↦ if is_choice text then ok text else err unsupported_tool_choice
    | none ↦ if names_function choice then ok Words.required_word else err invalid_tool_choice
  ]

  -- `object.value(key, "")`, which throws on a value that is no string.
  unfoldable pub value_or_empty : Option (View Value) → Result Error (List ℕ)
  value_or_empty none = ok []
  value_or_empty (some (str text)) = ok text
  value_or_empty (some other) = err invalid_json

  unfoldable pub is_object : View Value → Bool
  is_object (obj entries) = true
  is_object other = false

  unfoldable pub is_object_option : Option (View Value) → Bool
  unfolding is_object
  is_object_option none = false
  is_object_option (some v) = is_object v

  unfoldable pub or_else {ℓ} : {A : Type ℓ} → A → Option A → A
  or_else a none = a
  or_else a (some b) = b

  unfoldable pub tool_of : Value → Result Error ChatTool
  unfolding required member view_option string_member value_or_empty is_object is_object_option
      or_else
  tool_of tool = do
    guard (is_object (view tool)) only_function_tools
    kind ← value_or_empty (view_option json (member json tool Words.type_word))
    guard (list_eq kind Words.function_word) only_function_tools
    function ← required only_function_tools (member json tool Words.function_word)
    guard (is_object (view function)) only_function_tools
    name ← required tool_without_name (string_member json function Words.name_word)
    description ← value_or_empty (view_option json (member json function Words.description_word))
    let parameters = or_else empty_object (member json function Words.parameters_word)
    guard (is_object (view parameters)) parameters_not_object
    text ← required invalid_json (dump parameters)
    ok (record { name = name; description = description; parameters_json = text })

  unfoldable pub tools_loop : List Value → Result Error (List ChatTool)
  unfolding tool_of
  tools_loop [] = ok []
  tools_loop (tool ∷ tools) = do first ← tool_of tool; later ← tools_loop tools; ok (first ∷ later)

  unfoldable pub tools_of : Option (View Value) → Result Error (List ChatTool)
  unfolding tools_loop
  tools_of none = ok []
  tools_of (some (arr tools)) = tools_loop tools
  tools_of (some other) = err tools_not_array
