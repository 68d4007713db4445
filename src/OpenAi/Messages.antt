-- ===== src/OpenAi/Messages.antt =====
-- The loop over the messages of parse_openai_chat_request, src/openai_api.cpp, and the function
-- itself.
use miinfer.Prelude.{
  ℕ, Bool, true, false, ◌&&◌, ◌||◌, Option, none, some, List, [], ◌∷◌, ◌++◌, Result, ok, err, guard,
  ◌>>=◌, ◌>>◌, list_eq, if◌then◌else◌,
}
use miinfer.OpenAi.Words
use miinfer.OpenAi.Json.{View, null, str, arr, Json, member, view_option, string_member}
use miinfer.OpenAi.Request.{
  ChatToolCall, ChatMessage, ChatRequest, Error, message_without_role, unsupported_role,
  invalid_content, missing_content, tool_without_call_id, misplaced_tool_calls, invalid_tool_call,
  invalid_call_function, invalid_arguments, invalid_json,
}
use miinfer.OpenAi.Parse.{
  required, messages_of, model_of, stream_of, token_limit_of, stop_of, settings_of, tool_choice_of,
  value_or_empty, is_object, is_some, tools_of, text_is,
}

unfoldable pub is_role : List ℕ → Bool
is_role role =
    list_eq role Words.system_word
    || list_eq role Words.developer_word
    || list_eq role Words.user_word
    || list_eq role Words.assistant_word
    || list_eq role Words.tool_word

module _ (json : Json) where
  open json use {Value, Float, view, parse}

  -- The parts of a content, none where one of them is no text part.
  unfoldable pub text_part : Value → Option (List ℕ)
  unfolding text_is string_member
  text_part part =
      if text_is json (string_member json part Words.type_word) Words.text_word
      then string_member json part Words.text_word
      else none

  unfoldable pub joined : Option (List ℕ) → Option (List ℕ) → Option (List ℕ)
  joined none later = none
  joined (some text) none = none
  joined (some text) (some later) = some (text ++ later)

  unfoldable pub text_parts : List Value → Option (List ℕ)
  unfolding text_part joined
  text_parts [] = some []
  text_parts (part ∷ parts) = joined (text_part part) (text_parts parts)

  -- read_content, none for `false`.
  unfoldable pub read_content : View Value → Option (List ℕ)
  unfolding text_parts
  read_content (str text) = some text
  read_content null = some []
  read_content (arr parts) = text_parts parts
  read_content other = none

  unfoldable pub content_of : Option (View Value) → Bool → Result Error (List ℕ)
  unfolding read_content required
  content_of (some content) may_miss = required invalid_content (read_content content)
  content_of none true = ok []
  content_of none false = err missing_content

  -- `role` is "tool" or not.
  unfoldable pub call_id_of : Bool → Option (List ℕ) → Result Error (Option (List ℕ))
  call_id_of false id = ok none
  call_id_of true (some id) = ok (some id)
  call_id_of true none = err tool_without_call_id

  unfoldable pub tool_call_of : Value → Result Error ChatToolCall
  unfolding required member view_option string_member value_or_empty is_object is_some
  tool_call_of call = do
    guard (is_object json (view call)) invalid_tool_call
    id ← required invalid_tool_call (string_member json call Words.id_word)
    kind ← value_or_empty json (view_option json (member json call Words.type_word))
    guard (list_eq kind Words.function_word) invalid_tool_call
    function ← required invalid_tool_call (member json call Words.function_word)
    guard (is_object json (view function)) invalid_tool_call
    name ← required invalid_call_function (string_member json function Words.name_word)
    arguments ← required invalid_call_function (string_member json function Words.arguments_word)
    guard (is_some json (parse arguments)) invalid_arguments
    ok (record { id = id; name = name; arguments = arguments })

  unfoldable pub tool_calls_loop : List Value → Result Error (List ChatToolCall)
  unfolding tool_call_of
  tool_calls_loop [] = ok []
  tool_calls_loop (call ∷ calls) = do
    first ← tool_call_of call
    later ← tool_calls_loop calls
    ok (first ∷ later)

  -- `from_assistant` is `role == "assistant"`.
  unfoldable pub tool_calls_of : Bool → Option (View Value) → Result Error (List ChatToolCall)
  unfolding tool_calls_loop
  tool_calls_of from_assistant none = ok []
  tool_calls_of true (some (arr calls)) = tool_calls_loop calls
  tool_calls_of from_assistant other = err misplaced_tool_calls

  unfoldable pub message_of : Value → Result Error ChatMessage
  unfolding is_role is_object required string_member member view_option is_some content_of
      call_id_of tool_calls_of
  message_of message = do
    guard (is_object json (view message)) message_without_role
    role ← required message_without_role (string_member json message Words.role_word)
    guard (is_role role) unsupported_role
    let from_assistant = list_eq role Words.assistant_word
    content ←
        content_of (view_option json (member json message Words.content_word))
          (from_assistant && is_some json (member json message Words.tool_calls_word))
    call_id ←
        call_id_of (list_eq role Words.tool_word)
          (string_member json message Words.tool_call_id_word)
    calls ←
        tool_calls_of from_assistant (view_option json (member json message Words.tool_calls_word))
    ok (record { role = role; content = content; tool_call_id = call_id; tool_calls = calls })

  unfoldable pub messages_loop : List Value → Result Error (List ChatMessage)
  unfolding message_of
  messages_loop [] = ok []
  messages_loop (message ∷ messages) = do
    first ← message_of message
    later ← messages_loop messages
    ok (first ∷ later)

  unfoldable pub request_of : Value → Result Error (ChatRequest Float)
  unfolding messages_of model_of stream_of token_limit_of stop_of settings_of tool_choice_of
      tools_of messages_loop member view_option
  request_of root = do
    messages ← messages_of json (view_option json (member json root Words.messages_word))
    model ← model_of json (view_option json (member json root Words.model_word))
    stream ← stream_of json (view_option json (member json root Words.stream_word))
    max_tokens ←
        token_limit_of json (view_option json (member json root Words.max_completion_tokens_word))
          (view_option json (member json root Words.max_tokens_word))
    tool_choice ← tool_choice_of json (member json root Words.tool_choice_word)
    tools ← tools_of json (view_option json (member json root Words.tools_word))
    parsed ← messages_loop messages
    ok (record {
      model = model;
      messages = parsed;
      tools = tools;
      stop = stop_of json (view_option json (member json root Words.stop_word));
      tool_choice = tool_choice;
      stream = stream;
      max_tokens = max_tokens;
      settings = settings_of json root;
    })

  unfoldable pub parse_openai_chat_request : List ℕ → Result Error (ChatRequest Float)
  unfolding request_of required
  parse_openai_chat_request body = required invalid_json (parse body) >>= request_of
