-- ===== src/OpenAi/Request.antt =====
-- The data of include/miinfer/openai_api.hpp.
use miinfer.Prelude.{ℕ, Bool, Option, List}

pub record ChatToolCall : Type 0 where
  pub id : List ℕ
  pub name : List ℕ
  pub arguments : List ℕ

pub record ChatTool : Type 0 where
  pub name : List ℕ
  pub description : List ℕ
  pub parameters_json : List ℕ

pub record ChatMessage : Type 0 where
  pub role : List ℕ
  pub content : List ℕ
  pub tool_call_id : Option (List ℕ)
  pub tool_calls : List ChatToolCall

-- The settings that are numbers: none stands for the initializer of the member.
pub record Settings (F : Type 0) : Type 0 where
  pub temperature : Option F
  pub top_p : Option F
  pub top_k : Option ℕ
  pub repetition_penalty : Option F
  pub frequency_penalty : Option F
  pub presence_penalty : Option F
  pub repeat_last_n : Option ℕ

pub record ChatRequest (F : Type 0) : Type 0 where
  pub model : Option (List ℕ)
  pub messages : List ChatMessage
  pub tools : List ChatTool
  pub stop : List (List ℕ)
  pub tool_choice : List ℕ
  pub stream : Bool
  pub max_tokens : Option ℕ
  pub settings : Settings F

-- OpenAiParseResult::error.
pub data Error : Type 0 where
  no_messages model_not_string stream_not_boolean : Error
  completion_tokens_not_unsigned completion_tokens_zero completion_tokens_too_large : Error
  max_tokens_not_unsigned max_tokens_zero max_tokens_too_large : Error
  unsupported_tool_choice invalid_tool_choice tools_not_array only_function_tools : Error
  tool_without_name parameters_not_object message_without_role unsupported_role : Error
  invalid_content missing_content tool_without_call_id misplaced_tool_calls : Error
  invalid_tool_call invalid_call_function invalid_arguments invalid_json : Error

-- kMaxOutputTokens
abbrev pub max_output_tokens : ℕ
max_output_tokens = 65536
