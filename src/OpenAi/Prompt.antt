-- ===== src/OpenAi/Prompt.antt =====
-- build_chatml, src/openai_api.cpp: the prompt of a request.
pub mod Documented
pub mod Returns
use miinfer.Prelude.{
  ℕ, zero, suc, ◌+◌, Bool, true, false, not, ◌&&◌, ◌||◌, Option, none, some, List, [], ◌∷◌, ◌++◌,
  Result, ok, err, ◌>>=◌, list_eq, if◌then◌else◌, length, join,
}
use miinfer.OpenAi.Words
use miinfer.OpenAi.Literals
use miinfer.OpenAi.Json.{View, str, obj, Json}
use miinfer.OpenAi.Request.{ChatToolCall, ChatTool, ChatMessage, ChatRequest}

-- The exceptions of json::parse and of dump, and the end of the loop's fuel.
pub data PromptError : Type 0 where
  parse_error dump_error out_of_fuel : PromptError

unfoldable pub parsed {ℓ} : {A : Type ℓ} → Option A → Result PromptError A
parsed none = err parse_error
parsed (some a) = ok a

unfoldable pub dumped : Option (List ℕ) → Result PromptError (List ℕ)
dumped none = err dump_error
dumped (some text) = ok text

unfoldable pub is_empty {ℓ} : {A : Type ℓ} → List A → Bool
is_empty [] = true
is_empty (x ∷ xs) = false

-- The role "system" or "developer".
unfoldable pub is_system : ChatMessage → Bool
is_system m = list_eq m.role Words.system_word || list_eq m.role Words.developer_word

unfoldable pub is_tool : ChatMessage → Bool
is_tool m = list_eq m.role Words.tool_word

-- One round of append_tool_result_messages.
unfoldable pub response : ChatMessage → List ℕ
response m = Literals.response_open ++ (m.content ++ Literals.response_close)

-- Its loop: what it appends, and the messages from the index on that it leaves.
unfoldable pub tool_results : List ChatMessage → List ℕ × List ChatMessage
unfolding is_tool response
tool_results [] = ([], [])
tool_results (m ∷ messages) =
    let later = tool_results messages in
    if is_tool m then (response m ++ later.0, later.1) else ([], m ∷ messages)

module _ (json : Json) where
  open json use {Value, Float, view, parse, dump, of_text, of_members}

  -- value_for_qwen_parameter
  unfoldable pub value_text : Value → View Value → Result PromptError (List ℕ)
  unfolding dumped
  value_text value (str text) = ok text
  value_text value other = dumped (dump value)

  unfoldable pub parameters_text : List (List ℕ × Value) → Result PromptError (List ℕ)
  unfolding value_text
  parameters_text [] = ok []
  parameters_text ((name, value) ∷ entries) = do
    text ← value_text value (view value)
    later ← parameters_text entries
    ok (
        Literals.parameter_open
        ++ (name ++ (Literals.tag_close ++ (text ++ (Literals.parameter_close ++ later)))))

  unfoldable pub arguments_text : View Value → Result PromptError (List ℕ)
  unfolding parameters_text
  arguments_text (obj entries) = parameters_text entries
  arguments_text other = ok []

  -- One round of append_assistant_tool_calls behind the opening tag.
  unfoldable pub call_text : ChatToolCall → Result PromptError (List ℕ)
  unfolding parsed arguments_text
  call_text call = do
    arguments ← parsed (parse call.arguments)
    text ← arguments_text (view arguments)
    ok (
        Literals.function_open
        ++ (call.name ++ (Literals.tag_close ++ (text ++ Literals.call_close))))

  -- The rounds from the second one on.
  unfoldable pub later_calls : List ChatToolCall → Result PromptError (List ℕ)
  unfolding call_text
  later_calls [] = ok []
  later_calls (call ∷ calls) = do
    text ← call_text call
    later ← later_calls calls
    ok (Literals.next_call_open ++ (text ++ later))

  unfoldable pub calls_text : List ℕ → List ChatToolCall → Result PromptError (List ℕ)
  unfolding call_text later_calls is_empty
  calls_text content [] = ok []
  calls_text content (call ∷ calls) = do
    text ← call_text call
    later ← later_calls calls
    ok (
        (if is_empty content then Literals.call_open else Literals.blank_call_open)
        ++ (text ++ later))

  -- What the loop appends for a message that is no answer of a tool.
  unfoldable pub message_text : ChatMessage → Result PromptError (List ℕ)
  unfolding calls_text
  message_text m = do
    calls ← if list_eq m.role Words.assistant_word then calls_text m.content m.tool_calls else ok []
    ok (
        Literals.im_start
        ++ ((if list_eq m.role Words.developer_word then Words.system_word else m.role)
            ++ (Literals.newline ++ (m.content ++ (calls ++ Literals.im_end)))))

  -- The loop over the messages from the index on. A round takes one message, or the answers that
  -- stand together.
  unfoldable pub messages_text : ℕ → List ChatMessage → Result PromptError (List ℕ)
  unfolding is_tool tool_results message_text
  messages_text fuel [] = ok []
  messages_text zero (m ∷ messages) = err out_of_fuel
  messages_text (suc fuel) (m ∷ messages) = elim (is_tool m) [
    | true ↦ do
      later ← messages_text fuel ((tool_results (m ∷ messages)).1)
      ok (Literals.user_open ++ ((tool_results (m ∷ messages)).0 ++ (Literals.im_end ++ later)))
    | false ↦ do text ← message_text m; later ← messages_text fuel messages; ok (text ++ later)
  ]

  unfoldable pub tool_json : ChatTool → Result PromptError (List ℕ)
  unfolding parsed dumped
  tool_json tool = do
    parameters ← parsed (parse tool.parameters_json)
    dumped (
        dump (
          of_members (
            (Words.type_word, of_text Words.function_word)
            ∷ (
              Words.function_word,
              of_members (
                  (Words.name_word, of_text tool.name)
                  ∷ (Words.description_word, of_text tool.description)
                  ∷ (Words.parameters_word, parameters)
                  ∷ []),
            )
            ∷ [])))

  unfoldable pub tools_text : List ChatTool → Result PromptError (List ℕ)
  unfolding tool_json
  tools_text [] = ok []
  tools_text (tool ∷ tools) = do
    text ← tool_json tool
    later ← tools_text tools
    ok (Literals.newline ++ (text ++ later))

  -- `request.tools.empty() || request.tool_choice == "none"`
  unfoldable pub without_tools : ChatRequest Float → Bool
  unfolding is_empty
  without_tools r = is_empty r.tools || list_eq r.tool_choice Words.none_word

  -- tool_instructions, none for the empty string.
  unfoldable pub tool_instructions : ChatRequest Float → Result PromptError (Option (List ℕ))
  unfolding without_tools tools_text
  tool_instructions r = elim (without_tools r) [
    | true ↦ ok none
    | false ↦ do
      tools ← tools_text r.tools
      ok (some (Literals.tools_open ++ (tools ++ Literals.tools_close)))
  ]

  -- The content of a first system message goes behind the tools.
  unfoldable pub system_content : List ChatMessage → List ℕ
  unfolding is_system is_empty
  system_content [] = []
  system_content (m ∷ messages) =
      if is_system m && not (is_empty m.content) then Literals.blank_line ++ m.content else []

  unfoldable pub behind_system : List ChatMessage → List ChatMessage
  unfolding is_system
  behind_system [] = []
  behind_system (m ∷ messages) = if is_system m then messages else m ∷ messages

  -- The part of the prompt in front of the loop, and the messages that the loop runs over.
  unfoldable pub opening : Option (List ℕ) → List ChatMessage → List ℕ × List ChatMessage
  unfolding system_content behind_system
  opening none messages = ([], messages)
  opening (some tools) messages = (
    Literals.system_open ++ (tools ++ (system_content messages ++ Literals.im_end)),
    behind_system messages,
  )

  unfoldable pub build_chatml : ChatRequest Float → Result PromptError (List ℕ)
  unfolding tool_instructions opening messages_text
  build_chatml r = do
    tools ← tool_instructions r
    text ← messages_text (length r.messages) ((opening tools r.messages).1)
    ok ((opening tools r.messages).0 ++ (text ++ Literals.assistant_open))
