-- ===== src/OpenAi/Prompt/Returns.antt =====
-- build_chatml, src/openai_api.cpp, comes to its end on every request that was accepted.
use miinfer.Prelude.{
  ℕ, zero, suc, ◌≤◌, ◌≡◌, refl, sym, ◌<◌, err, subst, inl, inr, true, Bool-cases, Option, none,
  some, List, [], ◌∷◌, Result, ok, list_eq, length, All, arith,
}
use miinfer.OpenAi.Words
use miinfer.OpenAi.Json.{View, str, obj, Json}
use miinfer.OpenAi.Request.{ChatToolCall, ChatTool, ChatMessage, ChatRequest}
use miinfer.OpenAi.Tools.{ToolIsValid}
use miinfer.OpenAi.Calls.{CallIsValid}
use miinfer.OpenAi.Accepted.{MessageIsValid, RequestIsValid, parse_openai_chat_request-IsValid}
use miinfer.OpenAi.Messages.{parse_openai_chat_request}
use miinfer.OpenAi.Prompt.{
  PromptError, parsed, value_text, parameters_text, arguments_text, is_tool, is_system,
  tool_results, call_text, later_calls, calls_text, message_text, messages_text, tool_json,
  tools_text, without_tools, tool_instructions, behind_system, opening, build_chatml,
}
use miinfer.OpenAi.Prompt.Documented.{
  Fine, >>=-Fine, parsed-Fine, parsed-ok, dumped-Fine, IsDocumented,
}

name_ascii : All (λ c. c < 128) Words.name_word
name_ascii = (omega arith, (omega arith, (omega arith, (omega arith, tt))))

description_ascii : All (λ c. c < 128) Words.description_word
description_ascii = (
  omega arith,
  (
    omega arith,
    (
      omega arith,
      (
        omega arith,
        (
          omega arith,
          (
            omega arith,
            (omega arith, (omega arith, (omega arith, (omega arith, (omega arith, tt))))),
          ),
        ),
      ),
    ),
  ),
)

parameters_ascii : All (λ c. c < 128) Words.parameters_word
parameters_ascii = (
  omega arith,
  (
    omega arith,
    (
      omega arith,
      (
        omega arith,
        (
          omega arith,
          (omega arith, (omega arith, (omega arith, (omega arith, (omega arith, tt))))),
        ),
      ),
    ),
  ),
)

type_ascii : All (λ c. c < 128) Words.type_word
type_ascii = (omega arith, (omega arith, (omega arith, (omega arith, tt))))

function_ascii : All (λ c. c < 128) Words.function_word
function_ascii = (
  omega arith,
  (
    omega arith,
    (omega arith, (omega arith, (omega arith, (omega arith, (omega arith, (omega arith, tt)))))),
  ),
)

module _ (json : Json) (Sound : json.Value → Type 0) (law : IsDocumented json Sound) where
  open json use {Value, Float, view, parse, dump, of_text, of_members}

  value_text-Fine :
      (value : Value) (v : View Value) → Sound value → Fine json (value_text json value v)
  unfolding value_text
  value_text-Fine value (str text) sound = tt
  value_text-Fine value other sound =
      let (text, given) = law.sound_dumps value sound in dumped-Fine json (dump value) text given

  parameters_text-Fine :
      (entries : List (List ℕ × Value))
      → All (λ entry. Sound entry.1) entries
      → Fine json (parameters_text json entries)
  unfolding parameters_text
  parameters_text-Fine [] h = tt
  parameters_text-Fine ((name, value) ∷ entries) (here, h) =
      >>=-Fine json (value_text json value (view value)) _ (value_text-Fine value (view value) here)
        λ text _.
          >>=-Fine json (parameters_text json entries) _ (parameters_text-Fine entries h) λ _ _. tt

  arguments_text-Fine :
      (value : Value) (v : View Value)
      → Sound value
      → view value ≡ v
      → Fine json (arguments_text json v)
  unfolding arguments_text
  arguments_text-Fine value (obj entries) sound shape =
      parameters_text-Fine entries (law.member_sound value entries sound shape)
  arguments_text-Fine value other sound shape = tt

  call_text-Fine : (call : ChatToolCall) → CallIsValid json call → Fine json (call_text json call)
  unfolding call_text
  call_text-Fine call (value, given) =
      >>=-Fine json (parsed (parse call.arguments)) _
        (parsed-Fine json (parse call.arguments) value given)
        λ arguments got.
          let sound =
            law.parse_sound call.arguments arguments
              (parsed-ok json (parse call.arguments) arguments got) in
          >>=-Fine json (arguments_text json (view arguments)) _
            (arguments_text-Fine arguments (view arguments) sound refl) λ _ _. tt

  later_calls-Fine :
      (calls : List ChatToolCall)
      → All (CallIsValid json) calls
      → Fine json (later_calls json calls)
  unfolding later_calls
  later_calls-Fine [] h = tt
  later_calls-Fine (call ∷ calls) (here, h) =
      >>=-Fine json (call_text json call) _ (call_text-Fine call here)
        λ text _. >>=-Fine json (later_calls json calls) _ (later_calls-Fine calls h) λ _ _. tt

  calls_text-Fine :
      (content : List ℕ) (calls : List ChatToolCall)
      → All (CallIsValid json) calls
      → Fine json (calls_text json content calls)
  unfolding calls_text
  calls_text-Fine content [] h = tt
  calls_text-Fine content (call ∷ calls) (here, h) =
      >>=-Fine json (call_text json call) _ (call_text-Fine call here)
        λ text _. >>=-Fine json (later_calls json calls) _ (later_calls-Fine calls h) λ _ _. tt

  message_text-Fine : (m : ChatMessage) → MessageIsValid json m → Fine json (message_text json m)
  unfolding message_text
  message_text-Fine m v = elim (Bool-cases (list_eq m.role Words.assistant_word)) [
    | inl assistant ↦ rw assistant (
        >>=-Fine json (calls_text json m.content m.tool_calls) _
          (calls_text-Fine m.content m.tool_calls v.calls_valid) λ _ _. tt)
    | inr other ↦ rw other tt
  ]

  -- The messages that a group of answers leaves.
  tool_results-lem :
      (messages : List ChatMessage)
      → All (MessageIsValid json) messages
      → All (MessageIsValid json) ((tool_results messages).1)
        × (length ((tool_results messages).1) ≤ length messages)
  unfolding tool_results
  tool_results-lem [] h = (tt, omega arith)
  tool_results-lem (m ∷ messages) (here, h) =
      let (kept, shorter) = tool_results-lem messages h in
      elim (Bool-cases (is_tool m)) [
        | inl answer ↦ rw answer (kept, omega arith)
        | inr other ↦ rw other ((here, h), omega arith)
      ]

  tool_results-behind :
      (m : ChatMessage) (messages : List ChatMessage)
      → is_tool m ≡ true
      → (tool_results (m ∷ messages)).1 ≡ (tool_results messages).1
  unfolding tool_results
  tool_results-behind m messages answer = rw answer refl

  messages_text-Fine :
      (fuel : ℕ) (messages : List ChatMessage)
      → length messages ≤ fuel
      → All (MessageIsValid json) messages
      → Fine json (messages_text json fuel messages)
  unfolding messages_text
  messages_text-Fine fuel [] enough h = tt
  messages_text-Fine zero (m ∷ messages) enough h = absurd (omega arith)
  messages_text-Fine (suc fuel) (m ∷ messages) enough (here, h) = elim (Bool-cases (is_tool m)) [
    | inl answer ↦
        let (kept, shorter) = tool_results-lem messages h in
        let there : Fine json (messages_text json fuel ((tool_results (m ∷ messages)).1)) =
          subst (λ left. Fine json (messages_text json fuel left))
            (sym (tool_results-behind m messages answer))
            (messages_text-Fine fuel ((tool_results messages).1) (omega arith) kept) in
        rw (messages_text, answer)
          (>>=-Fine json (messages_text json fuel ((tool_results (m ∷ messages)).1)) _ there
            λ _ _. tt)
    | inr other ↦
        rw (messages_text, other)
          (>>=-Fine json (message_text json m) _ (message_text-Fine m here) λ text _.
            >>=-Fine json (messages_text json fuel messages) _
              (messages_text-Fine fuel messages (omega arith) h) λ _ _. tt)
  ]

  -- The name and the description of a tool are UTF-8.
  abbrev pub IsUtf8Named : ChatTool → Type 0
  IsUtf8Named tool = Sound (of_text tool.name) × Sound (of_text tool.description)

  tool_json-Fine :
      (tool : ChatTool) → IsUtf8Named tool → ToolIsValid json tool → Fine json (tool_json json tool)
  unfolding tool_json
  tool_json-Fine tool (name, description) (value, shown) =
      let (again, given) = law.dump_parses value tool.parameters_json shown in
      >>=-Fine json (parsed (parse tool.parameters_json)) _
        (parsed-Fine json (parse tool.parameters_json) again given)
        λ parameters got.
          let sound =
            law.parse_sound tool.parameters_json parameters
              (parsed-ok json (parse tool.parameters_json) parameters got) in
          let function = law.object_sound _ (
            (name_ascii, name),
            ((description_ascii, description), ((parameters_ascii, sound), tt)),
          ) in
          let whole = law.object_sound _ (
            (type_ascii, law.text_sound Words.function_word function_ascii),
            ((function_ascii, function), tt),
          ) in
          let (text, fine) = law.sound_dumps _ whole in dumped-Fine json (dump _) text fine

  tools_text-Fine :
      (tools : List ChatTool)
      → All IsUtf8Named tools
      → All (ToolIsValid json) tools
      → Fine json (tools_text json tools)
  unfolding tools_text
  tools_text-Fine [] named h = tt
  tools_text-Fine (tool ∷ tools) (text, named) (here, h) =
      >>=-Fine json (tool_json json tool) _ (tool_json-Fine tool text here)
        λ _ _. >>=-Fine json (tools_text json tools) _ (tools_text-Fine tools named h) λ _ _. tt

  tool_instructions-Fine :
      (r : ChatRequest Float)
      → All IsUtf8Named r.tools
      → RequestIsValid json r
      → Fine json (tool_instructions json r)
  unfolding tool_instructions
  tool_instructions-Fine r named v = elim (Bool-cases (without_tools json r)) [
    | inl nothing ↦ rw (tool_instructions, nothing) tt
    | inr some_tools ↦
        rw (tool_instructions, some_tools)
          (>>=-Fine json (tools_text json r.tools) _ (tools_text-Fine r.tools named v.tools_valid)
            λ _ _. tt)
  ]

  opening-lem :
      (tools : Option (List ℕ)) (messages : List ChatMessage)
      → All (MessageIsValid json) messages
      → All (MessageIsValid json) ((opening json tools messages).1)
        × (length ((opening json tools messages).1) ≤ length messages)
  unfolding opening behind_system
  opening-lem none messages h = (h, omega arith)
  opening-lem (some tools) [] h = (tt, omega arith)
  opening-lem (some tools) (m ∷ messages) (here, h) = elim (Bool-cases (is_system m)) [
    | inl system ↦ rw system (h, omega arith)
    | inr other ↦ rw other ((here, h), omega arith)
  ]

  build_chatml-Fine :
      (r : ChatRequest Float)
      → All IsUtf8Named r.tools
      → RequestIsValid json r
      → Fine json (build_chatml json r)
  unfolding build_chatml
  build_chatml-Fine r named v =
      >>=-Fine json (tool_instructions json r) _ (tool_instructions-Fine r named v) λ tools _.
        let (valid, shorter) = opening-lem tools r.messages v.messages_valid in
        >>=-Fine json (messages_text json (length r.messages) ((opening json tools r.messages).1)) _
          (messages_text-Fine (length r.messages) ((opening json tools r.messages).1) shorter valid)
          λ _ _. tt

  returned :
      (result : Result PromptError (List ℕ))
      → Fine json result
      → (prompt : List ℕ) × (result ≡ ok prompt)
  returned (ok prompt) h = (prompt, refl)
  returned (err e) h = absurd h

  -- Where the JSON library does what it documents, build_chatml returns a prompt for every request
  -- that parse_openai_chat_request accepted and whose tools have names and descriptions in UTF-8:
  -- neither a parse nor a dump throws, and the loop comes to its end.
  pub build_chatml-Returns :
      (body : List ℕ) (r : ChatRequest Float)
      → All IsUtf8Named r.tools
      → parse_openai_chat_request json body ≡ ok r
      → (prompt : List ℕ) × (build_chatml json r ≡ ok prompt)
  build_chatml-Returns body r named accepted =
      returned (build_chatml json r)
        (build_chatml-Fine r named (parse_openai_chat_request-IsValid json body r accepted))
