-- ===== src/Tests/Requests.antt =====
-- Two requests, in a library with a few values.
use miinfer.Prelude.{
  ℕ, All, ◌==◌, if◌then◌else◌, some-injective, length, map, ◌+◌, ◌-◌, ◌≤◌, ◌<◌, ◌≡◌, ◌↔◌, refl,
  Option, none, some, list_eq, List, [], ◌∷◌, ◌++◌, ok,
}
use miinfer.OpenAi.Words
use miinfer.OpenAi.Contract.{resolve_output_token_limit, resolve_output_token_limit_iff, IsChosen}
use miinfer.OpenAi.Json.{View, unsigned, str, arr, obj, Json}
use miinfer.OpenAi.Request.{ChatRequest}
use miinfer.OpenAi.Messages.{parse_openai_chat_request}
use miinfer.OpenAi.Literals
use miinfer.OpenAi.Prompt.{build_chatml}
use miinfer.OpenAi.Prompt.Documented.{IsDocumented}
use miinfer.OpenAi.Prompt.Returns.{build_chatml-Returns}
use miinfer.OpenAi.Accepted.{RequestIsValid, parse_openai_chat_request-IsValid}

data Handle : Type 0 where
  root messages message word limit nothing : Handle
  agent requests asked role calls call called kind tools tool described : Handle

-- root: {"messages": [{"role": "user", "content": "user"}], "max_tokens": 5}
-- agent: {"messages": [{"role": "assistant", "content": "user", "tool_calls": [{"id": "user",
-- "type": "function", "function": {"name": "user", "arguments": "user"}}]}],
-- "tools": [{"type": "function", "function": {"name": "user", "parameters": {}}}]}
unfoldable sample_view : Handle → View Handle
sample_view root = obj ((Words.messages_word, messages) ∷ (Words.max_tokens_word, limit) ∷ [])
sample_view messages = arr (message ∷ [])
sample_view message = obj ((Words.role_word, word) ∷ (Words.content_word, word) ∷ [])
sample_view word = str Words.user_word
sample_view limit = unsigned 5
sample_view nothing = obj []
sample_view agent = obj ((Words.messages_word, requests) ∷ (Words.tools_word, tools) ∷ [])
sample_view requests = arr (asked ∷ [])
sample_view asked =
    obj ((Words.role_word, role) ∷ (Words.content_word, word) ∷ (Words.tool_calls_word, calls) ∷ [])
sample_view role = str Words.assistant_word
sample_view calls = arr (call ∷ [])
sample_view call =
    obj ((Words.id_word, word) ∷ (Words.type_word, kind) ∷ (Words.function_word, called) ∷ [])
sample_view called = obj ((Words.name_word, word) ∷ (Words.arguments_word, word) ∷ [])
sample_view kind = str Words.function_word
sample_view tools = arr (tool ∷ [])
sample_view tool = obj ((Words.type_word, kind) ∷ (Words.function_word, described) ∷ [])
sample_view described = obj ((Words.name_word, word) ∷ (Words.parameters_word, nothing) ∷ [])

unfoldable sample_parse : List ℕ → Option Handle
sample_parse [] = none
sample_parse (b ∷ body) = if b == 123 then some root else some agent

unfoldable sample : Json
unfolding sample_view sample_parse
sample = record {
  Value = Handle;
  Float = Handle;
  view = sample_view;
  parse = sample_parse;
  dump = λ v. some (123 ∷ []);
  to_float = λ v. v;
  of_text = λ text. word;
  of_members = λ members. nothing;
  empty_object = nothing;
  view-empty_object = refl;
}

sample_accepted :
    (r : ChatRequest (sample.Float)) × (parse_openai_chat_request sample (123 ∷ []) ≡ ok r)
unfolding parse_openai_chat_request sample list_eq
sample_accepted = (_, refl)

parse_openai_chat_request-IsValid_example : RequestIsValid sample (sample_accepted.0)
unfolding sample
parse_openai_chat_request-IsValid_example =
    parse_openai_chat_request-IsValid sample (123 ∷ []) (sample_accepted.0) (sample_accepted.1)

resolve_output_token_limit_iff_example :
    (resolve_output_token_limit none 100 1000 ≡ some 900)
    ↔ ((0 < 900) × (100 + 900 ≤ 1000) × IsChosen none (1000 - 100) 900)
resolve_output_token_limit_iff_example = resolve_output_token_limit_iff none 100 1000 900

all_sound : {A : Type 0} (xs : List A) → All (λ x. Unit {0}) xs
all_sound [] = tt
all_sound (x ∷ xs) = (tt, all_sound xs)

named : {A : Type 0} (xs : List A) → All (λ x. Unit {0} × Unit {0}) xs
named [] = tt
named (x ∷ xs) = ((tt, tt), named xs)

sample-IsDocumented : IsDocumented sample (λ value. Unit)
unfolding sample sample_parse
sample-IsDocumented = record {
  parse_sound = λ text value h. tt;
  member_sound = λ value entries sound h. all_sound entries;
  sound_dumps = λ value sound. (_, refl);
  object_sound = λ members h. tt;
  text_sound = λ text h. tt;
  dump_parses = λ value text shown. rw (← some-injective shown) (root, refl);
}

-- The request with a tool and with a call of it.
agent_accepted :
    (r : ChatRequest (sample.Float)) × (parse_openai_chat_request sample (91 ∷ []) ≡ ok r)
unfolding parse_openai_chat_request sample list_eq
agent_accepted = (_, refl)

agent_has_both :
    (length agent_accepted.0.tools ≡ 1)
    × (map (λ m. length m.tool_calls) agent_accepted.0.messages ≡ 1 ∷ [])
unfolding agent_accepted sample
agent_has_both = (refl, refl)

build_chatml-Returns_example :
    (prompt : List ℕ) × (build_chatml sample (agent_accepted.0) ≡ ok prompt)
build_chatml-Returns_example =
    build_chatml-Returns sample (λ value. Unit) sample-IsDocumented (91 ∷ []) (agent_accepted.0)
      (named agent_accepted.0.tools) (agent_accepted.1)

-- "<|im_start|>user\nuser<|im_end|>\n<|im_start|>assistant\n"
prompt_built :
    build_chatml sample (sample_accepted.0)
    ≡ ok (
        Literals.im_start
        ++ (Words.user_word
            ++ (Literals.newline
                ++ (Words.user_word ++ (Literals.im_end ++ Literals.assistant_open)))))
unfolding build_chatml sample sample_accepted list_eq
prompt_built = refl
