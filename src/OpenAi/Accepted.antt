-- ===== src/OpenAi/Accepted.antt =====
-- What parse_openai_chat_request, src/openai_api.cpp, lets through.
use miinfer.Prelude.{
  ℕ, suc, ◌<◌, ◌≡◌, refl, ap, sym, subst, ◌⊎◌, inl, inr, Bool, true, false, ◌&&◌, Option, none,
  some, List, [], ◌∷◌, length, Result, ok, guard, guard-eq-ok, >>=-ok, ok-injective, list_eq,
  eq_of_list_eq, All, arith,
}
use miinfer.OpenAi.Words
use miinfer.OpenAi.Json.{View, arr, Json, member, view_option, string_member}
use miinfer.OpenAi.Request.{
  ChatToolCall, ChatMessage, ChatRequest, Error, message_without_role, unsupported_role,
  invalid_json,
}
use miinfer.OpenAi.Parse.{
  required, messages_of, model_of, stream_of, token_limit_of, tool_choice_of, is_object, is_some,
  tools_of,
}
use miinfer.OpenAi.Tools.{ToolIsValid, tools_of-IsValid}
use miinfer.OpenAi.Calls.{CallIsValid, tool_calls_of-lem}
use miinfer.OpenAi.Limits.{
  IsLimit, IsOneOf, choices, roles, is_role-IsOneOf, token_limit_of-IsLimit, tool_choice_of-IsOneOf,
}
use miinfer.OpenAi.Messages.{
  is_role, content_of, call_id_of, tool_calls_of, message_of, messages_loop, request_of,
  parse_openai_chat_request,
}

module _ (json : Json) where
  open json use {Value, Float, view, parse}

  -- A message has a known role, an answer of a tool names its call, and only the assistant calls
  -- tools.
  pub record MessageIsValid (m : ChatMessage) : Type 0 where
    pub known_role : IsOneOf m.role roles
    pub call_named :
        (list_eq m.role Words.tool_word ≡ false) ⊎ ((id : List ℕ) × (m.tool_call_id ≡ some id))
    pub calls_by_assistant : (m.tool_calls ≡ []) ⊎ (m.role ≡ Words.assistant_word)
    pub calls_valid : All (CallIsValid json) m.tool_calls

  call_id_of-lem :
      (from_tool : Bool) (given id : Option (List ℕ))
      → call_id_of json from_tool given ≡ ok id
      → (from_tool ≡ false) ⊎ ((text : List ℕ) × (id ≡ some text))
  unfolding call_id_of
  call_id_of-lem false given id h = inl refl
  call_id_of-lem true (some text) id h = inr (text, sym (ok-injective h))
  call_id_of-lem true none id h = absurd (cc)

  message_IsValid :
      (role content : List ℕ) (call_id : Option (List ℕ)) (calls : List ChatToolCall)
      (m : ChatMessage)
      → is_role role ≡ true
      → (list_eq role Words.tool_word ≡ false) ⊎ ((id : List ℕ) × (call_id ≡ some id))
      → ((calls ≡ []) ⊎ (list_eq role Words.assistant_word ≡ true)) × All (CallIsValid json) calls
      → ◌≡◌ {A = Result Error ChatMessage}
          (ok
            (record { role = role; content = content; tool_call_id = call_id; tool_calls = calls }))
          (ok m)
      → MessageIsValid m
  message_IsValid role content call_id calls m known named (by_assistant, valid) h =
      subst MessageIsValid (ok-injective h) (record {
        known_role = is_role-IsOneOf role known;
        call_named = named;
        calls_by_assistant = elim by_assistant [
          | inl nothing ↦ inl nothing
          | inr assistant ↦ inr (eq_of_list_eq role Words.assistant_word assistant)
        ];
        calls_valid = valid;
      })

  message_of-IsValid :
      (value : Value) (m : ChatMessage) → message_of json value ≡ ok m → MessageIsValid m
  unfolding message_of
  message_of-IsValid value m h =
      >>=-ok (guard (is_object json (view value)) message_without_role) _ h λ _ _ h1.
        >>=-ok (required message_without_role (string_member json value Words.role_word)) _ h1
          λ role _ h2. >>=-ok (guard (is_role role) unsupported_role) _ h2 λ _ known h3.
            >>=-ok
              (content_of json (view_option json (member json value Words.content_word)) (
                list_eq role Words.assistant_word
                && is_some json (member json value Words.tool_calls_word)))
              _ h3
              λ content _ h4.
                >>=-ok
                  (call_id_of json (list_eq role Words.tool_word)
                    (string_member json value Words.tool_call_id_word))
                  _ h4
                  λ call_id named h5.
                    >>=-ok
                      (tool_calls_of json (list_eq role Words.assistant_word)
                        (view_option json (member json value Words.tool_calls_word)))
                      _ h5
                      λ calls found h6.
                        message_IsValid role content call_id calls m
                          (guard-eq-ok (is_role role) unsupported_role known)
                          (call_id_of-lem (list_eq role Words.tool_word)
                            (string_member json value Words.tool_call_id_word) call_id named)
                          (tool_calls_of-lem json (list_eq role Words.assistant_word)
                            (view_option json (member json value Words.tool_calls_word)) calls
                            found)
                          h6

  messages_loop-IsValid :
      (values : List Value) (messages : List ChatMessage)
      → messages_loop json values ≡ ok messages
      → All MessageIsValid messages × (length messages ≡ length values)
  unfolding messages_loop
  messages_loop-IsValid [] messages h =
      subst (λ ms. All MessageIsValid ms × (length ms ≡ 0)) (ok-injective h) (tt, refl)
  messages_loop-IsValid (value ∷ values) messages h =
      >>=-ok (message_of json value) _ h λ first e h1.
        >>=-ok (messages_loop json values) _ h1 λ later e2 h2.
          let (valid, same) = messages_loop-IsValid values later e2 in
          subst (λ ms. All MessageIsValid ms × (length ms ≡ suc (length values))) (ok-injective h2)
            ((message_of-IsValid value first e, valid), ap suc same)

  messages_of-some :
      (given : Option (View Value)) (values : List Value)
      → messages_of json given ≡ ok values
      → 0 < length values
  unfolding messages_of
  messages_of-some (some (arr (value ∷ values))) found h =
      omega (arith, ap (λ vs. length vs) (ok-injective h))
  messages_of-some none found h = absurd (cc)
  messages_of-some (some other) found h = absurd (cc)

  -- What the server relies on in a request.
  pub record RequestIsValid (r : ChatRequest Float) : Type 0 where
    pub has_message : 0 < length r.messages
    pub messages_valid : All MessageIsValid r.messages
    pub limit_valid : IsLimit r.max_tokens
    pub tools_valid : All (ToolIsValid json) r.tools
    pub choice_valid : IsOneOf r.tool_choice choices

  request_of-IsValid :
      (root : Value) (r : ChatRequest Float) → request_of json root ≡ ok r → RequestIsValid r
  unfolding request_of
  request_of-IsValid root r h =
      let at = λ (key : List ℕ). view_option json (member json root key) in
      >>=-ok (messages_of json (at Words.messages_word)) _ h λ values some_values h1.
        >>=-ok (model_of json (at Words.model_word)) _ h1 λ model _ h2.
          >>=-ok (stream_of json (at Words.stream_word)) _ h2 λ stream _ h3.
            >>=-ok
              (token_limit_of json (at Words.max_completion_tokens_word) (at Words.max_tokens_word))
              _ h3
              λ limit limited h4.
                >>=-ok (tool_choice_of json (member json root Words.tool_choice_word)) _ h4
                  λ choice chosen h5.
                    >>=-ok (tools_of json (at Words.tools_word)) _ h5 λ tools listed h6.
                      >>=-ok (messages_loop json values) _ h6 λ messages parsed h7.
                        let (valid, same) = messages_loop-IsValid values messages parsed in
                        let filled = messages_of-some (at Words.messages_word) values some_values in
                        subst RequestIsValid (ok-injective h7) (record {
                          has_message = omega arith;
                          messages_valid = valid;
                          tools_valid = tools_of-IsValid json (at Words.tools_word) tools listed;
                          limit_valid =
                              token_limit_of-IsLimit json (at Words.max_completion_tokens_word)
                                (at Words.max_tokens_word) limit limited;
                          choice_valid =
                              tool_choice_of-IsOneOf json (member json root Words.tool_choice_word)
                                choice chosen;
                        })

  -- A request that is accepted has a message, a token limit between 1 and kMaxOutputTokens or none,
  -- and a tool choice of the three; every message has one of the five roles, names its call if a
  -- tool answers, and has calls only by the assistant, whose arguments are JSON.
  pub parse_openai_chat_request-IsValid :
      (body : List ℕ) (r : ChatRequest Float)
      → parse_openai_chat_request json body ≡ ok r
      → RequestIsValid r
  unfolding parse_openai_chat_request
  parse_openai_chat_request-IsValid body r h =
      >>=-ok (required invalid_json (parse body)) _ h λ root _ h1. request_of-IsValid root r h1
