-- ===== src/OpenAi/Calls.antt =====
-- The calls of an assistant that a request may have.
use miinfer.Prelude.{
  ℕ, ◌≡◌, refl, sym, subst, ◌⊎◌, inl, inr, Bool, true, Option, none, some, List, [], ◌∷◌, ok, guard,
  guard-eq-ok, ◌>>◌, >>=-ok, ok-injective, list_eq, All,
}
use miinfer.OpenAi.Words
use miinfer.OpenAi.Json.{View, arr, Json, member, view_option, string_member}
use miinfer.OpenAi.Request.{
  ChatToolCall, invalid_tool_call, invalid_call_function, invalid_arguments,
}
use miinfer.OpenAi.Parse.{required, is_object, is_some, value_or_empty}
use miinfer.OpenAi.Messages.{tool_call_of, tool_calls_loop, tool_calls_of}

module _ (json : Json) where
  open json use {Value, Float, view, parse}

  -- The arguments of a call are JSON.
  abbrev pub CallIsValid : ChatToolCall → Type 0
  CallIsValid call = (value : Value) × (parse call.arguments ≡ some value)

  is_some-lem : {A : Type 0} (o : Option A) → is_some json o ≡ true → (a : A) × (o ≡ some a)
  unfolding is_some
  is_some-lem none h = absurd (cc)
  is_some-lem (some a) h = (a, refl)

  call_of-IsValid :
      (id name arguments : List ℕ) (call : ChatToolCall)
      → (guard (is_some json (parse arguments)) invalid_arguments
          >> ok (record { id = id; name = name; arguments = arguments }))
        ≡ ok call
      → CallIsValid call
  call_of-IsValid id name arguments call h =
      >>=-ok (guard (is_some json (parse arguments)) invalid_arguments) _ h λ _ fine h1.
        let (value, parsed) =
          is_some-lem (parse arguments)
            (guard-eq-ok (is_some json (parse arguments)) invalid_arguments fine) in
        subst CallIsValid (ok-injective h1) (value, parsed)

  tool_call_of-IsValid :
      (value : Value) (call : ChatToolCall) → tool_call_of json value ≡ ok call → CallIsValid call
  unfolding tool_call_of
  tool_call_of-IsValid value call h =
      >>=-ok (guard (is_object json (view value)) invalid_tool_call) _ h λ _ _ h1.
        >>=-ok (required invalid_tool_call (string_member json value Words.id_word)) _ h1 λ id _ h2.
          >>=-ok (value_or_empty json (view_option json (member json value Words.type_word))) _ h2
            λ kind _ h3.
              >>=-ok (guard (list_eq kind Words.function_word) invalid_tool_call) _ h3 λ _ _ h4.
                >>=-ok (required invalid_tool_call (member json value Words.function_word)) _ h4
                  λ function _ h5.
                    >>=-ok (guard (is_object json (view function)) invalid_tool_call) _ h5 λ _ _ h6.
                      >>=-ok
                        (required invalid_call_function
                          (string_member json function Words.name_word))
                        _ h6
                        λ name _ h7.
                          >>=-ok
                            (required invalid_call_function
                              (string_member json function Words.arguments_word))
                            _ h7 λ arguments _ h8. call_of-IsValid id name arguments call h8

  tool_calls_loop-IsValid :
      (values : List Value) (calls : List ChatToolCall)
      → tool_calls_loop json values ≡ ok calls
      → All CallIsValid calls
  unfolding tool_calls_loop
  tool_calls_loop-IsValid [] calls h = subst (All CallIsValid) (ok-injective h) tt
  tool_calls_loop-IsValid (value ∷ values) calls h =
      >>=-ok (tool_call_of json value) _ h λ first e h1.
        >>=-ok (tool_calls_loop json values) _ h1 λ later e2 h2.
          subst (All CallIsValid) (ok-injective h2)
            (tool_call_of-IsValid value first e, tool_calls_loop-IsValid values later e2)

  pub tool_calls_of-lem :
      (from_assistant : Bool) (given : Option (View Value)) (calls : List ChatToolCall)
      → tool_calls_of json from_assistant given ≡ ok calls
      → ((calls ≡ []) ⊎ (from_assistant ≡ true)) × All CallIsValid calls
  unfolding tool_calls_of
  tool_calls_of-lem from_assistant none calls h =
      (inl (sym (ok-injective h)), subst (All CallIsValid) (ok-injective h) tt)
  tool_calls_of-lem true (some (arr values)) calls h =
      (inr refl, tool_calls_loop-IsValid values calls h)
  tool_calls_of-lem from_assistant (some other) calls h = absurd (cc)
