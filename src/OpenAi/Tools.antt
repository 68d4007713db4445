-- ===== src/OpenAi/Tools.antt =====
-- The parameters of a tool that a request may have.
use miinfer.Prelude.{
  ℕ, ◌≡◌, ap, ◌∙◌, ◌>>=◌, inl, inr, Option-cases, arith, subst, Option, some, none, List, [], ◌∷◌,
  ok, guard, >>=-ok, ok-injective, list_eq, All,
}
use miinfer.OpenAi.Words
use miinfer.OpenAi.Json.{View, arr, Json, member, view_option, string_member}
use miinfer.OpenAi.Request.{
  ChatTool, invalid_json, only_function_tools, tool_without_name, parameters_not_object,
}
use miinfer.OpenAi.Parse.{
  required, value_or_empty, is_object, or_else, tool_of, tools_loop, tools_of,
}

module _ (json : Json) where
  open json use {Value, view, dump, empty_object}

  -- The parameters are the text of a value.
  abbrev pub ToolIsValid : ChatTool → Type 0
  ToolIsValid tool = (value : Value) × (dump value ≡ some tool.parameters_json)

  dumped_tool :
      (name description : List ℕ) (parameters : Value) (tool : ChatTool)
      → (required invalid_json (dump parameters) >>= λ text.
          ok (record { name = name; description = description; parameters_json = text }))
        ≡ ok tool
      → ToolIsValid tool
  unfolding required
  dumped_tool name description parameters tool h =
      >>=-ok (required invalid_json (dump parameters)) _ h λ text e h1.
        elim (Option-cases (dump parameters)) [
          | inl thrown ↦ absurd (ground (arith, rw thrown at e))
          | inr (given, shown) ↦
              let same : given ≡ text = ok-injective (rw shown at e) in
              (parameters, shown ∙ ap some (same ∙ ap (λ t. t.parameters_json) (ok-injective h1)))
        ]

  tool_of-IsValid :
      (value : Value) (tool : ChatTool) → tool_of json value ≡ ok tool → ToolIsValid tool
  unfolding tool_of
  tool_of-IsValid value tool h =
      >>=-ok (guard (is_object json (view value)) only_function_tools) _ h λ _ _ h1.
        >>=-ok (value_or_empty json (view_option json (member json value Words.type_word))) _ h1
          λ kind _ h2.
            >>=-ok (guard (list_eq kind Words.function_word) only_function_tools) _ h2 λ _ _ h3.
              >>=-ok (required only_function_tools (member json value Words.function_word)) _ h3
                λ function _ h4.
                  >>=-ok (guard (is_object json (view function)) only_function_tools) _ h4 λ _ _ h5.
                    >>=-ok
                      (required tool_without_name (string_member json function Words.name_word)) _
                      h5
                      λ name _ h6.
                        >>=-ok
                          (value_or_empty json
                            (view_option json (member json function Words.description_word)))
                          _ h6
                          λ description _ h7.
                            let parameters =
                              or_else json empty_object
                                (member json function Words.parameters_word) in
                            >>=-ok (guard (is_object json (view parameters)) parameters_not_object)
                              _ h7 λ _ _ h8. dumped_tool name description parameters tool h8

  tools_loop-IsValid :
      (values : List Value) (tools : List ChatTool)
      → tools_loop json values ≡ ok tools
      → All ToolIsValid tools
  unfolding tools_loop
  tools_loop-IsValid [] tools h = subst (All ToolIsValid) (ok-injective h) tt
  tools_loop-IsValid (value ∷ values) tools h = >>=-ok (tool_of json value) _ h λ first e h1.
      >>=-ok (tools_loop json values) _ h1 λ later e2 h2.
        subst (All ToolIsValid) (ok-injective h2)
          (tool_of-IsValid value first e, tools_loop-IsValid values later e2)

  pub tools_of-IsValid :
      (given : Option (View Value)) (tools : List ChatTool)
      → tools_of json given ≡ ok tools
      → All ToolIsValid tools
  unfolding tools_of
  tools_of-IsValid none tools h = subst (All ToolIsValid) (ok-injective h) tt
  tools_of-IsValid (some (arr values)) tools h = tools_loop-IsValid values tools h
  tools_of-IsValid (some other) tools h = absurd (cc)
