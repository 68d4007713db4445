-- ===== src/OpenAi/Limits.antt =====
-- The token limits, the tool choices and the roles that a request may have.
use miinfer.Prelude.{
  ℕ, ◌≤◌, ◌<◌, ◌≡◌, refl, sym, subst, ◌⊎◌, inl, inr, Bool, true, false, ◌||◌, Option, none, some,
  List, [], ◌∷◌, ok, ok-injective, list_eq, eq_of_list_eq, ltb, ◌==◌, Bool-cases, Option-cases,
  arith,
}
use miinfer.OpenAi.Words
use miinfer.OpenAi.Json.{View, null, number, boolean, unsigned, str, arr, obj, Json, text_view}
use miinfer.OpenAi.Request.{
  Error, completion_tokens_not_unsigned, completion_tokens_zero, completion_tokens_too_large,
  max_tokens_not_unsigned, max_tokens_zero, max_tokens_too_large, max_output_tokens,
}
use miinfer.OpenAi.Parse.{
  limit_of, max_tokens_of, token_limit_of, is_choice, tool_choice_of, names_function,
}
use miinfer.OpenAi.Messages.{is_role}

-- A limit that is given is from 1 to kMaxOutputTokens.
abbrev pub IsLimit : Option ℕ → Type 0
IsLimit none = Unit {0}
IsLimit (some n) = (0 < n) × (n ≤ max_output_tokens)

-- One of a list of words.
abbrev pub IsOneOf : List ℕ → List (List ℕ) → Type 0
IsOneOf word [] = ⊥
IsOneOf word (w ∷ words) = (word ≡ w) ⊎ IsOneOf word words

abbrev pub choices : List (List ℕ)
choices = Words.none_word ∷ Words.auto_word ∷ Words.required_word ∷ []

abbrev pub roles : List (List ℕ)
roles =
    Words.system_word ∷ Words.developer_word ∷ Words.user_word ∷ Words.assistant_word
    ∷ Words.tool_word ∷ []

or-true : (a b : Bool) → (a || b) ≡ true → (a ≡ true) ⊎ (b ≡ true)
or-true true b h = inl refl
or-true false b h = inr h

is_choice-IsOneOf :
    (json : Json) (word : List ℕ) → is_choice json word ≡ true → IsOneOf word choices
unfolding is_choice
is_choice-IsOneOf json word h =
    let n = Words.none_word in
    let a = Words.auto_word in
    let r = Words.required_word in
    elim (or-true (list_eq word n || list_eq word a) (list_eq word r) h) [
      | inr third ↦ inr (inr (inl (eq_of_list_eq word r third)))
      | inl two ↦ elim (or-true (list_eq word n) (list_eq word a) two) [
        | inl first ↦ inl (eq_of_list_eq word n first)
        | inr second ↦ inr (inl (eq_of_list_eq word a second))
      ]
    ]

pub is_role-IsOneOf : (word : List ℕ) → is_role word ≡ true → IsOneOf word roles
unfolding is_role
is_role-IsOneOf word h =
    let s = list_eq word Words.system_word in
    let d = list_eq word Words.developer_word in
    let u = list_eq word Words.user_word in
    let a = list_eq word Words.assistant_word in
    elim (or-true (s || d || u || a) (list_eq word Words.tool_word) h) [
      | inr e5 ↦ inr (inr (inr (inr (inl (eq_of_list_eq word Words.tool_word e5)))))
      | inl h4 ↦ elim (or-true (s || d || u) a h4) [
        | inr e4 ↦ inr (inr (inr (inl (eq_of_list_eq word Words.assistant_word e4))))
        | inl h3 ↦ elim (or-true (s || d) u h3) [
          | inr e3 ↦ inr (inr (inl (eq_of_list_eq word Words.user_word e3)))
          | inl h2 ↦ elim (or-true s d h2) [
            | inr e2 ↦ inr (inl (eq_of_list_eq word Words.developer_word e2))
            | inl e1 ↦ inl (eq_of_list_eq word Words.system_word e1)
          ]
        ]
      ]
    ]

module _ (json : Json) where
  open json use {Value, Float, view, parse}

  limit_of-IsLimit :
      (e1 e2 e3 : Error) (v : View Value) (limit : Option ℕ)
      → limit_of json e1 e2 e3 v ≡ ok limit
      → IsLimit limit
  unfolding limit_of
  limit_of-IsLimit e1 e2 e3 (unsigned n) none h = tt
  limit_of-IsLimit e1 e2 e3 (unsigned n) (some m) h = elim (Bool-cases (n == 0)) [
    | inl zero ↦ absurd (ground arith)
    | inr pos ↦ elim (Bool-cases (ltb max_output_tokens n)) [
      | inl large ↦ absurd (ground arith)
      | inr fits ↦ let e : n ≡ m = ground arith in (ground arith, ground arith)
    ]
  ]
  limit_of-IsLimit e1 e2 e3 null limit h = absurd (cc)
  limit_of-IsLimit e1 e2 e3 number limit h = absurd (cc)
  limit_of-IsLimit e1 e2 e3 (boolean b) limit h = absurd (cc)
  limit_of-IsLimit e1 e2 e3 (str text) limit h = absurd (cc)
  limit_of-IsLimit e1 e2 e3 (arr values) limit h = absurd (cc)
  limit_of-IsLimit e1 e2 e3 (obj entries) limit h = absurd (cc)

  max_tokens_of-IsLimit :
      (given : Option (View Value)) (limit : Option ℕ)
      → max_tokens_of json given ≡ ok limit
      → IsLimit limit
  unfolding max_tokens_of
  max_tokens_of-IsLimit none limit h = subst IsLimit (ok-injective h) tt
  max_tokens_of-IsLimit (some null) limit h = subst IsLimit (ok-injective h) tt
  max_tokens_of-IsLimit (some v) limit h =
      limit_of-IsLimit max_tokens_not_unsigned max_tokens_zero max_tokens_too_large v limit h

  pub token_limit_of-IsLimit :
      (first second : Option (View Value)) (limit : Option ℕ)
      → token_limit_of json first second ≡ ok limit
      → IsLimit limit
  unfolding token_limit_of
  token_limit_of-IsLimit none second limit h = max_tokens_of-IsLimit second limit h
  token_limit_of-IsLimit (some null) second limit h = max_tokens_of-IsLimit second limit h
  token_limit_of-IsLimit (some v) second limit h =
      limit_of-IsLimit completion_tokens_not_unsigned completion_tokens_zero
        completion_tokens_too_large v limit h

  pub tool_choice_of-IsOneOf :
      (choice : Option Value) (word : List ℕ)
      → tool_choice_of json choice ≡ ok word
      → IsOneOf word choices
  unfolding tool_choice_of
  tool_choice_of-IsOneOf none word h = inr (inl (sym (ok-injective h)))
  tool_choice_of-IsOneOf (some choice) word h = elim (Option-cases (text_view (view choice))) [
    | inl no_text ↦ elim (Bool-cases (names_function json choice)) [
      | inl named ↦ inr (inr (inl (ground arith)))
      | inr other ↦ absurd (ground arith)
    ]
    | inr (text, shown) ↦ elim (Bool-cases (is_choice json text)) [
      | inl fine ↦
          let e : text ≡ word = ground arith in
          subst (λ w. IsOneOf w choices) e (is_choice-IsOneOf json text fine)
      | inr other ↦ absurd (ground arith)
    ]
  ]
