-- ===== src/OpenAi/Contract.antt =====
-- include/miinfer/generation_contract.hpp: how many tokens a request may generate.
use miinfer.Prelude.{
  List, Bool, [], ◌∷◌, ℕ, ◌+◌, ◌-◌, ◌≤◌, ◌<◌, min, ◌≡◌, ap, ◌↔◌, inl, inr, ◌||◌, Option, none, some,
  some-injective, ltb, leb, ◌==◌, if◌then◌else◌, Bool-cases, arith,
}

-- kDefaultMaxOutputTokens
abbrev pub default_max_output_tokens : ℕ
default_max_output_tokens = 4096

-- The subtraction does not wrap, as prompt_tokens is below context_tokens there.
unfoldable pub resolve_output_token_limit : Option ℕ → ℕ → ℕ → Option ℕ
resolve_output_token_limit none prompt_tokens context_tokens =
    if (context_tokens == 0) || leb context_tokens prompt_tokens
    then none
    else some (min default_max_output_tokens (context_tokens - prompt_tokens))
resolve_output_token_limit (some requested) prompt_tokens context_tokens =
    if (context_tokens == 0) || leb context_tokens prompt_tokens
    then none
    else if (requested == 0) || ltb (context_tokens - prompt_tokens) requested
    then none
    else some requested

-- GenerationStopReason
pub data StopReason : Type 0 where
  stop_token output_limit cancelled : StopReason

abbrev pub cancelled_text : List ℕ
cancelled_text = 99 ∷ 97 ∷ 110 ∷ 99 ∷ 101 ∷ 108 ∷ 108 ∷ 101 ∷ 100 ∷ []

abbrev pub tool_calls_text : List ℕ
tool_calls_text = 116 ∷ 111 ∷ 111 ∷ 108 ∷ 95 ∷ 99 ∷ 97 ∷ 108 ∷ 108 ∷ 115 ∷ []

abbrev pub length_text : List ℕ
length_text = 108 ∷ 101 ∷ 110 ∷ 103 ∷ 116 ∷ 104 ∷ []

abbrev pub stop_text : List ℕ
stop_text = 115 ∷ 116 ∷ 111 ∷ 112 ∷ []

unfoldable pub openai_finish_reason : StopReason → Bool → List ℕ
openai_finish_reason cancelled has_tool_calls = cancelled_text
openai_finish_reason stop_token has_tool_calls =
    if has_tool_calls then tool_calls_text else stop_text
openai_finish_reason output_limit has_tool_calls =
    if has_tool_calls then tool_calls_text else length_text

-- The number that is asked for; without one the default, or what is left if that is less.
abbrev pub IsChosen : Option ℕ → ℕ → ℕ → Type 0
IsChosen none available n = n ≡ min default_max_output_tokens available
IsChosen (some requested) available n = n ≡ requested

-- A limit is given exactly where it is the number that is asked for, or the default, is positive,
-- and has room in the context behind the prompt.
pub resolve_output_token_limit_iff :
    (requested : Option ℕ) (prompt_tokens context_tokens n : ℕ)
    → (resolve_output_token_limit requested prompt_tokens context_tokens ≡ some n) ↔ (
        (0 < n)
        × (prompt_tokens + n ≤ context_tokens)
        × IsChosen requested (context_tokens - prompt_tokens) n)
unfolding resolve_output_token_limit
resolve_output_token_limit_iff none p c n = elim (Bool-cases ((c == 0) || leb c p)) [
  | inl no_room ↦ rw no_room (λ h. absurd (cc), λ (pos, fits, _). absurd (ground arith))
  | inr room ↦ rw room (
    λ h. let e = some-injective h in (ground arith, ground arith, omega arith),
    λ (pos, fits, e). ap some (omega arith),
  )
]
resolve_output_token_limit_iff (some requested) p c n = elim (Bool-cases ((c == 0) || leb c p)) [
  | inl no_room ↦ rw no_room (λ h. absurd (cc), λ (pos, fits, _). absurd (ground arith))
  | inr room ↦ elim (Bool-cases ((requested == 0) || ltb (c - p) requested)) [
    | inl refused ↦ rw (room, refused) (λ h. absurd (cc), λ (pos, fits, e). absurd (ground arith))
    | inr granted ↦
        rw (room, granted)
          (
            λ h. let e = some-injective h in (ground arith, ground arith, omega arith),
            λ (pos, fits, e). ap some (omega arith),
          )
  ]
]
