-- ===== src/OpenAi/Words.antt =====
-- The string literals of src/openai_api.cpp, byte by byte.
use miinfer.Prelude.{ℕ, List, [], ◌∷◌}

abbrev pub messages_word : List ℕ
messages_word = 109 ∷ 101 ∷ 115 ∷ 115 ∷ 97 ∷ 103 ∷ 101 ∷ 115 ∷ []

abbrev pub model_word : List ℕ
model_word = 109 ∷ 111 ∷ 100 ∷ 101 ∷ 108 ∷ []

abbrev pub stream_word : List ℕ
stream_word = 115 ∷ 116 ∷ 114 ∷ 101 ∷ 97 ∷ 109 ∷ []

abbrev pub max_completion_tokens_word : List ℕ
max_completion_tokens_word =
    109 ∷ 97 ∷ 120 ∷ 95 ∷ 99 ∷ 111 ∷ 109 ∷ 112 ∷ 108 ∷ 101 ∷ 116 ∷ 105 ∷ 111 ∷ 110 ∷ 95 ∷ 116 ∷ 111
    ∷ 107 ∷ 101 ∷ 110 ∷ 115 ∷ []

abbrev pub max_tokens_word : List ℕ
max_tokens_word = 109 ∷ 97 ∷ 120 ∷ 95 ∷ 116 ∷ 111 ∷ 107 ∷ 101 ∷ 110 ∷ 115 ∷ []

abbrev pub stop_word : List ℕ
stop_word = 115 ∷ 116 ∷ 111 ∷ 112 ∷ []

abbrev pub temperature_word : List ℕ
temperature_word = 116 ∷ 101 ∷ 109 ∷ 112 ∷ 101 ∷ 114 ∷ 97 ∷ 116 ∷ 117 ∷ 114 ∷ 101 ∷ []

abbrev pub top_p_word : List ℕ
top_p_word = 116 ∷ 111 ∷ 112 ∷ 95 ∷ 112 ∷ []

abbrev pub top_k_word : List ℕ
top_k_word = 116 ∷ 111 ∷ 112 ∷ 95 ∷ 107 ∷ []

abbrev pub repetition_penalty_word : List ℕ
repetition_penalty_word =
    114 ∷ 101 ∷ 112 ∷ 101 ∷ 116 ∷ 105 ∷ 116 ∷ 105 ∷ 111 ∷ 110 ∷ 95 ∷ 112 ∷ 101 ∷ 110 ∷ 97 ∷ 108
    ∷ 116 ∷ 121 ∷ []

abbrev pub repeat_penalty_word : List ℕ
repeat_penalty_word =
    114 ∷ 101 ∷ 112 ∷ 101 ∷ 97 ∷ 116 ∷ 95 ∷ 112 ∷ 101 ∷ 110 ∷ 97 ∷ 108 ∷ 116 ∷ 121 ∷ []

abbrev pub repeat_last_n_word : List ℕ
repeat_last_n_word = 114 ∷ 101 ∷ 112 ∷ 101 ∷ 97 ∷ 116 ∷ 95 ∷ 108 ∷ 97 ∷ 115 ∷ 116 ∷ 95 ∷ 110 ∷ []

abbrev pub frequency_penalty_word : List ℕ
frequency_penalty_word =
    102 ∷ 114 ∷ 101 ∷ 113 ∷ 117 ∷ 101 ∷ 110 ∷ 99 ∷ 121 ∷ 95 ∷ 112 ∷ 101 ∷ 110 ∷ 97 ∷ 108 ∷ 116 ∷ 121
    ∷ []

abbrev pub presence_penalty_word : List ℕ
presence_penalty_word =
    112 ∷ 114 ∷ 101 ∷ 115 ∷ 101 ∷ 110 ∷ 99 ∷ 101 ∷ 95 ∷ 112 ∷ 101 ∷ 110 ∷ 97 ∷ 108 ∷ 116 ∷ 121 ∷ []

abbrev pub tool_choice_word : List ℕ
tool_choice_word = 116 ∷ 111 ∷ 111 ∷ 108 ∷ 95 ∷ 99 ∷ 104 ∷ 111 ∷ 105 ∷ 99 ∷ 101 ∷ []

abbrev pub tools_word : List ℕ
tools_word = 116 ∷ 111 ∷ 111 ∷ 108 ∷ 115 ∷ []

abbrev pub none_word : List ℕ
none_word = 110 ∷ 111 ∷ 110 ∷ 101 ∷ []

abbrev pub auto_word : List ℕ
auto_word = 97 ∷ 117 ∷ 116 ∷ 111 ∷ []

abbrev pub required_word : List ℕ
required_word = 114 ∷ 101 ∷ 113 ∷ 117 ∷ 105 ∷ 114 ∷ 101 ∷ 100 ∷ []

abbrev pub type_word : List ℕ
type_word = 116 ∷ 121 ∷ 112 ∷ 101 ∷ []

abbrev pub function_word : List ℕ
function_word = 102 ∷ 117 ∷ 110 ∷ 99 ∷ 116 ∷ 105 ∷ 111 ∷ 110 ∷ []

abbrev pub name_word : List ℕ
name_word = 110 ∷ 97 ∷ 109 ∷ 101 ∷ []

abbrev pub description_word : List ℕ
description_word = 100 ∷ 101 ∷ 115 ∷ 99 ∷ 114 ∷ 105 ∷ 112 ∷ 116 ∷ 105 ∷ 111 ∷ 110 ∷ []

abbrev pub parameters_word : List ℕ
parameters_word = 112 ∷ 97 ∷ 114 ∷ 97 ∷ 109 ∷ 101 ∷ 116 ∷ 101 ∷ 114 ∷ 115 ∷ []

abbrev pub role_word : List ℕ
role_word = 114 ∷ 111 ∷ 108 ∷ 101 ∷ []

abbrev pub system_word : List ℕ
system_word = 115 ∷ 121 ∷ 115 ∷ 116 ∷ 101 ∷ 109 ∷ []

abbrev pub developer_word : List ℕ
developer_word = 100 ∷ 101 ∷ 118 ∷ 101 ∷ 108 ∷ 111 ∷ 112 ∷ 101 ∷ 114 ∷ []

abbrev pub user_word : List ℕ
user_word = 117 ∷ 115 ∷ 101 ∷ 114 ∷ []

abbrev pub assistant_word : List ℕ
assistant_word = 97 ∷ 115 ∷ 115 ∷ 105 ∷ 115 ∷ 116 ∷ 97 ∷ 110 ∷ 116 ∷ []

abbrev pub tool_word : List ℕ
tool_word = 116 ∷ 111 ∷ 111 ∷ 108 ∷ []

abbrev pub content_word : List ℕ
content_word = 99 ∷ 111 ∷ 110 ∷ 116 ∷ 101 ∷ 110 ∷ 116 ∷ []

abbrev pub tool_calls_word : List ℕ
tool_calls_word = 116 ∷ 111 ∷ 111 ∷ 108 ∷ 95 ∷ 99 ∷ 97 ∷ 108 ∷ 108 ∷ 115 ∷ []

abbrev pub tool_call_id_word : List ℕ
tool_call_id_word = 116 ∷ 111 ∷ 111 ∷ 108 ∷ 95 ∷ 99 ∷ 97 ∷ 108 ∷ 108 ∷ 95 ∷ 105 ∷ 100 ∷ []

abbrev pub id_word : List ℕ
id_word = 105 ∷ 100 ∷ []

abbrev pub arguments_word : List ℕ
arguments_word = 97 ∷ 114 ∷ 103 ∷ 117 ∷ 109 ∷ 101 ∷ 110 ∷ 116 ∷ 115 ∷ []

abbrev pub text_word : List ℕ
text_word = 116 ∷ 101 ∷ 120 ∷ 116 ∷ []
