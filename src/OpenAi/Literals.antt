-- ===== src/OpenAi/Literals.antt =====
-- The literals of the prompt, src/openai_api.cpp, byte by byte.
use miinfer.Prelude.{ℕ, List, [], ◌∷◌}

abbrev pub tools_open : List ℕ
tools_open =
    35 ∷ 32 ∷ 84 ∷ 111 ∷ 111 ∷ 108 ∷ 115 ∷ 10 ∷ 10 ∷ 89 ∷ 111 ∷ 117 ∷ 32 ∷ 104 ∷ 97 ∷ 118 ∷ 101 ∷ 32
    ∷ 97 ∷ 99 ∷ 99 ∷ 101 ∷ 115 ∷ 115 ∷ 32 ∷ 116 ∷ 111 ∷ 32 ∷ 116 ∷ 104 ∷ 101 ∷ 32 ∷ 102 ∷ 111 ∷ 108
    ∷ 108 ∷ 111 ∷ 119 ∷ 105 ∷ 110 ∷ 103 ∷ 32 ∷ 102 ∷ 117 ∷ 110 ∷ 99 ∷ 116 ∷ 105 ∷ 111 ∷ 110 ∷ 115
    ∷ 58 ∷ 10 ∷ 10 ∷ 60 ∷ 116 ∷ 111 ∷ 111 ∷ 108 ∷ 115 ∷ 62 ∷ []

abbrev pub newline : List ℕ
newline = 10 ∷ []

abbrev pub tools_close : List ℕ
tools_close =
    10 ∷ 60 ∷ 47 ∷ 116 ∷ 111 ∷ 111 ∷ 108 ∷ 115 ∷ 62 ∷ 10 ∷ 10 ∷ 73 ∷ 102 ∷ 32 ∷ 121 ∷ 111 ∷ 117 ∷ 32
    ∷ 99 ∷ 104 ∷ 111 ∷ 111 ∷ 115 ∷ 101 ∷ 32 ∷ 116 ∷ 111 ∷ 32 ∷ 99 ∷ 97 ∷ 108 ∷ 108 ∷ 32 ∷ 97 ∷ 32
    ∷ 102 ∷ 117 ∷ 110 ∷ 99 ∷ 116 ∷ 105 ∷ 111 ∷ 110 ∷ 32 ∷ 79 ∷ 78 ∷ 76 ∷ 89 ∷ 32 ∷ 114 ∷ 101 ∷ 112
    ∷ 108 ∷ 121 ∷ 32 ∷ 105 ∷ 110 ∷ 32 ∷ 116 ∷ 104 ∷ 101 ∷ 32 ∷ 102 ∷ 111 ∷ 108 ∷ 108 ∷ 111 ∷ 119
    ∷ 105 ∷ 110 ∷ 103 ∷ 32 ∷ 102 ∷ 111 ∷ 114 ∷ 109 ∷ 97 ∷ 116 ∷ 32 ∷ 119 ∷ 105 ∷ 116 ∷ 104 ∷ 32 ∷ 78
    ∷ 79 ∷ 32 ∷ 115 ∷ 117 ∷ 102 ∷ 102 ∷ 105 ∷ 120 ∷ 58 ∷ 10 ∷ 10 ∷ 60 ∷ 116 ∷ 111 ∷ 111 ∷ 108 ∷ 95
    ∷ 99 ∷ 97 ∷ 108 ∷ 108 ∷ 62 ∷ 10 ∷ 60 ∷ 102 ∷ 117 ∷ 110 ∷ 99 ∷ 116 ∷ 105 ∷ 111 ∷ 110 ∷ 61 ∷ 101
    ∷ 120 ∷ 97 ∷ 109 ∷ 112 ∷ 108 ∷ 101 ∷ 95 ∷ 102 ∷ 117 ∷ 110 ∷ 99 ∷ 116 ∷ 105 ∷ 111 ∷ 110 ∷ 95
    ∷ 110 ∷ 97 ∷ 109 ∷ 101 ∷ 62 ∷ 10 ∷ 60 ∷ 112 ∷ 97 ∷ 114 ∷ 97 ∷ 109 ∷ 101 ∷ 116 ∷ 101 ∷ 114 ∷ 61
    ∷ 101 ∷ 120 ∷ 97 ∷ 109 ∷ 112 ∷ 108 ∷ 101 ∷ 95 ∷ 112 ∷ 97 ∷ 114 ∷ 97 ∷ 109 ∷ 101 ∷ 116 ∷ 101
    ∷ 114 ∷ 95 ∷ 49 ∷ 62 ∷ 10 ∷ 118 ∷ 97 ∷ 108 ∷ 117 ∷ 101 ∷ 95 ∷ 49 ∷ 10 ∷ 60 ∷ 47 ∷ 112 ∷ 97 ∷ 114
    ∷ 97 ∷ 109 ∷ 101 ∷ 116 ∷ 101 ∷ 114 ∷ 62 ∷ 10 ∷ 60 ∷ 47 ∷ 102 ∷ 117 ∷ 110 ∷ 99 ∷ 116 ∷ 105 ∷ 111
    ∷ 110 ∷ 62 ∷ 10 ∷ 60 ∷ 47 ∷ 116 ∷ 111 ∷ 111 ∷ 108 ∷ 95 ∷ 99 ∷ 97 ∷ 108 ∷ 108 ∷ 62 ∷ 10 ∷ 10 ∷ 60
    ∷ 73 ∷ 77 ∷ 80 ∷ 79 ∷ 82 ∷ 84 ∷ 65 ∷ 78 ∷ 84 ∷ 62 ∷ 10 ∷ 82 ∷ 101 ∷ 109 ∷ 105 ∷ 110 ∷ 100 ∷ 101
    ∷ 114 ∷ 58 ∷ 10 ∷ 45 ∷ 32 ∷ 70 ∷ 117 ∷ 110 ∷ 99 ∷ 116 ∷ 105 ∷ 111 ∷ 110 ∷ 32 ∷ 99 ∷ 97 ∷ 108
    ∷ 108 ∷ 115 ∷ 32 ∷ 77 ∷ 85 ∷ 83 ∷ 84 ∷ 32 ∷ 102 ∷ 111 ∷ 108 ∷ 108 ∷ 111 ∷ 119 ∷ 32 ∷ 116 ∷ 104
    ∷ 101 ∷ 32 ∷ 115 ∷ 112 ∷ 101 ∷ 99 ∷ 105 ∷ 102 ∷ 105 ∷ 101 ∷ 100 ∷ 32 ∷ 102 ∷ 111 ∷ 114 ∷ 109
    ∷ 97 ∷ 116 ∷ 58 ∷ 32 ∷ 97 ∷ 110 ∷ 32 ∷ 105 ∷ 110 ∷ 110 ∷ 101 ∷ 114 ∷ 32 ∷ 60 ∷ 102 ∷ 117 ∷ 110
    ∷ 99 ∷ 116 ∷ 105 ∷ 111 ∷ 110 ∷ 61 ∷ 46 ∷ 46 ∷ 46 ∷ 62 ∷ 60 ∷ 47 ∷ 102 ∷ 117 ∷ 110 ∷ 99 ∷ 116
    ∷ 105 ∷ 111 ∷ 110 ∷ 62 ∷ 32 ∷ 98 ∷ 108 ∷ 111 ∷ 99 ∷ 107 ∷ 32 ∷ 109 ∷ 117 ∷ 115 ∷ 116 ∷ 32 ∷ 98
    ∷ 101 ∷ 32 ∷ 110 ∷ 101 ∷ 115 ∷ 116 ∷ 101 ∷ 100 ∷ 32 ∷ 119 ∷ 105 ∷ 116 ∷ 104 ∷ 105 ∷ 110 ∷ 32
    ∷ 60 ∷ 116 ∷ 111 ∷ 111 ∷ 108 ∷ 95 ∷ 99 ∷ 97 ∷ 108 ∷ 108 ∷ 62 ∷ 60 ∷ 47 ∷ 116 ∷ 111 ∷ 111 ∷ 108
    ∷ 95 ∷ 99 ∷ 97 ∷ 108 ∷ 108 ∷ 62 ∷ 32 ∷ 88 ∷ 77 ∷ 76 ∷ 32 ∷ 116 ∷ 97 ∷ 103 ∷ 115 ∷ 10 ∷ 45 ∷ 32
    ∷ 82 ∷ 101 ∷ 113 ∷ 117 ∷ 105 ∷ 114 ∷ 101 ∷ 100 ∷ 32 ∷ 112 ∷ 97 ∷ 114 ∷ 97 ∷ 109 ∷ 101 ∷ 116
    ∷ 101 ∷ 114 ∷ 115 ∷ 32 ∷ 77 ∷ 85 ∷ 83 ∷ 84 ∷ 32 ∷ 98 ∷ 101 ∷ 32 ∷ 115 ∷ 112 ∷ 101 ∷ 99 ∷ 105
    ∷ 102 ∷ 105 ∷ 101 ∷ 100 ∷ 10 ∷ 45 ∷ 32 ∷ 89 ∷ 111 ∷ 117 ∷ 32 ∷ 109 ∷ 97 ∷ 121 ∷ 32 ∷ 112 ∷ 114
    ∷ 111 ∷ 118 ∷ 105 ∷ 100 ∷ 101 ∷ 32 ∷ 111 ∷ 112 ∷ 116 ∷ 105 ∷ 111 ∷ 110 ∷ 97 ∷ 108 ∷ 32 ∷ 114
    ∷ 101 ∷ 97 ∷ 115 ∷ 111 ∷ 110 ∷ 105 ∷ 110 ∷ 103 ∷ 32 ∷ 102 ∷ 111 ∷ 114 ∷ 32 ∷ 121 ∷ 111 ∷ 117
    ∷ 114 ∷ 32 ∷ 102 ∷ 117 ∷ 110 ∷ 99 ∷ 116 ∷ 105 ∷ 111 ∷ 110 ∷ 32 ∷ 99 ∷ 97 ∷ 108 ∷ 108 ∷ 32 ∷ 105
    ∷ 110 ∷ 32 ∷ 110 ∷ 97 ∷ 116 ∷ 117 ∷ 114 ∷ 97 ∷ 108 ∷ 32 ∷ 108 ∷ 97 ∷ 110 ∷ 103 ∷ 117 ∷ 97 ∷ 103
    ∷ 101 ∷ 32 ∷ 66 ∷ 69 ∷ 70 ∷ 79 ∷ 82 ∷ 69 ∷ 32 ∷ 116 ∷ 104 ∷ 101 ∷ 32 ∷ 102 ∷ 117 ∷ 110 ∷ 99
    ∷ 116 ∷ 105 ∷ 111 ∷ 110 ∷ 32 ∷ 99 ∷ 97 ∷ 108 ∷ 108 ∷ 44 ∷ 32 ∷ 98 ∷ 117 ∷ 116 ∷ 32 ∷ 78 ∷ 79
    ∷ 84 ∷ 32 ∷ 97 ∷ 102 ∷ 116 ∷ 101 ∷ 114 ∷ 10 ∷ 45 ∷ 32 ∷ 73 ∷ 102 ∷ 32 ∷ 116 ∷ 104 ∷ 101 ∷ 114
    ∷ 101 ∷ 32 ∷ 105 ∷ 115 ∷ 32 ∷ 110 ∷ 111 ∷ 32 ∷ 102 ∷ 117 ∷ 110 ∷ 99 ∷ 116 ∷ 105 ∷ 111 ∷ 110 ∷ 32
    ∷ 99 ∷ 97 ∷ 108 ∷ 108 ∷ 32 ∷ 97 ∷ 118 ∷ 97 ∷ 105 ∷ 108 ∷ 97 ∷ 98 ∷ 108 ∷ 101 ∷ 44 ∷ 32 ∷ 97
    ∷ 110 ∷ 115 ∷ 119 ∷ 101 ∷ 114 ∷ 32 ∷ 116 ∷ 104 ∷ 101 ∷ 32 ∷ 113 ∷ 117 ∷ 101 ∷ 115 ∷ 116 ∷ 105
    ∷ 111 ∷ 110 ∷ 32 ∷ 108 ∷ 105 ∷ 107 ∷ 101 ∷ 32 ∷ 110 ∷ 111 ∷ 114 ∷ 109 ∷ 97 ∷ 108 ∷ 32 ∷ 119
    ∷ 105 ∷ 116 ∷ 104 ∷ 32 ∷ 121 ∷ 111 ∷ 117 ∷ 114 ∷ 32 ∷ 99 ∷ 117 ∷ 114 ∷ 114 ∷ 101 ∷ 110 ∷ 116
    ∷ 32 ∷ 107 ∷ 110 ∷ 111 ∷ 119 ∷ 108 ∷ 101 ∷ 100 ∷ 103 ∷ 101 ∷ 32 ∷ 97 ∷ 110 ∷ 100 ∷ 32 ∷ 100
    ∷ 111 ∷ 32 ∷ 110 ∷ 111 ∷ 116 ∷ 32 ∷ 116 ∷ 101 ∷ 108 ∷ 108 ∷ 32 ∷ 116 ∷ 104 ∷ 101 ∷ 32 ∷ 117
    ∷ 115 ∷ 101 ∷ 114 ∷ 32 ∷ 97 ∷ 98 ∷ 111 ∷ 117 ∷ 116 ∷ 32 ∷ 102 ∷ 117 ∷ 110 ∷ 99 ∷ 116 ∷ 105 ∷ 111
    ∷ 110 ∷ 32 ∷ 99 ∷ 97 ∷ 108 ∷ 108 ∷ 115 ∷ 10 ∷ 60 ∷ 47 ∷ 73 ∷ 77 ∷ 80 ∷ 79 ∷ 82 ∷ 84 ∷ 65 ∷ 78
    ∷ 84 ∷ 62 ∷ []

abbrev pub call_open : List ℕ
call_open = 60 ∷ 116 ∷ 111 ∷ 111 ∷ 108 ∷ 95 ∷ 99 ∷ 97 ∷ 108 ∷ 108 ∷ 62 ∷ 10 ∷ []

abbrev pub blank_call_open : List ℕ
blank_call_open = 10 ∷ 10 ∷ 60 ∷ 116 ∷ 111 ∷ 111 ∷ 108 ∷ 95 ∷ 99 ∷ 97 ∷ 108 ∷ 108 ∷ 62 ∷ 10 ∷ []

abbrev pub next_call_open : List ℕ
next_call_open = 10 ∷ 60 ∷ 116 ∷ 111 ∷ 111 ∷ 108 ∷ 95 ∷ 99 ∷ 97 ∷ 108 ∷ 108 ∷ 62 ∷ 10 ∷ []

abbrev pub function_open : List ℕ
function_open = 60 ∷ 102 ∷ 117 ∷ 110 ∷ 99 ∷ 116 ∷ 105 ∷ 111 ∷ 110 ∷ 61 ∷ []

abbrev pub tag_close : List ℕ
tag_close = 62 ∷ 10 ∷ []

abbrev pub parameter_open : List ℕ
parameter_open = 60 ∷ 112 ∷ 97 ∷ 114 ∷ 97 ∷ 109 ∷ 101 ∷ 116 ∷ 101 ∷ 114 ∷ 61 ∷ []

abbrev pub parameter_close : List ℕ
parameter_close = 10 ∷ 60 ∷ 47 ∷ 112 ∷ 97 ∷ 114 ∷ 97 ∷ 109 ∷ 101 ∷ 116 ∷ 101 ∷ 114 ∷ 62 ∷ 10 ∷ []

abbrev pub call_close : List ℕ
call_close =
    60 ∷ 47 ∷ 102 ∷ 117 ∷ 110 ∷ 99 ∷ 116 ∷ 105 ∷ 111 ∷ 110 ∷ 62 ∷ 10 ∷ 60 ∷ 47 ∷ 116 ∷ 111 ∷ 111
    ∷ 108 ∷ 95 ∷ 99 ∷ 97 ∷ 108 ∷ 108 ∷ 62 ∷ []

abbrev pub user_open : List ℕ
user_open =
    60 ∷ 124 ∷ 105 ∷ 109 ∷ 95 ∷ 115 ∷ 116 ∷ 97 ∷ 114 ∷ 116 ∷ 124 ∷ 62 ∷ 117 ∷ 115 ∷ 101 ∷ 114 ∷ []

abbrev pub response_open : List ℕ
response_open =
    10 ∷ 60 ∷ 116 ∷ 111 ∷ 111 ∷ 108 ∷ 95 ∷ 114 ∷ 101 ∷ 115 ∷ 112 ∷ 111 ∷ 110 ∷ 115 ∷ 101 ∷ 62 ∷ 10
    ∷ []

abbrev pub response_close : List ℕ
response_close =
    10 ∷ 60 ∷ 47 ∷ 116 ∷ 111 ∷ 111 ∷ 108 ∷ 95 ∷ 114 ∷ 101 ∷ 115 ∷ 112 ∷ 111 ∷ 110 ∷ 115 ∷ 101 ∷ 62
    ∷ []

abbrev pub im_end : List ℕ
im_end = 60 ∷ 124 ∷ 105 ∷ 109 ∷ 95 ∷ 101 ∷ 110 ∷ 100 ∷ 124 ∷ 62 ∷ 10 ∷ []

abbrev pub im_start : List ℕ
im_start = 60 ∷ 124 ∷ 105 ∷ 109 ∷ 95 ∷ 115 ∷ 116 ∷ 97 ∷ 114 ∷ 116 ∷ 124 ∷ 62 ∷ []

abbrev pub system_open : List ℕ
system_open =
    60 ∷ 124 ∷ 105 ∷ 109 ∷ 95 ∷ 115 ∷ 116 ∷ 97 ∷ 114 ∷ 116 ∷ 124 ∷ 62 ∷ 115 ∷ 121 ∷ 115 ∷ 116 ∷ 101
    ∷ 109 ∷ 10 ∷ []

abbrev pub blank_line : List ℕ
blank_line = 10 ∷ 10 ∷ []

abbrev pub assistant_open : List ℕ
assistant_open =
    60 ∷ 124 ∷ 105 ∷ 109 ∷ 95 ∷ 115 ∷ 116 ∷ 97 ∷ 114 ∷ 116 ∷ 124 ∷ 62 ∷ 97 ∷ 115 ∷ 115 ∷ 105 ∷ 115
    ∷ 116 ∷ 97 ∷ 110 ∷ 116 ∷ 10 ∷ []
