-- ===== src/Bot/Words.antt =====
-- The words that process_command of the roulette and the quiz look for, byte by byte as bot/bot-roulette/game.cpp
-- and bot/bot-quiz-oscar/game.cpp have them, in UTF-8, and the keys of a reply.
use tusa.Common.{ℕ, List, [], ◌∷◌}

abbrev pub join_word : List ℕ
join_word = 74 ∷ 79 ∷ 73 ∷ 78 ∷ []

abbrev pub nick_word : List ℕ
nick_word = 78 ∷ 73 ∷ 67 ∷ 75 ∷ []

abbrev pub uttc_word : List ℕ
uttc_word = 85 ∷ 84 ∷ 84 ∷ 67 ∷ 95 ∷ 82 ∷ 69 ∷ 80 ∷ 76 ∷ 89 ∷ []

abbrev pub cttu_word : List ℕ
cttu_word = 67 ∷ 84 ∷ 84 ∷ 85 ∷ 95 ∷ 82 ∷ 69 ∷ 80 ∷ 76 ∷ 89 ∷ []

abbrev pub eui_word : List ℕ
eui_word = 69 ∷ 85 ∷ 73 ∷ 95 ∷ 82 ∷ 69 ∷ 80 ∷ 76 ∷ 89 ∷ []

abbrev pub privmsg_word : List ℕ
privmsg_word = 80 ∷ 82 ∷ 73 ∷ 86 ∷ 77 ∷ 83 ∷ 71 ∷ []

abbrev pub login_key : List ℕ
login_key = 76 ∷ 79 ∷ 71 ∷ 73 ∷ 78 ∷ []

abbrev pub help_words : List (List ℕ)
help_words =
    (33 ∷ 104 ∷ 101 ∷ 108 ∷ 112 ∷ [])
    ∷ (33 ∷ 209 ∷ 133 ∷ 208 ∷ 181 ∷ 208 ∷ 187 ∷ 208 ∷ 191 ∷ [])
    ∷ (33 ∷ 208 ∷ 191 ∷ 208 ∷ 190 ∷ 208 ∷ 188 ∷ 208 ∷ 190 ∷ 209 ∷ 137 ∷ 209 ∷ 140 ∷ [])
    ∷ []

abbrev pub odd_words : List (List ℕ)
odd_words = (33 ∷ 111 ∷ 100 ∷ 100 ∷ []) ∷ (33 ∷ 208 ∷ 189 ∷ 208 ∷ 181 ∷ 209 ∷ 135 ∷ []) ∷ []

abbrev pub even_words : List (List ℕ)
even_words = (33 ∷ 101 ∷ 118 ∷ 101 ∷ []) ∷ (33 ∷ 209 ∷ 135 ∷ 208 ∷ 181 ∷ 209 ∷ 130 ∷ []) ∷ []

abbrev pub d1_words : List (List ℕ)
d1_words = (33 ∷ 100 ∷ 49 ∷ []) ∷ (33 ∷ 208 ∷ 180 ∷ 49 ∷ []) ∷ []

abbrev pub d2_words : List (List ℕ)
d2_words = (33 ∷ 100 ∷ 50 ∷ []) ∷ (33 ∷ 208 ∷ 180 ∷ 50 ∷ []) ∷ []

abbrev pub d3_words : List (List ℕ)
d3_words = (33 ∷ 100 ∷ 51 ∷ []) ∷ (33 ∷ 208 ∷ 180 ∷ 51 ∷ []) ∷ []

abbrev pub p1_words : List (List ℕ)
p1_words = (33 ∷ 112 ∷ 49 ∷ []) ∷ (33 ∷ 208 ∷ 191 ∷ 49 ∷ []) ∷ []

abbrev pub p2_words : List (List ℕ)
p2_words = (33 ∷ 112 ∷ 50 ∷ []) ∷ (33 ∷ 208 ∷ 191 ∷ 50 ∷ []) ∷ []

abbrev pub stakes_words : List (List ℕ)
stakes_words =
    (33 ∷ 115 ∷ 116 ∷ 97 ∷ 107 ∷ [])
    ∷ (33 ∷ 209 ∷ 129 ∷ 209 ∷ 130 ∷ 208 ∷ 176 ∷ 208 ∷ 178 ∷ [])
    ∷ []

abbrev pub start_words : List (List ℕ)
start_words =
    (33 ∷ 115 ∷ 116 ∷ 97 ∷ 114 ∷ 116 ∷ [])
    ∷ (33 ∷ 209 ∷ 129 ∷ 209 ∷ 130 ∷ 208 ∷ 176 ∷ 209 ∷ 128 ∷ 209 ∷ 130 ∷ [])
    ∷ (33 ∷ 99 ∷ 110 ∷ 102 ∷ 104 ∷ 110 ∷ [])
    ∷ (33 ∷ 209 ∷ 139 ∷ 208 ∷ 181 ∷ 209 ∷ 132 ∷ 208 ∷ 186 ∷ 208 ∷ 181 ∷ [])
    ∷ []

-- The keys of a reply
abbrev pub nick_key : List ℕ
nick_key = 78 ∷ 73 ∷ 67 ∷ 75 ∷ []

abbrev pub summa_key : List ℕ
summa_key = 83 ∷ 85 ∷ 77 ∷ 77 ∷ 65 ∷ []

abbrev pub cookie_key : List ℕ
cookie_key = 67 ∷ 79 ∷ 79 ∷ 75 ∷ 73 ∷ 69 ∷ []

abbrev pub status_key : List ℕ
status_key = 83 ∷ 84 ∷ 65 ∷ 84 ∷ 85 ∷ 83 ∷ []

abbrev pub error_key : List ℕ
error_key = 69 ∷ 82 ∷ 82 ∷ 79 ∷ 82 ∷ []

abbrev pub ok : List ℕ
ok = 79 ∷ 75 ∷ []

-- Not_enough_credits
abbrev pub no_credits : List ℕ
no_credits =
    78 ∷ 111 ∷ 116 ∷ 95 ∷ 101 ∷ 110 ∷ 111 ∷ 117 ∷ 103 ∷ 104 ∷ 95 ∷ 99 ∷ 114 ∷ 101 ∷ 100 ∷ 105 ∷ 116
    ∷ 115 ∷ []

abbrev pub gender_key : List ℕ
gender_key = 71 ∷ 69 ∷ 78 ∷ 68 ∷ 69 ∷ 82 ∷ []
