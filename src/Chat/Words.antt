-- ===== src/Chat/Words.antt =====
-- The keys of a level in its file, as chatserver/levels.cpp has them, byte by byte.
use tusa.Common.{ℕ, List, [], ◌∷◌}

abbrev pub names : List ℕ
names = 110 ∷ 97 ∷ 109 ∷ 101 ∷ 115 ∷ []

abbrev pub color_packs : List ℕ
color_packs = 99 ∷ 111 ∷ 108 ∷ 111 ∷ 114 ∷ 95 ∷ 112 ∷ 97 ∷ 99 ∷ 107 ∷ 115 ∷ []

abbrev pub msg_len : List ℕ
msg_len = 109 ∷ 115 ∷ 103 ∷ 95 ∷ 108 ∷ 101 ∷ 110 ∷ []

abbrev pub nicks_count : List ℕ
nicks_count = 110 ∷ 105 ∷ 99 ∷ 107 ∷ 115 ∷ 95 ∷ 99 ∷ 111 ∷ 117 ∷ 110 ∷ 116 ∷ []

abbrev pub invisibility : List ℕ
invisibility = 105 ∷ 110 ∷ 118 ∷ 105 ∷ 115 ∷ 105 ∷ 98 ∷ 105 ∷ 108 ∷ 105 ∷ 116 ∷ 121 ∷ []

abbrev pub levelup_ability : List ℕ
levelup_ability =
    108 ∷ 101 ∷ 118 ∷ 101 ∷ 108 ∷ 117 ∷ 112 ∷ 95 ∷ 97 ∷ 98 ∷ 105 ∷ 108 ∷ 105 ∷ 116 ∷ 121 ∷ []

abbrev pub kick_shield : List ℕ
kick_shield = 107 ∷ 105 ∷ 99 ∷ 107 ∷ 95 ∷ 115 ∷ 104 ∷ 105 ∷ 101 ∷ 108 ∷ 100 ∷ []

abbrev pub kick_ability : List ℕ
kick_ability = 107 ∷ 105 ∷ 99 ∷ 107 ∷ 95 ∷ 97 ∷ 98 ∷ 105 ∷ 108 ∷ 105 ∷ 116 ∷ 121 ∷ []

abbrev pub replacements : List ℕ
replacements = 114 ∷ 101 ∷ 112 ∷ 108 ∷ 97 ∷ 99 ∷ 101 ∷ 109 ∷ 101 ∷ 110 ∷ 116 ∷ 115 ∷ []

abbrev pub keys : List (List ℕ)
keys =
    msg_len ∷ nicks_count ∷ invisibility ∷ levelup_ability ∷ kick_shield ∷ kick_ability
    ∷ replacements ∷ []
