-- ===== src/Chat/Examples/Levels.antt =====
-- A file of one level with names for two genders, to which the theorem on the levels is applied.
use tusa.Common.{ℕ, ◌≡◌, ◌⊎◌, refl, List, [], ◌∷◌, ◌++◌, arith, if◌then◌else◌}
use tusa.Common.Dicts.{same_string}
use tusa.Common.Maps.{find}
use mathlib.Core.Option.{Option, none, some}
use tusa.Chat.Words
use tusa.Chat.Levels.{CLevel, name, load_levels}
use tusa.Chat.Levels.Named.{load_levels-name}

-- The file 112 has 5=113, the file 113 the names 97 and 98.
abbrev files : List ℕ → Option (List ℕ)
files fn =
    if same_string fn (112 ∷ [])
    then some (53 ∷ 61 ∷ 113 ∷ [])
    else if same_string fn (113 ∷ [])
    then some (Words.names ++ 61 ∷ 97 ∷ 44 ∷ 98 ∷ [])
    else none

abbrev level : CLevel
level = record {
  names = (97 ∷ []) ∷ (98 ∷ []) ∷ (97 ∷ []) ∷ [];
  max_nicks_count = 0;
  max_msg_len = 0;
  replacements = [];
  colors = [];
  id = 5;
  levelup_ability = 0;
  invisibility = 0;
  kick_shield = 0;
  kick_ability = 0;
}

level_loaded : find 5 (load_levels files (112 ∷ [])) ≡ some level
unfolding find load_levels same_string
level_loaded = refl

load_levels-name_example : (level.names ≡ []) ⊎ ((s : List ℕ) × (name level 2 ≡ some s))
load_levels-name_example = load_levels-name files (112 ∷ []) 5 2 level level_loaded (omega arith)
