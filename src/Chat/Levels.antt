-- ===== src/Chat/Levels.antt =====
-- The access levels of chatserver/levels.h and chatserver/levels.cpp, with params_map::read of core/file_set.cpp
-- and load_l_file of chatserver/chat_globals.cpp, by which they are read. What load_levels writes to the database
-- is left out.
pub mod Named
use tusa.Common.{
  ℕ, zero, suc, ◌-◌, List, [], ◌∷◌, ◌++◌, Bool, true, false, ◌||◌, ◌==◌, if◌then◌else◌, length, not,
  ltb,
}
use tusa.Common.Maps.{Map, find, at_key, value_or, set_insert}
use tusa.Common.Dicts.{Dict, at_name, same_string}
use mathlib.Core.Option
use mathlib.Core.Option.{Option, none, some}
use tusa.Bot.Texts.{c_str, split_tok, atoi, field}
use tusa.Chat.Words
use tusa.Core.Config.{
  Files, store_pair, cut_line, is_comment, all_space, load_m_file, line_ends, with_first, store,
}

pub record CLevel : Type 0 where
  pub names : List (List ℕ)
  pub max_nicks_count : ℕ
  pub max_msg_len : ℕ
  pub replacements : Dict (List ℕ)
  pub colors : List ℕ
  pub id : ℕ
  pub levelup_ability : ℕ
  pub invisibility : ℕ
  pub kick_shield : ℕ
  pub kick_ability : ℕ

-- c_level(), whose numbers, which are anything, are all given a value before they are read
abbrev pub c_level : CLevel
c_level = record {
  names = [];
  max_nicks_count = 0;
  max_msg_len = 0;
  replacements = [];
  colors = [];
  id = 0;
  levelup_ability = 0;
  invisibility = 0;
  kick_shield = 0;
  kick_ability = 0;
}

-- names[g]
unfoldable pub get_elem? : List (List ℕ) → ℕ → Option (List ℕ)
get_elem? [] g = none
get_elem? (x ∷ xs) zero = some x
get_elem? (x ∷ xs) (suc g) = get_elem? xs g

-- c_level::name, which throws where there is no name
unfoldable pub name : CLevel → ℕ → Option (List ℕ)
unfolding get_elem?
name l g = get_elem? l.names g

unfoldable pub level_name : ℕ → ℕ → Map CLevel → Option (List ℕ)
unfolding find name
level_name id gender levels = elim (find id levels) [ none ↦ some [] | some l ↦ name l gender ]

-- __LEVELS, which throws where there is no such level
unfoldable pub get_level : ℕ → Map CLevel → Option CLevel
unfolding find
get_level n levels = find n levels

unfoldable pub read_lines : Dict (List ℕ) → List (List ℕ) → Dict (List ℕ)
unfolding is_comment store_pair cut_line
read_lines m [] = m
read_lines m (s ∷ str) = read_lines (if is_comment s then m else store_pair m (cut_line s)) str

abbrev body : Option (List ℕ) → List ℕ
body none = []
body (some s) = s

-- params_map::read into an empty container
unfoldable pub read : Files → List ℕ → Dict (List ℕ)
unfolding read_lines split_tok
read files fn = read_lines [] (split_tok line_ends (body (files fn)))

unfoldable pub load_l_file : Files → List ℕ → List (List ℕ)
unfolding split_tok c_str
load_l_file files fn = split_tok line_ends (c_str (body (files fn)))

-- What stands before and behind the first char c of a line
unfoldable pub cut_at : ℕ → List ℕ → Option (List ℕ × List ℕ)
cut_at c [] = none
cut_at c (x ∷ s) =
    let rest = cut_at c s in if x == c then some ([], s) else Option.map (with_first x) rest

abbrev is_en : List ℕ → Bool
is_en (a ∷ b ∷ s) = same_string (a ∷ b ∷ []) (101 ∷ 110 ∷ [])
is_en s = false

abbrev without : List ℕ → Option (List ℕ × List ℕ) → List ℕ
without s none = s
without s (some (l, k)) = if is_en s then s else k

-- A key without its language, but with en
unfoldable pub local_key : List ℕ → List ℕ
unfolding cut_at same_string
local_key s = without s (cut_at 64 s)

-- The first name for the genders that have none
unfoldable pub append_first : ℕ → List ℕ → List (List ℕ) → List (List ℕ)
append_first zero x v = v
append_first (suc n) x v = append_first n x (v ++ x ∷ [])

-- A level whose names are `v`, if there are any
unfoldable pub assign_names : List (List ℕ) → CLevel → CLevel
unfolding append_first
assign_names [] l = l
assign_names (x ∷ v) l = record l { names = append_first (3 - length (x ∷ v)) x (x ∷ v) }

unfoldable pub replace_pair : Option (List ℕ × List ℕ) → Dict (List ℕ) → Dict (List ℕ)
unfolding at_name
replace_pair none m = m
replace_pair (some (key, val)) m = store key val m

unfoldable pub add_replacements : List (List ℕ) → Dict (List ℕ) → Dict (List ℕ)
unfolding replace_pair cut_at
add_replacements [] m = m
add_replacements (k ∷ repls) m = add_replacements repls (replace_pair (cut_at 32 k) m)

unfoldable pub add_colors : List (List ℕ) → List ℕ → List ℕ
unfolding set_insert atoi
add_colors [] s = s
add_colors (x ∷ c) s = add_colors c (set_insert (atoi x) s)

abbrev comma : List ℕ
comma = 44 ∷ []

unfoldable pub read_param : Files → List ℕ → List ℕ → CLevel → CLevel
unfolding local_key same_string assign_names split_tok add_replacements load_l_file add_colors
read_param files key val l =
    let s = local_key key in
    if same_string s Words.names
    then assign_names (split_tok comma val) l
    else if same_string s Words.replacements
    then record l { replacements = add_replacements (load_l_file files val) l.replacements }
    else if same_string s Words.color_packs
    then record l { colors = add_colors (split_tok comma val) l.colors }
    else l

unfoldable pub read_params : Files → Dict (List ℕ) → CLevel → CLevel
unfolding read_param
read_params files [] l = l
read_params files ((key, val) ∷ params) l = read_params files params (read_param files key val l)

-- params[key] for each of the keys, which makes the missing ones
unfoldable pub with_keys : List (List ℕ) → Dict (List ℕ) → Dict (List ℕ)
unfolding at_name
with_keys [] params = params
with_keys (k ∷ ks) params = with_keys ks (at_name k [] (λ w. w) params)

abbrev number : List ℕ → Dict (List ℕ) → ℕ
number key params = atoi (field key params)

-- The level n from its parameters, with the names of the level `old` of the same number
unfoldable pub new_level : Files → ℕ → Dict (List ℕ) → CLevel → CLevel
unfolding read_params with_keys atoi field
new_level files n params old = read_params files (with_keys Words.keys params) record {
  names = old.names;
  max_nicks_count = number Words.nicks_count params;
  max_msg_len = number Words.msg_len params;
  replacements = [];
  colors = [];
  id = n;
  levelup_ability = number Words.levelup_ability params;
  invisibility = number Words.invisibility params;
  kick_shield = number Words.kick_shield params;
  kick_ability = number Words.kick_ability params;
}

-- levels[n]=lev
unfoldable pub load_level : Files → ℕ → Dict (List ℕ) → Map CLevel → Map CLevel
unfolding new_level at_key find
load_level files n params levels =
    let lev = new_level files n params (value_or (find n levels) c_level) in
    at_key n c_level (λ l. lev) levels

unfoldable pub load_each : Files → Dict (List ℕ) → Map CLevel → Map CLevel
unfolding is_comment all_space load_level load_m_file atoi
load_each files [] levels = levels
load_each files ((nn, path) ∷ c) levels = load_each files c (
    if is_comment nn || all_space nn
    then levels
    else load_level files (atoi nn) (load_m_file files path) levels)

unfoldable pub load_levels : Files → List ℕ → Map CLevel
unfolding load_each read
load_levels files pn = load_each files (read files pn) []
