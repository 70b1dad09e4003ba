-- ===== src/Core/Config.antt =====
-- The configuration files of core/str_lib1.cpp: load_m_file, load_m_file_no$ and the family of set_cfg_i, which
-- takes the settings out of what they have read. The files are a parameter, by which load_1_file reads a
-- name; splitTOK and atoi are those that the bots have a copy of.
pub mod Loaded
pub mod Taken
use tusa.Common.{
  ℕ, ◌%◌, ◌^◌, List, [], ◌∷◌, ◌++◌, Bool, true, false, ◌&&◌, ◌||◌, ◌==◌, if◌then◌else◌,
}
use tusa.Common.Dicts.{Dict, at_name, lookup, has_name, remove, or_else, same_string}
use mathlib.Core.Option
use mathlib.Core.Option.{Option, none, some}
use tusa.Bot.Texts.{c_str, split_tok, is_space, atoi}

-- load_1_file, which is -1, with nothing read, for none
abbrev pub Files : Type 0
Files = List ℕ → Option (List ℕ)

-- __isspace
abbrev pub is_blank : ℕ → Bool
is_blank c = c == 10 || c == 13 || c == 32 || c == 9

unfoldable pub all_blank : List ℕ → Bool
all_blank [] = true
all_blank (c ∷ s) = is_blank c && all_blank s

unfoldable pub all_space : List ℕ → Bool
all_space [] = true
all_space (c ∷ s) = is_space c && all_space s

unfoldable pub skip_spaces : List ℕ → List ℕ
skip_spaces [] = []
skip_spaces (c ∷ s) = let rest = skip_spaces s in if is_space c then rest else c ∷ s

abbrev pub with_first : ℕ → List ℕ × List ℕ → List ℕ × List ℕ
with_first c p = (c ∷ p.0, p.1)

-- What stands before and behind the first = of a line
unfoldable pub cut_line : List ℕ → Option (List ℕ × List ℕ)
cut_line [] = none
cut_line (c ∷ s) =
    let rest = cut_line s in if c == 61 then some ([], s) else Option.map (with_first c) rest

unfoldable pub full_key : List ℕ → List ℕ → List ℕ
full_key [] k = k
full_key (c ∷ section) k = (c ∷ section) ++ 95 ∷ k

unfoldable pub value : Files → List ℕ → List ℕ
value files [] = []
value files (c ∷ pn) = if c == 36 then or_else (files pn) [] else c ∷ pn

-- m[key]=val
abbrev pub store : List ℕ → List ℕ → Dict (List ℕ) → Dict (List ℕ)
store key val m = at_name key [] (λ w. val) m

unfoldable pub add_pair : Files → List ℕ → Dict (List ℕ) → Option (List ℕ × List ℕ) → Dict (List ℕ)
unfolding full_key value at_name
add_pair files section m none = m
add_pair files section m (some (k, v)) = store (full_key section k) (value files v) m

-- A line without the spaces before it: the section and the map after it
unfoldable pub take_line : Files → List ℕ → Dict (List ℕ) → List ℕ → List ℕ × Dict (List ℕ)
unfolding add_pair cut_line
take_line files section m [] = (section, m)
take_line files section m (c ∷ s) =
    if c == 35
    then (section, m)
    else if c == 37
    then (s, m)
    else (section, add_pair files section m (cut_line (c ∷ s)))

unfoldable pub load_line : Files → List ℕ → Dict (List ℕ) → List ℕ → List ℕ × Dict (List ℕ)
unfolding all_blank take_line skip_spaces
load_line files section m s =
    if all_blank s then (section, m) else take_line files section m (skip_spaces s)

unfoldable pub load_lines : Files → List ℕ → Dict (List ℕ) → List (List ℕ) → Dict (List ℕ)
unfolding load_line
load_lines files section m [] = m
load_lines files section m (s ∷ v) =
    let (section', m') = load_line files section m s in load_lines files section' m' v

abbrev pub line_ends : List ℕ
line_ends = 13 ∷ 10 ∷ []

unfoldable pub load_body : Files → Option (List ℕ) → Dict (List ℕ)
unfolding load_lines split_tok c_str
load_body files none = []
load_body files (some body) = load_lines files [] [] (split_tok line_ends (c_str body))

unfoldable pub load_m_file : Files → List ℕ → Dict (List ℕ)
unfolding load_body
load_m_file files fn = load_body files (files fn)

unfoldable pub store_pair : Dict (List ℕ) → Option (List ℕ × List ℕ) → Dict (List ℕ)
unfolding at_name
store_pair m none = m
store_pair m (some (k, v)) = store k v m

unfoldable pub is_comment : List ℕ → Bool
is_comment [] = true
is_comment (c ∷ s) = c == 35

-- load_m_file_no$: neither sections nor other files, and the spaces stay
unfoldable pub plain_lines : Dict (List ℕ) → List (List ℕ) → Dict (List ℕ)
unfolding all_space is_comment store_pair cut_line
plain_lines m [] = m
plain_lines m (s ∷ v) =
    plain_lines (if all_space s || is_comment s then m else store_pair m (cut_line s)) v

unfoldable pub plain_body : Option (List ℕ) → Dict (List ℕ)
unfolding plain_lines split_tok c_str
plain_body none = []
plain_body (some body) = plain_lines [] (split_tok line_ends (c_str body))

unfoldable pub load_m_file_no_dollar : Files → List ℕ → Dict (List ℕ)
unfolding plain_body
load_m_file_no_dollar files fn = plain_body (files fn)

-- The body that the functions share: the setting, or `defv`, and the map without it
unfoldable pub set_cfg :
    {V : Type 0} → (List ℕ → V) → List ℕ → V → Dict (List ℕ) → V × Dict (List ℕ)
unfolding has_name lookup remove
set_cfg parse name defv m =
    (if has_name name m then parse (or_else (lookup name m) []) else defv, remove name m)

unfoldable pub set_cfg_i : List ℕ → ℕ → Dict (List ℕ) → ℕ × Dict (List ℕ)
unfolding set_cfg atoi
set_cfg_i name defv m = set_cfg atoi name defv m

unfoldable pub set_cfg_ishort : List ℕ → ℕ → Dict (List ℕ) → ℕ × Dict (List ℕ)
unfolding set_cfg atoi
set_cfg_ishort name defv m = set_cfg (λ w. atoi w % 2 ^ 16) name defv m

unfoldable pub set_cfg_b : List ℕ → Bool → Dict (List ℕ) → Bool × Dict (List ℕ)
unfolding set_cfg same_string
set_cfg_b name defv m = set_cfg (λ w. same_string w (116 ∷ 114 ∷ 117 ∷ 101 ∷ [])) name defv m

-- set_cfg_f for a type of doubles and its atof
unfoldable pub set_cfg_f :
    {D : Type 0} → (List ℕ → D) → List ℕ → D → Dict (List ℕ) → D × Dict (List ℕ)
unfolding set_cfg
set_cfg_f atof name defv m = set_cfg atof name defv m

-- get_cfg_str, and set_cfg_str, which stores the result
unfoldable pub get_cfg_str : List ℕ → List ℕ → Dict (List ℕ) → List ℕ × Dict (List ℕ)
unfolding set_cfg
get_cfg_str name defv m = set_cfg (λ w. w) name defv m
