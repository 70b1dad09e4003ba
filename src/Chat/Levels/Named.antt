-- ===== src/Chat/Levels/Named.antt =====
-- The names of the levels that load_levels of chatserver/levels.cpp has read.
use tusa.Common.{
  ℕ, zero, suc, ◌+◌, ◌-◌, ◌≡◌, ◌≤◌, ◌<◌, ◌⊎◌, inl, inr, refl, sym, ◌∙◌, List, [], ◌∷◌, ◌++◌, length,
  ◌||◌, ◌==◌, if◌then◌else◌, Bool-cases, arith, length-append,
}
use mathlib.Core.Path.{subst}
use tusa.Common.Maps.{Map, find, value_or, find-at_key}
use tusa.Common.Dicts.{Dict, same_string}
use mathlib.Core.Option.{Option, none, some}
use tusa.Bot.Texts.{split_tok, atoi}
use tusa.Chat.Words
use tusa.Core.Config.{Files, is_comment, all_space, load_m_file}
use tusa.Chat.Levels.{
  CLevel, c_level, get_elem?, name, append_first, assign_names, local_key, read_param, read_params,
  new_level, with_keys, load_level, load_each, load_levels, read,
}

-- A level has no name, or one for each gender and one for others.
abbrev IsNamed : CLevel → Type 0
IsNamed l = (l.names ≡ []) ⊎ (3 ≤ length l.names)

abbrev AreNamed : Map CLevel → Type 0
AreNamed m = (n : ℕ) (l : CLevel) → find n m ≡ some l → IsNamed l

length-append_first :
    (n : ℕ) (x : List ℕ) (v : List (List ℕ)) → length (append_first n x v) ≡ length v + n
unfolding append_first
length-append_first zero x v = omega arith
length-append_first (suc n) x v =
    rw (length-append_first n x (v ++ x ∷ []), length-append v (x ∷ [])) (omega arith)

assign_names-IsNamed : (v : List (List ℕ)) (l : CLevel) → IsNamed l → IsNamed (assign_names v l)
unfolding assign_names
assign_names-IsNamed [] l h = h
assign_names-IsNamed (x ∷ v) l h =
    let p = length-append_first (3 - length (x ∷ v)) x (x ∷ v) in inr (omega arith)

read_param-IsNamed :
    (files : Files) (key val : List ℕ) (l : CLevel)
    → IsNamed l
    → IsNamed (read_param files key val l)
unfolding read_param
read_param-IsNamed files key val l h = elim (Bool-cases (same_string (local_key key) Words.names)) [
  | inl e ↦ rw e (assign_names-IsNamed (split_tok (44 ∷ []) val) l h)
  | inr e ↦ elim (Bool-cases (same_string (local_key key) Words.replacements)) [
    | inl d ↦ rw (e, d) h
    | inr d ↦ elim (Bool-cases (same_string (local_key key) Words.color_packs)) [
      | inl c ↦ rw (e, d, c) h
      | inr c ↦ rw (e, d, c) h
    ]
  ]
]

read_params-IsNamed :
    (files : Files) (params : Dict (List ℕ)) (l : CLevel)
    → IsNamed l
    → IsNamed (read_params files params l)
unfolding read_params
read_params-IsNamed files [] l h = h
read_params-IsNamed files ((key, val) ∷ params) l h =
    read_params-IsNamed files params (read_param files key val l)
      (read_param-IsNamed files key val l h)

old-IsNamed : (n : ℕ) (m : Map CLevel) → AreNamed m → IsNamed (value_or (find n m) c_level)
old-IsNamed n m h = with_old (find n m) (λ l p. h n l p)
  where
    with_old :
        (o : Option CLevel) → ((l : CLevel) → o ≡ some l → IsNamed l) → IsNamed (value_or o c_level)
    with_old none k = inl refl
    with_old (some l) k = k l refl

new_level-IsNamed :
    (files : Files) (k : ℕ) (params : Dict (List ℕ)) (m : Map CLevel)
    → AreNamed m
    → IsNamed (new_level files k params (value_or (find k m) c_level))
unfolding new_level
new_level-IsNamed files k params m h =
    read_params-IsNamed files (with_keys Words.keys params) _ (old-IsNamed k m h)

same-IsNamed : (a b : CLevel) → some a ≡ some b → IsNamed a → IsNamed b
same-IsNamed a b p h = let e : a ≡ b = cc in subst IsNamed e h

load_level-AreNamed :
    (files : Files) (k : ℕ) (params : Dict (List ℕ)) (m : Map CLevel)
    → AreNamed m
    → AreNamed (load_level files k params m)
unfolding load_level
load_level-AreNamed files k params m h n l p =
    let lev = new_level files k params (value_or (find k m) c_level) in
    let q : (if k == n then some lev else find n m) ≡ some l =
      sym (find-at_key n k c_level (λ l. lev) m) ∙ p in
    elim (Bool-cases (k == n)) [
      | inl e ↦ same-IsNamed lev l (rw e at q) (new_level-IsNamed files k params m h)
      | inr e ↦ h n l (rw e at q)
    ]

load_each-AreNamed :
    (files : Files) (c : Dict (List ℕ)) (m : Map CLevel)
    → AreNamed m
    → AreNamed (load_each files c m)
unfolding load_each
load_each-AreNamed files [] m h = h
load_each-AreNamed files ((nn, path) ∷ c) m h = elim (Bool-cases (is_comment nn || all_space nn)) [
  | inl e ↦ rw e (load_each-AreNamed files c m h)
  | inr e ↦
      let next = load_level files (atoi nn) (load_m_file files path) m in
      rw e (
        load_each-AreNamed files c next
          (load_level-AreNamed files (atoi nn) (load_m_file files path) m h))
]

nil-AreNamed : AreNamed []
unfolding find
nil-AreNamed n l p = absurd cc

get_elem?-some :
    (v : List (List ℕ)) (g : ℕ) → g < length v → (s : List ℕ) × (get_elem? v g ≡ some s)
unfolding get_elem?
get_elem?-some [] g h = absurd (omega arith)
get_elem?-some (x ∷ v) zero h = (x, refl)
get_elem?-some (x ∷ v) (suc g) h = get_elem?-some v g (omega arith)

-- Of a level that load_levels has read, whatever the files have in them, name throws for none of the genders 0, 1
-- and 2, unless no names are given for the level.
pub load_levels-name :
    (files : Files) (pn : List ℕ) (n g : ℕ) (l : CLevel)
    → find n (load_levels files pn) ≡ some l
    → g < 3
    → (l.names ≡ []) ⊎ ((s : List ℕ) × (name l g ≡ some s))
unfolding load_levels name
load_levels-name files pn n g l p h =
    elim (load_each-AreNamed files (read files pn) [] nil-AreNamed n l p) [
      | inl e ↦ inl e
      | inr e ↦ inr (get_elem?-some l.names g (omega arith))
    ]
