-- ===== src/Bot/Mafia/MainMaf.antt =====
-- make_main_maf and check_for_main_maf of bot/bot-mafia-new/game.cpp: which mafioso gives the orders.
pub mod Present
use tusa.Common.{
  ℕ, zero, suc, ◌+◌, ◌-◌, ◌*◌, ◌/◌, ◌%◌, ◌^◌, List, [], ◌∷◌, Bool, true, false, not, ◌&&◌, ◌||◌,
}
use tusa.Common.{ltb, ◌==◌, if◌then◌else◌, length}
use tusa.Common.Maps.{find, update}
use mathlib.Core.Option.{Option, none, some}
use tusa.Bot.Mafia.State.{
  Role, maf, kat, man, doc, bom, val, mir, is_role, minus, User, Users, Game, map_users, add_score,
  is_active,
}

-- The active mafiosi in the order of the map `mf`, whose keys are random numbers: `key k` is that of
-- the k-th mafioso, and an equal key overwrites the earlier entry.
unfoldable pub put_maf : ℕ → ℕ → List (ℕ × ℕ) → List (ℕ × ℕ)
put_maf k i [] = (k, i) ∷ []
put_maf k i ((j, w) ∷ mf) =
    let rest = put_maf k i mf in
    if ltb k j then (k, i) ∷ (j, w) ∷ mf else if j == k then (j, i) ∷ mf else (j, w) ∷ rest

abbrev pub is_maf : User → Bool
is_maf u = is_active u && is_role u.role maf

unfoldable pub shuffle : (ℕ → ℕ) → ℕ → Users → List (ℕ × ℕ) → List (ℕ × ℕ)
unfolding put_maf
shuffle key k [] mf = mf
shuffle key k ((i, u) ∷ m) mf =
    shuffle key (if is_maf u then k + 1 else k) m (if is_maf u then put_maf (key k) i mf else mf)

-- maf_n = n, from 1 on, in the order of `mf`.
unfoldable pub number_mafs : ℕ → List (ℕ × ℕ) → Users → Users
number_mafs n [] m = m
number_mafs n ((k, i) ∷ mf) m = number_mafs (n + 1) mf (update i (λ u. record u { maf_n = n }) m)

unfoldable pub init_mafs : List (ℕ × ℕ) → Users → Users
unfolding number_mafs
init_mafs ((k, i) ∷ []) m = update i (λ u. record u { maf_n = 1; main_maf = true }) m
init_mafs mf m = number_mafs 1 mf m

-- The last loop of make_main_maf: the active mafioso with the least maf_n below `n`.
unfoldable pub least_maf : ℕ → Option ℕ → Users → Option ℕ
least_maf n best [] = best
least_maf n best ((i, u) ∷ m) =
    let less = is_maf u && ltb u.maf_n n in
    least_maf (if less then u.maf_n else n) (if less then some i else best) m

unfoldable pub set_main : Option ℕ → Users → Users
set_main none m = m
set_main (some i) m = update i (λ u. record u { main_maf = true }) m

-- make_main_maf(init)
unfoldable pub make_main_maf : (ℕ → ℕ) → Bool → Users → Users
unfolding shuffle init_mafs least_maf set_main
make_main_maf key init m =
    let m1 = if init then init_mafs (shuffle key 0 m []) m else m in
    set_main (least_maf 100000 none m1) m1

unfoldable pub has_main_maf : Users → Bool
has_main_maf [] = false
has_main_maf ((i, u) ∷ m) = (is_active u && u.main_maf) || has_main_maf m

unfoldable pub check_for_main_maf : Users → Users
unfolding has_main_maf make_main_maf
check_for_main_maf m = if has_main_maf m then m else make_main_maf (λ k. 0) false m
