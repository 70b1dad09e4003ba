-- ===== src/Core/Config/Taken.antt =====
-- How the calls of set_cfg_i and its like of core/str_lib1.cpp follow one another.
use tusa.Common.{ℕ, ◌≡◌, refl, List, if◌then◌else◌, Bool-cases, inl, inr}
use tusa.Common.Dicts.{Dict, same_string, lookup-remove, has_name-remove}
use tusa.Core.Config.{set_cfg}

-- After a setting has been taken it is no more there: it takes its default the next time. Any other setting is what
-- it would have been without, so that the order in which settings are taken does not matter.
pub set_cfg-again :
    {V W : Type 0} (parse : List ℕ → V) (other : List ℕ → W) (name j : List ℕ) (d : V) (e : W)
    (m : Dict (List ℕ))
    → (set_cfg parse j d (set_cfg other name e m).1).0
      ≡ (if same_string name j then d else (set_cfg parse j d m).0)
unfolding set_cfg
set_cfg-again parse other name j d e m = elim (Bool-cases (same_string name j)) [
  | inl p ↦ rw (has_name-remove j name m, p) refl
  | inr p ↦ rw (has_name-remove j name m, lookup-remove j name m, p) refl
]
