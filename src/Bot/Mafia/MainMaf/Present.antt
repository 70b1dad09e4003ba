-- ===== src/Bot/Mafia/MainMaf/Present.antt =====
-- The mafioso who gives the order of the mafia.
use tusa.Common.{ℕ, ◌≡◌, ◌⊎◌, refl, [], ◌∷◌, Bool, true, false, ◌&&◌, ◌||◌}
use tusa.Common.{ltb, ◌==◌, arith, Bool-cases, inl, inr}
use tusa.Common.Maps.{update}
use mathlib.Core.Option.{none, some}
use tusa.Bot.Mafia.State.{Users}
use tusa.Bot.Mafia.MainMaf.{is_maf, least_maf, has_main_maf, check_for_main_maf}

-- An active mafioso has the key i, or a number below n.
unfoldable maf_at : ℕ → Users → Bool
maf_at i [] = false
maf_at i ((j, u) ∷ m) = is_maf u && j == i || maf_at i m

unfoldable pub has_maf : ℕ → Users → Bool
has_maf n [] = false
has_maf n ((j, u) ∷ m) = is_maf u && ltb u.maf_n n || has_maf n m

-- The loop finds one where there is one.
least_maf-some :
    (n i : ℕ) (m : Users)
    → (k : ℕ) × (least_maf n (some i) m ≡ some k) × ((k ≡ i) ⊎ (maf_at k m ≡ true))
unfolding least_maf maf_at
least_maf-some n i [] = (i, refl, inl refl)
least_maf-some n i ((j, u) ∷ m) = elim (Bool-cases (is_maf u && ltb u.maf_n n)) [
  | inl e ↦ let (k, p, h) = least_maf-some u.maf_n j m in (k, rw e p, inr (ground (arith, h, e)))
  | inr e ↦ let (k, p, h) = least_maf-some n i m in (k, rw e p, ground (arith, h))
]

least_maf-none :
    (n : ℕ) (m : Users)
    → has_maf n m ≡ true
    → (k : ℕ) × (least_maf n none m ≡ some k) × (maf_at k m ≡ true)
unfolding least_maf maf_at has_maf
least_maf-none n [] h = cc
least_maf-none n ((j, u) ∷ m) h = elim (Bool-cases (is_maf u && ltb u.maf_n n)) [
  | inl e ↦ let (k, p, q) = least_maf-some u.maf_n j m in (k, rw e p, ground (arith, q, e))
  | inr e ↦ let (k, p, q) = least_maf-none n m (rw e at h) in (k, rw e p, ground (arith, q))
]

update-has_main_maf :
    (k : ℕ) (m : Users)
    → maf_at k m ≡ true
    → has_main_maf (update k (λ u. record u { main_maf = true }) m) ≡ true
unfolding maf_at has_main_maf update
update-has_main_maf k [] h = cc
update-has_main_maf k ((j, u) ∷ m) h = elim (Bool-cases (j == k)) [
  | inl e ↦ rw e (ground (arith, update-has_main_maf k m, e, h))
  | inr e ↦ rw e (ground (arith, update-has_main_maf k m, e, h))
]

-- After check_for_main_maf some active user gives the orders of the mafia, if one did before or an
-- active mafioso with a number below 100000 is in the game.
pub check_for_main_maf_lem :
    (m : Users)
    → has_main_maf m || has_maf 100000 m ≡ true
    → has_main_maf (check_for_main_maf m) ≡ true
unfolding check_for_main_maf
check_for_main_maf_lem m h = elim (Bool-cases (has_main_maf m)) [
  | inl e ↦ rw e e
  | inr e ↦
      let (k, p, q) = least_maf-none 100000 m (rw e at h) in rw (e, p) (update-has_main_maf k m q)
]
