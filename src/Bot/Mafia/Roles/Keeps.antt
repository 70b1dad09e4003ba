-- ===== src/Bot/Mafia/Roles/Keeps.antt =====
-- Who gets a role from assign_role, and what declining one costs.
use tusa.Common.{ℕ, zero, suc, ◌+◌, ◌-◌, ◌%◌, ◌^◌, ◌≡◌, sym, ◌∙◌, ap, true, false}
use tusa.Common.{
  ◌==◌, length, arith, Bool-cases, inl, inr, if-both, if-cases, if-false, absurd, ==_iff,
}
use tusa.Common.Maps.{find, update, find-update}
use mathlib.Core.Option.{some}
use mathlib.Core.Path.{subst}
use tusa.Bot.Mafia.State.{Role, mir, is_role, minus, User, Users, add_score}
use tusa.Bot.Mafia.Roles.{is_free, assign_loop, assign_role, decline_user, decline_role}

-- A user with a role is left alone.
update-taken :
    (i z : ℕ) (f : User → User) (m : Users) (u : User)
    → find i m ≡ some u
    → is_role u.role mir ≡ false
    → is_free (find z m) ≡ true
    → find i (update z f m) ≡ some u
update-taken i z f m u p t e = elim (Bool-cases (z == i)) [
  | inl d ↦
      let q : is_free (find i m) ≡ true =
        subst (λ x. is_free (find x m) ≡ true) ((==_iff z i).0 d) e in
      let r : is_role u.role mir ≡ true = subst (λ x. is_free x ≡ true) p q in absurd (sym r ∙ t)
  | inr d ↦ rw (find-update i z f m, d) p
]

assign_loop-keeps :
    (rounds : ℕ) (rand : ℕ → ℕ) (cnt : ℕ) (role : Role) (i : ℕ) (m : Users) (u : User)
    → find i m ≡ some u
    → is_role u.role mir ≡ false
    → find i (assign_loop rounds rand cnt role m) ≡ some u
unfolding assign_loop
assign_loop-keeps zero rand cnt role i m u p t = p
assign_loop-keeps (suc n) rand cnt role i m u p t =
    let z = rand n % length m + 1 in
    let f : User → User = λ w. record w { role = role } in
    if-both (λ (r : Users). find i r ≡ some u) (cnt == 0) _ _ p
      (if-cases (λ (r : Users). find i r ≡ some u) (is_free (find z m)) _ _
        (λ e.
          assign_loop-keeps n rand (cnt - 1) role i (update z f m) u (update-taken i z f m u p t e)
            t)
        (λ e. assign_loop-keeps n rand cnt role i m u p t))

-- assign_role leaves every user alone who has a role, whatever the random numbers are.
pub assign_role-keeps :
    (rand : ℕ → ℕ) (cnt : ℕ) (role : Role) (i : ℕ) (m : Users) (u : User)
    → find i m ≡ some u
    → is_role u.role mir ≡ false
    → find i (assign_role rand cnt role m) ≡ some u
unfolding assign_role
assign_role-keeps rand cnt role i m u p t = assign_loop-keeps 1001 rand cnt role i m u p t

-- What the role's former holder becomes.
abbrev declined : User → User
declined w = add_score (minus 50) (record w { role = mir })

decline_user-keeps :
    (rand : ℕ → ℕ) (i : ℕ) (m : Users) (u : User)
    → is_role u.role mir ≡ false
    → decline_user rand i (some u) m ≡ update i declined (assign_role rand 1 u.role m)
unfolding decline_user
decline_user-keeps rand i m u t = if-false (is_role u.role mir) m _ t

update_self :
    (i : ℕ) (m : Users) (u : User)
    → find i m ≡ some u
    → find i (update i declined m) ≡ some (declined u)
update_self i m u p = rw (find-update i i declined m, p) (ground arith)

-- A user with a role who declines it is a townsman with 50 less in an unsigned score, so from a score
-- below 50 it is 2 ^ 32 - 50 more, and is otherwise as before.
pub decline_role-score :
    (rand : ℕ → ℕ) (i : ℕ) (m : Users) (u : User)
    → find i m ≡ some u
    → is_role u.role mir ≡ false
    → find i (decline_role rand (some i) m)
      ≡ some (record u { role = mir; score = (u.score + (2 ^ 32 - 50)) % 2 ^ 32 })
unfolding decline_role
decline_role-score rand i m u p t =
    ap (λ o. find i (decline_user rand i o m)) p
    ∙ (ap (λ r. find i r) (decline_user-keeps rand i m u t)
        ∙ update_self i (assign_role rand 1 u.role m) u (assign_role-keeps rand 1 u.role i m u p t))
