-- ===== src/Bot/Mafia/Night/Rules.antt =====
-- The rules of the night: who may give which order, and when the morning comes.
use tusa.Common.{ℕ, ◌≡◌, ◌↔◌, refl, sym, ◌∙◌, ap, [], ◌∷◌, Bool, true, false, ◌&&◌, ◌||◌, not}
use tusa.Common.{◌==◌, if◌then◌else◌, arith, Bool-cases, inl, inr, if-cases, if-false, absurd, All}
use tusa.Common.Maps.{find}
use mathlib.Core.Option.{Option, some}
use mathlib.Core.Path.{subst}
use tusa.Bot.Mafia.State.{doc, is_role, User, Users, Game}
use tusa.Bot.Mafia.Night.{
  awaits_order, check_all_orders, night_order, check_morning, give_order, process_night,
}
use tusa.Bot.Mafia.Night.Orders.{
  may_role, night_order-refused, HasOrder, GivesOrder, night_order-given,
}

-- Townsmen and all mafiosi but the first give no orders, the doctor treats himself no more than three
-- nights in a row, the others give no order against themselves, and no order is given by or against
-- one who is out.
abbrev pub may_order : ℕ → ℕ → User → User → Bool
may_order from to u z =
    not (u.marked_for_delete || z.marked_for_delete)
    && (not (not (is_role u.role doc) && from == to) && may_role to u u.role)

-- An order that the rules forbid changes nothing.
pub process_night-refused :
    (now from to : ℕ) (dbl : Bool) (u z : User) (g : Game)
    → find from g.gamers_by_id ≡ some u
    → find to g.gamers_by_id ≡ some z
    → may_order from to u z ≡ false
    → process_night now from to dbl g ≡ g
unfolding process_night
process_night-refused now from to dbl u z g p q h =
    rw (p, q)
      (if-cases (λ (r : Game). r ≡ g) (u.marked_for_delete || z.marked_for_delete) g _ (λ e. refl)
        (λ e.
          if-cases (λ (r : Game). r ≡ g) (not (is_role u.role doc) && from == to) g _ (λ d. refl)
            (λ d.
              ap (λ o. give_order now o g)
                (night_order-refused from to dbl u g.gamers_by_id u.role refl
                  (ground (arith, h, e, d))))))

-- The game h after an order of `from` against `to` that was given in g.
abbrev pub IsNoted : ℕ → ℕ → Game → Game → Type 0
IsNoted from to g h =
    HasOrder from to h.gamers_by_id
    × (h.night ≡ (if check_all_orders h.gamers_by_id then false else g.night))
    × (h.morning ≡ (if check_all_orders h.gamers_by_id then true else g.morning))

check_morning-IsNoted :
    (now from to : ℕ) (m : Users) (g : Game)
    → HasOrder from to m
    → IsNoted from to g (check_morning now (record g { gamers_by_id = m }))
unfolding check_morning
check_morning-IsNoted now from to m g h = elim (Bool-cases (check_all_orders m)) [
  | inl e ↦ rw e (h, rw e refl, rw e refl)
  | inr e ↦ rw e (h, rw e refl, rw e refl)
]

give_order-IsNoted :
    (now from to : ℕ) (o : Option Users) (g : Game)
    → GivesOrder from to o
    → IsNoted from to g (give_order now o g)
unfolding give_order
give_order-IsNoted now from to o g (m, p, h) =
    subst (λ x. IsNoted from to g (give_order now x g)) (sym p)
      (check_morning-IsNoted now from to m g h)

process_night-passes :
    (now from to : ℕ) (dbl : Bool) (u z : User) (g : Game)
    → find from g.gamers_by_id ≡ some u
    → find to g.gamers_by_id ≡ some z
    → may_order from to u z ≡ true
    → process_night now from to dbl g ≡ give_order now (night_order from to dbl u g.gamers_by_id) g
unfolding process_night
process_night-passes now from to dbl u z g p q h =
    rw (p, q)
      (if-false (u.marked_for_delete || z.marked_for_delete) g _ (ground (arith, h))
        ∙ if-false (not (is_role u.role doc) && from == to) g _ (ground (arith, h)))

-- An order that the rules allow is noted, whatever it is: the user has it and has given one. If no order
-- is awaited any more the night ends and the morning begins, else both flags stay as they were.
pub process_night-given :
    (now from to : ℕ) (dbl : Bool) (u z : User) (g : Game)
    → find from g.gamers_by_id ≡ some u
    → find to g.gamers_by_id ≡ some z
    → may_order from to u z ≡ true
    → IsNoted from to g (process_night now from to dbl g)
process_night-given now from to dbl u z g p q h =
    subst (λ r. IsNoted from to g r) (sym (process_night-passes now from to dbl u z g p q h))
      (give_order-IsNoted now from to (night_order from to dbl u g.gamers_by_id) g
        (night_order-given from to dbl u g.gamers_by_id u.role refl p (ground (arith, h))))

-- All orders are in exactly when no user in the game awaits one.
pub check_all_orders_lem :
    (m : Users) → (check_all_orders m ≡ true) ↔ All (λ e. awaits_order e.1 ≡ false) m
unfolding check_all_orders
check_all_orders_lem [] = (λ h. tt, λ h. refl)
check_all_orders_lem ((i, u) ∷ m) =
    let f = check_all_orders_lem m in
    elim (Bool-cases (awaits_order u)) [
      | inl e ↦ rw e (λ h. absurd (sym h), λ h. absurd h.0)
      | inr e ↦ rw e (λ h. (refl, f.0 h), λ h. f.1 h.1)
    ]
