-- ===== src/Bot/Mafia/Night.antt =====
-- bot/bot-mafia-new/night.cpp, and remove_left_users and check_all_orders of game.cpp.
pub mod Orders
pub mod Rules
use tusa.Common.{
  ℕ, ◌+◌, List, [], ◌∷◌, Bool, true, false, not, ◌&&◌, ◌||◌, ltb, ◌==◌, if◌then◌else◌,
}
use tusa.Common.Maps.{find, has_key, update}
use mathlib.Core.Option.{Option, none, some}
use tusa.Bot.Mafia.State.{
  Role, maf, kat, man, doc, bom, val, mir, is_role, User, Users, Game, map_users,
}

unfoldable pub leave : User → User
leave u =
    if u.marked_for_delete
    then u
    else if u.left
    then record u { devoiced = true; marked_for_delete = true }
    else u

unfoldable pub remove_left_users : Users → Users
unfolding map_users leave
remove_left_users m = map_users leave m

unfoldable pub new_night : User → User
new_night u =
    if u.marked_for_delete
    then u
    else record u { order = 0; order_done = false; doced = false; valed = false }

unfoldable pub do_night : ℕ → Game → Game
unfolding remove_left_users new_night map_users
do_night now g = record g {
  gamers_by_id = map_users new_night (remove_left_users g.gamers_by_id);
  night = true;
  night_time = now;
}

-- An order is still awaited from this user.
abbrev pub awaits_order : User → Bool
awaits_order u =
    not u.marked_for_delete
    && not (is_role u.role maf && not u.main_maf)
    && not (is_role u.role mir)
    && not u.order_done

unfoldable pub check_all_orders : Users → Bool
check_all_orders [] = true
check_all_orders ((i, u) ∷ m) =
    let rest = check_all_orders m in if awaits_order u then false else rest

-- The doctor's order: a former patient is no longer treated.
unfoldable pub doc_order : ℕ → ℕ → User → Users → Users
doc_order from to u m =
    let m1 = if u.order_done then update u.order (λ w. record w { doced = false }) m else m in
    let m2 = update from (λ w. record w { order = to; order_done = true }) m1 in
    update to (λ w. record w { doced = true; parent = from }) m2

unfoldable pub check_order : ℕ → ℕ → Users → Users
check_order from to m =
    update from (λ w. record w { order = to; order_type = false; order_done = true }) m

unfoldable pub kill_order : ℕ → ℕ → Users → Users
kill_order from to m =
    update from (λ w. record w { order = to; order_type = true; order_done = true }) m

unfoldable pub val_order : ℕ → ℕ → User → Users → Users
val_order from to u m =
    let m1 = if u.order_done then update u.order (λ w. record w { valed = false }) m else m in
    let m2 = update from (λ w. record w { order = to; order_done = true }) m1 in
    update to (λ w. record w { valed = true }) m2

-- The users after an order that is given; `none` where process_night returns before its end.
unfoldable pub night_order : ℕ → ℕ → Bool → User → Users → Option Users
unfolding doc_order check_order kill_order val_order
night_order from to dbl u m = elim u.role [
  | mir ↦ none
  | doc ↦ if to == u.id && ltb 2 u.doc_self then none else some (doc_order from to u m)
  | bom ↦ some (check_order from to m)
  | kat ↦ some (if dbl then kill_order from to m else check_order from to m)
  | maf ↦ if u.main_maf then some (kill_order from to m) else none
  | man ↦ some (kill_order from to m)
  | val ↦ some (val_order from to u m)
]

-- The end of process_night: with all orders in, the morning comes.
unfoldable pub check_morning : ℕ → Game → Game
unfolding check_all_orders
check_morning now g =
    if check_all_orders g.gamers_by_id
    then record g { night = false; morning = true; morning_time = now }
    else g

unfoldable pub give_order : ℕ → Option Users → Game → Game
unfolding check_morning
give_order now none g = g
give_order now (some m) g = check_morning now (record g { gamers_by_id = m })

unfoldable pub process_night_users : ℕ → ℕ → ℕ → Bool → Option User → Option User → Game → Game
unfolding give_order night_order
process_night_users now from to dbl none z g = g
process_night_users now from to dbl (some u) none g = g
process_night_users now from to dbl (some u) (some z) g =
    if u.marked_for_delete || z.marked_for_delete
    then g
    else if not (is_role u.role doc) && from == to
    then g
    else give_order now (night_order from to dbl u g.gamers_by_id) g

unfoldable pub process_night : ℕ → ℕ → ℕ → Bool → Game → Game
unfolding process_night_users
process_night now fromuser touser dbl g =
    process_night_users now fromuser touser dbl (find fromuser g.gamers_by_id)
      (find touser g.gamers_by_id) g
