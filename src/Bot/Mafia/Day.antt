-- ===== src/Bot/Mafia/Day.antt =====
-- do_day and the second vote of bot/bot-mafia-new/day.cpp.
pub mod Patients
use tusa.Common.{
  ℕ, zero, suc, ◌+◌, ◌-◌, ◌*◌, ◌/◌, ◌%◌, ◌^◌, List, [], ◌∷◌, Bool, true, false, not, ◌&&◌, ◌||◌,
}
use tusa.Common.{ltb, leb, ◌==◌, if◌then◌else◌, length}
use tusa.Common.Maps.{Map, find, has_key, update, at_key}
use mathlib.Core.Option.{Option, none, some}
use tusa.Bot.Mafia.State.{
  Role, maf, kat, man, doc, bom, val, mir, is_role, minus, User, Users, Game, map_users, add_score,
  ids, get_active_users_count,
}
use tusa.Bot.Mafia.Night.{do_night, remove_left_users}
use tusa.Bot.Mafia.MainMaf.{check_for_main_maf}
use tusa.Bot.Mafia.Finish.{Finish, process_for_end_game}
use tusa.Bot.Mafia.Votes.{do_vote1, to_night, count_votes2, check_for_vote2_end}

-- The scores of do_day for a kill by the mafia, the maniac and Katani, and for the girl's visit.
abbrev pub maf_score : Role → ℕ
maf_score r = elim r [
  | mir ↦ 12
  | kat ↦ 60
  | maf ↦ minus 150
  | man ↦ 49
  | bom ↦ 40
  | doc ↦ 40
  | val ↦ 9
]

abbrev pub man_score : Role → ℕ
man_score r = elim r [ mir ↦ 14 | kat ↦ 61 | maf ↦ 55 | man ↦ 39 | bom ↦ 43 | doc ↦ 43 | val ↦ 10 ]

abbrev pub kat_score : Role → ℕ
kat_score r = elim r [
  | mir ↦ minus 41
  | kat ↦ minus 70
  | maf ↦ 58
  | man ↦ 61
  | bom ↦ minus 45
  | doc ↦ minus 45
  | val ↦ 9
]

abbrev pub val_score : Role → ℕ
val_score r = elim r [ mir ↦ 25 | val ↦ 50 | maf ↦ 30 | man ↦ 35 | bom ↦ 20 | kat ↦ 35 | doc ↦ 35 ]

abbrev pub kill : User → User
kill z = record z { killed = true; devoiced = true }

-- The doctor who saved `z` gets 20.
unfoldable pub save : User → Users → Users
save z m = update z.parent (add_score 20) m

-- Every active mafioso gets the score.
unfoldable pub share_score : ℕ → User → User
share_score s q = if q.marked_for_delete then q else if is_role q.role maf then add_score s q else q

unfoldable pub maf_kill : ℕ → User → Users → Users
unfolding share_score map_users
maf_kill i z m =
    let s = maf_score z.role in
    if leb (2 ^ 31) s then update i (add_score s) m else map_users (share_score s) m

-- The bodies of the six loops, for the user `u` of id i whose order is the user `z` of id j.
unfoldable pub maf_day : ℕ → ℕ → User → User → Users → Users
unfolding save maf_kill
maf_day i j u z m =
    if not (is_role u.role maf && u.main_maf) || u.valed
    then m
    else if z.doced
    then save z m
    else update j kill (maf_kill i z m)

unfoldable pub man_day : ℕ → ℕ → User → User → Users → Users
unfolding save
man_day i j u z m =
    if not (is_role u.role man) || u.valed
    then m
    else if z.doced
    then save z m
    else update i (add_score (man_score z.role)) (update j kill m)

unfoldable pub doc_day : ℕ → ℕ → User → User → Users → Users
doc_day i j u z m =
    if not (is_role u.role doc)
    then m
    else (let m1 =
          update i (λ w. record w { doc_self = if u.order == u.id then u.doc_self + 1 else 0 }) m in
        if u.valed then m1 else update i (add_score 5) m1)

unfoldable pub kat_day : ℕ → ℕ → User → User → Users → Users
unfolding save
kat_day i j u z m =
    if not (is_role u.role kat) || u.valed
    then m
    else if u.order_type
    then (if z.doced then save z m else update i (add_score (kat_score z.role)) (update j kill m))
    else update i (add_score 10) m

unfoldable pub bom_day : ℕ → ℕ → User → User → Users → Users
bom_day i j u z m = if not (is_role u.role bom) || u.valed then m else update i (add_score 10) m

unfoldable pub val_day : ℕ → ℕ → User → User → Users → Users
val_day i j u z m =
    if not (is_role u.role val) || u.valed then m else update i (add_score (val_score z.role)) m

-- What all six loops do before their bodies: the marked, those with no order, and orders against
-- nobody are passed over.
abbrev pub Body : Type 0
Body = ℕ → ℕ → User → User → Users → Users

unfoldable pub order_target : Body → ℕ → User → Option User → Users → Users
order_target body i u none m = m
order_target body i u (some z) m = body i u.order u z m

unfoldable pub order_of : Body → ℕ → Option User → Users → Users
unfolding order_target
order_of body i none m = m
order_of body i (some u) m =
    if u.marked_for_delete || not u.order_done then m else order_target body i u (find u.order m) m

unfoldable pub order_loop : Body → List ℕ → Users → Users
unfolding order_of
order_loop body [] m = m
order_loop body (i ∷ is) m = order_loop body is (order_of body i (find i m) m)

-- The loop "erasing users": the killed and those who gave no order are out.
unfoldable pub strike_out : User → User
strike_out u =
    if u.marked_for_delete
    then u
    else (let v = if u.killed then record u { marked_for_delete = true } else u in
        if not (is_role u.role mir)
          && not u.order_done
          && not (is_role u.role maf && not u.main_maf)
        then record v { marked_for_delete = true; devoiced = true }
        else v)

-- The users after the night's orders.
unfoldable pub carry_out : Users → Users
unfolding order_loop ids maf_day man_day doc_day kat_day bom_day val_day
carry_out m =
    let is = ids m in
    order_loop val_day is (
      order_loop bom_day is (
        order_loop kat_day is
          (order_loop doc_day is (order_loop man_day is (order_loop maf_day is m)))))

unfoldable pub day_users : Users → Users
unfolding carry_out strike_out map_users remove_left_users
day_users m = remove_left_users (map_users strike_out (carry_out m))

unfoldable pub unless_ended : (Game → Game) → Finish → Game
unless_ended next f = if f.ended then f.game else next f.game

abbrev pub renew_main_maf : Game → Game
renew_main_maf g = record g { gamers_by_id = check_for_main_maf g.gamers_by_id }

unfoldable pub do_day : ℕ → Game → Game
unfolding day_users unless_ended
do_day now g =
    unless_ended (λ h. do_vote1 now (renew_main_maf h))
      (process_for_end_game (record g {
        night = false;
        morning = false;
        day = true;
        gamers_by_id = day_users g.gamers_by_id;
        day_time = now;
      }))
