-- ===== src/Bot/Mafia/Game.antt =====
-- start_game and process_game of bot/bot-mafia-new/game.cpp. `now` is the time of the run; process_game
-- is one run of its body, which mafia.cpp repeats while no message is there to read.
pub mod Phases
pub mod Steps
use tusa.Common.{ℕ, ◌+◌, ◌-◌, ◌*◌, ◌/◌, List, [], ◌∷◌, Bool, true, false, not, ◌&&◌, ◌||◌}
use tusa.Common.{ltb, leb, ◌==◌, if◌then◌else◌, length}
use mathlib.Core.Option.{Option, none, some}
use tusa.Bot.Nicks.{str_nick}
use tusa.Bot.Mafia.State.{mir, is_role, User, Users, Game, map_users}
use tusa.Bot.Mafia.Finish.{clear_users}
use tusa.Bot.Mafia.Users.{Nicks, find_nick}
use tusa.Bot.Mafia.MainMaf.{make_main_maf}
use tusa.Bot.Mafia.Roles.{assign_roles, check_roles, decline_role, role_accept_time}
use tusa.Bot.Mafia.Night.{do_night}
use tusa.Bot.Mafia.Day.{do_day}
use tusa.Bot.Mafia.Votes.{end_vote1, do_vote2}
use tusa.Bot.Mafia.Vote2.{end_vote2}

unfoldable pub start_game : ℕ → Game → Game
unfolding clear_users
start_game now g =
    if g.registration || g.game_started || g.roles_assign then g else record (clear_users g) {
      voiced = true;
      reg_start_time = now;
      registration = true;
      inv1sent = false;
      roles_assign = false;
      roles_assign_half = false;
      night = false;
      day = false;
      morning = false;
      register_counter = 0;
      game_started = false;
      vote1 = false;
      vote2 = false;
      vote1_half = false;
      vote2_half = false;
      vote_say = false;
    }

-- ct - time > timeout
abbrev pub is_over : ℕ → ℕ → ℕ → Bool
is_over now time timeout = ltb (time + timeout) now

-- The end of the registration.
unfoldable pub end_registration : ℕ → (ℕ → ℕ → ℕ) → Game → Game
unfolding clear_users assign_roles
end_registration now rand g =
    if ltb (length g.gamers_by_nick) 3
    then record (clear_users g) { registration = false; game_started = false }
    else record (assign_roles rand g) {
      registration = false;
      roles_assign = true;
      roles_assign_time = now;
    }

unfoldable pub process_registration : ℕ → (ℕ → ℕ → ℕ) → Game → Game
unfolding end_registration
process_registration now rand g =
    let h = if is_over now g.reg_start_time 60 then record g { inv1sent = true } else g in
    if is_over now h.reg_start_time 120 then end_registration now rand h else h

-- The nicks of those who have not accepted their roles.
unfoldable pub not_accepted : Users → List (List ℕ)
not_accepted [] = []
not_accepted ((i, u) ∷ m) =
    let rest = not_accepted m in
    if not (is_role u.role mir) && not u.accepted then u.nick ∷ rest else rest

-- `rand` gives each call of decline_role its random numbers.
unfoldable pub decline_roles : (ℕ → ℕ → ℕ) → Nicks → List (List ℕ) → Users → Users
unfolding decline_role find_nick
decline_roles rand nicks [] m = m
decline_roles rand nicks (n ∷ ns) m =
    decline_roles rand nicks ns (decline_role (rand (length ns)) (find_nick (str_nick n) nicks) m)

unfoldable pub half_roles : ℕ → (ℕ → ℕ → ℕ) → Game → Game
unfolding decline_roles not_accepted
half_roles now rand g =
    if g.roles_assign
      && not g.roles_assign_half
      && is_over now g.roles_assign_time (role_accept_time / 2)
    then record g {
      roles_assign_half = true;
      gamers_by_id =
          decline_roles rand g.gamers_by_nick (not_accepted g.gamers_by_id) g.gamers_by_id;
    }
    else g

unfoldable pub set_need_update : User → User
set_need_update u = if u.marked_for_delete then u else record u { need_update = true }

-- The game starts; `key` are the random numbers of make_main_maf.
unfoldable pub begin_game : ℕ → (ℕ → ℕ) → Game → Game
unfolding check_roles make_main_maf map_users set_need_update do_night
begin_game now key g =
    if g.roles_assign && is_over now g.roles_assign_time role_accept_time
    then (let m = make_main_maf key true (check_roles g.gamers_by_nick g.gamers_by_id) in
        do_night now (record g {
          roles_assign = false;
          game_started = true;
          gamers_by_id = map_users set_need_update m;
        }))
    else g

unfoldable pub end_night : ℕ → Game → Game
unfolding do_day
end_night now g =
    if g.night && is_over now g.night_time 180 then do_day now (record g { night = false }) else g

unfoldable pub end_morning : ℕ → Game → Game
unfolding do_day
end_morning now g =
    if g.morning && is_over now g.morning_time 15
    then do_day now (record g { morning = false })
    else g

-- The five tests of the branch `if(day)`.
unfoldable pub half_vote1 : ℕ → Game → Game
half_vote1 now g =
    if g.vote1 && not g.vote1_half && is_over now g.vote1_time 60
    then record g { vote1_half = true }
    else g

unfoldable pub time_vote1 : ℕ → Game → Game
unfolding end_vote1
time_vote1 now g =
    if g.vote1 && is_over now g.vote1_time 120
    then record (end_vote1 now g) { vote1 = false }
    else g

unfoldable pub time_vote_say : ℕ → Game → Game
unfolding do_vote2
time_vote_say now g =
    if g.vote_say && is_over now g.vote_say_time 30
    then record (do_vote2 now g) { vote_say = false }
    else g

unfoldable pub half_vote2 : ℕ → Game → Game
half_vote2 now g =
    if g.vote2 && not g.vote2_half && is_over now g.vote2_time 60
    then record g { vote2_half = true }
    else g

unfoldable pub time_vote2 : ℕ → Game → Game
unfolding end_vote2
time_vote2 now g =
    if g.vote2 && is_over now g.vote2_time 120
    then record (end_vote2 now g) { vote2 = false }
    else g

unfoldable pub process_votes : ℕ → Game → Game
unfolding half_vote1 time_vote1 time_vote_say half_vote2 time_vote2
process_votes now g =
    if g.day
    then time_vote2 now (half_vote2 now (time_vote_say now (time_vote1 now (half_vote1 now g))))
    else g

unfoldable pub process_game : ℕ → (ℕ → ℕ → ℕ) → (ℕ → ℕ) → Game → Game
unfolding process_registration half_roles begin_game end_night end_morning process_votes
process_game now rand key g =
    if g.registration
    then process_registration now rand g
    else process_votes now
        (end_morning now (end_night now (begin_game now key (half_roles now rand g))))
