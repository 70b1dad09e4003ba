-- ===== src/Bot/Mafia/Command/Handlers.antt =====
-- The handlers of messages in bot/bot-mafia-new/command.cpp keep the phases of the game apart.
use tusa.Common.{ℕ, ◌-◌, ◌≤◌, ◌≡◌, List, Bool, true, false, ◌&&◌, ◌||◌, not}
use tusa.Common.{◌==◌, if◌then◌else◌, arith, if-both, if-cases}
use tusa.Common.Maps.{find, has_key, update, at_key}
use mathlib.Core.Option.{Option, none, some}
use tusa.Bot.Mafia.State.{doc, is_role, User, Users, Game, get_active_users_count}
use tusa.Bot.Mafia.Finish.{clear_users}
use tusa.Bot.Mafia.Night.{
  process_night, process_night_users, give_order, night_order, check_morning, check_all_orders,
}
use tusa.Bot.Mafia.Votes.{
  cast_vote, add_vote, erase_voter, check_for_vote1_end, same_target, count_votes2,
  check_for_vote2_end, process_day, end_vote1, night_id, is_marked,
}
use tusa.Bot.Mafia.Vote2.{do_vote, end_vote2}
use tusa.Bot.Mafia.Game.{start_game}
use tusa.Bot.Mafia.Game.Phases.{
  flags, IsOnePhase, IsPlayed, IsOnePhase-IsPlayed, end_vote1-IsPlayed, end_vote2-IsPlayed,
}
use tusa.Bot.Mafia.Command.{
  find_player, act_on, act, give_text, process_day_or_night, target_id, target_text, DayWord,
  for_night, says_yes, says_no, says_all, day_word, process_day_word, halt, is_running,
}

cast_vote-IsPlayed :
    (now u : ℕ) (z : Option ℕ) (g : Game) → IsPlayed g → IsPlayed (cast_vote now u z g)
unfolding cast_vote
cast_vote-IsPlayed now u z g h =
    let k = record g {
      vote_info1 = add_vote z u (erase_voter u g.vote_info1);
      gamers_by_id = update u (λ w. record w { voted = true }) g.gamers_by_id;
    } in
    if-both (λ (r : Game). IsPlayed r)
      (check_for_vote1_end k.vote_info1 (get_active_users_count k.gamers_by_id)) (end_vote1 now k) k
      (end_vote1-IsPlayed now k h) h

process_day-IsPlayed :
    (now from to : ℕ) (g : Game) → IsPlayed g → IsPlayed (process_day now from to g)
unfolding process_day
process_day-IsPlayed now from to g h =
    let m = g.gamers_by_id in
    let against = if is_marked (find to m) then g else cast_vote now from (some to) g in
    let vote = if to == night_id then cast_vote now from none g else against in
    if-both (λ (r : Game). IsPlayed r) (not g.vote1 || not (has_key from m) || not (has_key to m)) g
      (if is_marked (find from m) then g else vote) h
      (if-both (λ (r : Game). IsPlayed r) (is_marked (find from m)) g vote h
        (if-both (λ (r : Game). IsPlayed r) (to == night_id) (cast_vote now from none g) against
          (cast_vote-IsPlayed now from none g h)
          (if-both (λ (r : Game). IsPlayed r) (is_marked (find to m)) g
            (cast_vote now from (some to) g) h (cast_vote-IsPlayed now from (some to) g h))))

do_vote-IsPlayed :
    (now : ℕ) (b : Bool) (u : ℕ) (g : Game) → IsPlayed g → IsPlayed (do_vote now b u g)
unfolding do_vote
do_vote-IsPlayed now b u g h =
    let k = record g { vote_info2 = at_key u b (λ w. b) g.vote_info2 } in
    let ends =
      check_for_vote2_end (get_active_users_count k.gamers_by_id - 1)
        (count_votes2 true k.vote_info2) (count_votes2 false k.vote_info2) in
    if-both (λ (r : Game). IsPlayed r) (same_target (some u) g.vote2_person) g _ h
      (if-both (λ (r : Game). IsPlayed r) ends (end_vote2 now k) k (end_vote2-IsPlayed now k h) h)

morning_flags : (r a n m d : Bool) → flags r a n m d ≤ 1 → n ≡ true → flags r a false true d ≤ 1
morning_flags r a n m d h e = ground arith

give_order-IsOnePhase :
    (now : ℕ) (o : Option Users) (g : Game)
    → g.night ≡ true
    → IsOnePhase g
    → IsOnePhase (give_order now o g)
unfolding give_order check_morning
give_order-IsOnePhase now none g e h = h
give_order-IsOnePhase now (some m) g e h =
    if-both (λ (r : Game). IsOnePhase r) (check_all_orders m) _ (record g { gamers_by_id = m })
      (morning_flags g.registration g.roles_assign g.night g.morning g.day h e) h

process_night_users-IsOnePhase :
    (now from to : ℕ) (dbl : Bool) (o p : Option User) (g : Game)
    → g.night ≡ true
    → IsOnePhase g
    → IsOnePhase (process_night_users now from to dbl o p g)
unfolding process_night_users
process_night_users-IsOnePhase now from to dbl none p g e h = h
process_night_users-IsOnePhase now from to dbl (some u) none g e h = h
process_night_users-IsOnePhase now from to dbl (some u) (some z) g e h =
    if-both (λ (r : Game). IsOnePhase r) (u.marked_for_delete || z.marked_for_delete) g _ h
      (if-both (λ (r : Game). IsOnePhase r) (not (is_role u.role doc) && from == to) g
        (give_order now (night_order from to dbl u g.gamers_by_id) g) h
        (give_order-IsOnePhase now (night_order from to dbl u g.gamers_by_id) g e h))

process_night-IsOnePhase :
    (now from to : ℕ) (dbl : Bool) (g : Game)
    → g.night ≡ true
    → IsOnePhase g
    → IsOnePhase (process_night now from to dbl g)
unfolding process_night
process_night-IsOnePhase now from to dbl g e h =
    process_night_users-IsOnePhase now from to dbl (find from g.gamers_by_id)
      (find to g.gamers_by_id) g e h

IsPlayed-IsOnePhase : (g : Game) → IsPlayed g → IsOnePhase g
IsPlayed-IsOnePhase g (r, a, m, h) = h

act_on-IsOnePhase :
    (now uid id : ℕ) (dbl : Bool) (g : Game) → IsOnePhase g → IsOnePhase (act_on now uid id dbl g)
unfolding act_on
act_on-IsOnePhase now uid id dbl g h =
    let k = if g.day then process_day now uid id g else g in
    let one : IsOnePhase k =
      if-cases (λ (r : Game). IsOnePhase r) g.day (process_day now uid id g) g
        (λ e.
          IsPlayed-IsOnePhase (process_day now uid id g)
            (process_day-IsPlayed now uid id g (IsOnePhase-IsPlayed g h e)))
        (λ e. h) in
    if-both (λ (r : Game). IsOnePhase r) _ g _ h
      (if-cases (λ (r : Game). IsOnePhase r) k.night (process_night now uid id dbl k) k
        (λ e. process_night-IsOnePhase now uid id dbl k e one) (λ e. one))

act-IsOnePhase :
    (now : ℕ) (o : Option ℕ) (d : List ℕ) (dbl : Bool) (g : Game)
    → IsOnePhase g
    → IsOnePhase (act now o d dbl g)
unfolding act
act-IsOnePhase now none d dbl g h = h
act-IsOnePhase now (some uid) d dbl g h = act_on-IsOnePhase now uid (target_id d g) dbl g h

give_text-IsOnePhase :
    (now : ℕ) (from : List ℕ) (t : Option (Bool × List ℕ)) (g : Game)
    → IsOnePhase g
    → IsOnePhase (give_text now from t g)
unfolding give_text
give_text-IsOnePhase now from none g h = h
give_text-IsOnePhase now from (some (dbl, d)) g h =
    act-IsOnePhase now (find_player from g) d dbl g h

pub process_day_or_night-IsOnePhase :
    (now : ℕ) (from msg : List ℕ) (g : Game)
    → IsOnePhase g
    → IsOnePhase (process_day_or_night now from msg g)
unfolding process_day_or_night
process_day_or_night-IsOnePhase now from msg g h =
    if-both (λ (r : Game). IsOnePhase r) (g.night || g.day) (give_text now from (target_text msg) g)
      g (give_text-IsOnePhase now from (target_text msg) g h) h

day_word-IsPlayed :
    (now : ℕ) (w : DayWord) (o : Option ℕ) (g : Game) → IsPlayed g → IsPlayed (day_word now w o g)
unfolding day_word
day_word-IsPlayed now w none g h = h
day_word-IsPlayed now for_night (some u) g h = process_day-IsPlayed now u night_id g h
day_word-IsPlayed now says_yes (some u) g h =
    if-both (λ (r : Game). IsPlayed r) (g.vote2 && not g.vote_say) (do_vote now true u g) g
      (do_vote-IsPlayed now true u g h) h
day_word-IsPlayed now says_no (some u) g h =
    if-both (λ (r : Game). IsPlayed r) (g.vote2 && not g.vote_say) (do_vote now false u g) g
      (do_vote-IsPlayed now false u g h) h
day_word-IsPlayed now says_all (some u) g h =
    if-both (λ (r : Game). IsPlayed r) _ (record g { vote_say_time = 0 }) g h h

pub process_day_word-IsOnePhase :
    (now : ℕ) (w : DayWord) (from : List ℕ) (g : Game)
    → IsOnePhase g
    → IsOnePhase (process_day_word now w from g)
unfolding process_day_word
process_day_word-IsOnePhase now w from g h =
    if-cases (λ (r : Game). IsOnePhase r) g.day (day_word now w (find_player from g) g) g
      (λ e.
        IsPlayed-IsOnePhase (day_word now w (find_player from g) g)
          (day_word-IsPlayed now w (find_player from g) g (IsOnePhase-IsPlayed g h e)))
      (λ e. h)

one_flag : 1 ≤ 1
one_flag = omega arith

no_flag : 0 ≤ 1
no_flag = omega arith

pub start_game-IsOnePhase : (now : ℕ) (g : Game) → IsOnePhase g → IsOnePhase (start_game now g)
unfolding start_game clear_users
start_game-IsOnePhase now g h =
    if-both (λ (r : Game). IsOnePhase r) (g.registration || g.game_started || g.roles_assign) g _ h
      one_flag

pub halt-IsOnePhase : (g : Game) → IsOnePhase g → IsOnePhase (halt g)
unfolding halt clear_users
halt-IsOnePhase g h = if-both (λ (r : Game). IsOnePhase r) (is_running g) _ g no_flag h
