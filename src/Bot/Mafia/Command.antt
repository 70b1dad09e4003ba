-- ===== src/Bot/Mafia/Command.antt =====
-- bot/bot-mafia-new/command.cpp: what the bot does on a message of the channel.
pub mod Handlers
pub mod Return
use tusa.Common.{ℕ, ◌+◌, ◌-◌, ◌*◌, ◌%◌, ◌^◌, List, [], ◌∷◌, Bool, true, false, not, ◌&&◌, ◌||◌}
use tusa.Common.{leb, ◌==◌, if◌then◌else◌}
use tusa.Common.Maps.{find, has_key, update}
use mathlib.Core.Option.{Option, none, some}
use tusa.Bot.Nicks.{str_nick}
use tusa.Bot.Texts.{atoi}
use tusa.Bot.Mafia.State.{mir, is_role, User, Game}
use tusa.Bot.Mafia.Users.{find_nick, erase_nick, set_nick}
use tusa.Bot.Mafia.Finish.{clear_users}
use tusa.Bot.Mafia.Night.{process_night}
use tusa.Bot.Mafia.Votes.{night_id, process_day, same_target}
use tusa.Bot.Mafia.Vote2.{do_vote}

-- A game goes on, or is prepared.
abbrev pub is_running : Game → Bool
is_running g = g.game_started || g.registration || g.roles_assign

unfoldable pub find_player : List ℕ → Game → Option ℕ
unfolding find_nick
find_player nick g = find_nick (str_nick nick) g.gamers_by_nick

abbrev pub go : User → User
go u = if u.marked_for_delete then u else record u { left = true }

unfoldable pub change_player : (User → User) → Option ℕ → Game → Game
change_player f none g = g
change_player f (some i) g = record g { gamers_by_id = update i f g.gamers_by_id }

-- The branch of QUIT and KICK.
unfoldable pub process_quit : List ℕ → Game → Game
unfolding find_player change_player
process_quit nick g = if is_running g then change_player go (find_player nick g) g else g

abbrev pub come_back : User → User
come_back u = if u.marked_for_delete || u.chnick then u else record u { left = false }

-- The branch of JOIN.
unfoldable pub process_join : List ℕ → Game → Game
unfolding find_player change_player
process_join nick g =
    let h = record g { voiced = true } in
    if is_running h then change_player come_back (find_player nick h) h else h

-- The branch of NICK: a player of a game is out, one who has only registered keeps the place.
unfoldable pub rename : List ℕ → ℕ → User → Game → Game
unfolding set_nick erase_nick
rename nick i u g =
    if u.marked_for_delete
    then g
    else if g.game_started || g.roles_assign
    then record g {
      gamers_by_id = update i (λ w. record w { left = true; chnick = true }) g.gamers_by_id;
    }
    else record g {
      gamers_by_id = update i (λ w. record w { nick = nick }) g.gamers_by_id;
      gamers_by_nick = set_nick (str_nick nick) i (erase_nick (str_nick u.nick) g.gamers_by_nick);
    }

abbrev pub rename_user : List ℕ → ℕ → Option User → Game → Game
rename_user nick i none g = g
rename_user nick i (some u) g = rename nick i u g

unfoldable pub rename_player : List ℕ → Option ℕ → Game → Game
unfolding rename
rename_player nick none g = g
rename_player nick (some i) g = rename_user nick i (find i g.gamers_by_id) g

unfoldable pub process_nick : List ℕ → List ℕ → Game → Game
unfolding rename_player find_player
process_nick from nick g = if is_running g then rename_player nick (find_player from g) g else g

-- What follows "!" or "!!" in a message, and whether there were two.
unfoldable pub target_text : List ℕ → Option (Bool × List ℕ)
target_text [] = none
target_text (c ∷ []) = none
target_text (c ∷ d ∷ []) = if c == 33 then some (false, d ∷ []) else none
target_text (c ∷ d ∷ e ∷ s) =
    if not (c == 33) then none else if d == 33 then some (true, e ∷ s) else some (false, d ∷ e ∷ s)

abbrev pub id_or : Option ℕ → ℕ
id_or none = 0
id_or (some i) = i

-- The id of the target: a number, or a nick.
unfoldable pub target_id : List ℕ → Game → ℕ
unfolding atoi find_player
target_id d g = let id = atoi d in if id == 0 then id_or (find_player d g) else id

abbrev pub is_mir : Option User → Bool
is_mir none = false
is_mir (some u) = is_role u.role mir

unfoldable pub act_on : ℕ → ℕ → ℕ → Bool → Game → Game
unfolding process_day process_night
act_on now uid id dbl g =
    if g.night && is_mir (find uid g.gamers_by_id) || not (has_key id g.gamers_by_id)
    then g
    else (let h = if g.day then process_day now uid id g else g in
        if h.night then process_night now uid id dbl h else h)

unfoldable pub act : ℕ → Option ℕ → List ℕ → Bool → Game → Game
unfolding act_on target_id
act now none d dbl g = g
act now (some uid) d dbl g = act_on now uid (target_id d g) dbl g

unfoldable pub give_text : ℕ → List ℕ → Option (Bool × List ℕ) → Game → Game
unfolding act find_player
give_text now from none g = g
give_text now from (some (dbl, d)) g = act now (find_player from g) d dbl g

unfoldable pub process_day_or_night : ℕ → List ℕ → List ℕ → Game → Game
unfolding give_text target_text
process_day_or_night now from msg g =
    if g.night || g.day then give_text now from (target_text msg) g else g

-- The words of the branch `if(day)` of process_channel_command, in the order of its tests.
pub data DayWord : Type 0 where
  for_night says_yes says_no says_all : DayWord

abbrev pub vote_of : ℕ → Bool → Option ℕ → Game → Game
vote_of now says none g = g
vote_of now says (some u) g = do_vote now says u g

unfoldable pub day_word : ℕ → DayWord → Option ℕ → Game → Game
unfolding process_day do_vote
day_word now w none g = g
day_word now w (some uid) g = elim w [
  | for_night ↦ process_day now uid night_id g
  | says_yes ↦ if g.vote2 && not g.vote_say then do_vote now true uid g else g
  | says_no ↦ if g.vote2 && not g.vote_say then do_vote now false uid g else g
  | says_all ↦
      if not (g.vote2 && not g.vote_say) && g.vote_say && same_target (some uid) g.vote2_person
      then record g { vote_say_time = 0 }
      else g
]

unfoldable pub process_day_word : ℕ → DayWord → List ℕ → Game → Game
unfolding day_word find_player
process_day_word now w from g = if g.day then day_word now w (find_player from g) g else g

-- !halt of an administrator.
unfoldable pub halt : Game → Game
unfolding clear_users
halt g =
    if is_running g
    then record (clear_users g) {
      registration = false;
      roles_assign = false;
      night = false;
      day = false;
      morning = false;
      game_started = false;
    }
    else g
