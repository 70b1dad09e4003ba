-- ===== src/Bot/Mafia/Runs.antt =====
-- The runs of the bot: mafia.cpp calls one handler after another on one thread, process_game while there is
-- nothing to read and the handlers of command.cpp for what is read.
use tusa.Common.{ℕ, List, true, ◌||◌, not, if-both}
use mathlib.Core.Option.{Option, none, some}
use tusa.Common.Maps.{find}
use tusa.Bot.Nicks.{str_nick}
use tusa.Bot.Mafia.State.{User, Game}
use tusa.Bot.Mafia.Users.{register_user, is_registered, unregister_id, unregister_user, find_nick}
use tusa.Bot.Mafia.Roles.{accept_role, decline_role}
use tusa.Bot.Mafia.Game.{start_game, process_game}
use tusa.Bot.Mafia.Game.Phases.{IsOnePhase}
use tusa.Bot.Mafia.Game.Steps.{process_game-IsOnePhase}
use tusa.Bot.Mafia.Command.{
  change_player, process_quit, process_join, process_nick, process_day_or_night, DayWord,
  process_day_word, halt, go, come_back, find_player, is_running, rename, rename_user,
  rename_player,
}
use tusa.Bot.Mafia.Command.Handlers.{
  process_day_or_night-IsOnePhase, process_day_word-IsOnePhase, start_game-IsOnePhase,
  halt-IsOnePhase,
}

-- One call of a handler, with the time, the random numbers and the message that it has.
pub data Step : Game → Game → Type 0 where
  ticks :
      (now : ℕ) (rand : ℕ → ℕ → ℕ) (key : ℕ → ℕ) (g : Game) → Step g (process_game now rand key g)
  says : (now : ℕ) (from msg : List ℕ) (g : Game) → Step g (process_day_or_night now from msg g)
  votes :
      (now : ℕ) (w : DayWord) (from : List ℕ) (g : Game) → Step g (process_day_word now w from g)
  starts : (now : ℕ) (g : Game) → Step g (start_game now g)
  halts : (g : Game) → Step g (halt g)
  quits : (nick : List ℕ) (g : Game) → Step g (process_quit nick g)
  joins : (nick : List ℕ) (g : Game) → Step g (process_join nick g)
  renames : (from nick : List ℕ) (g : Game) → Step g (process_nick from nick g)
  registers :
      (raw : User) (nick login : List ℕ) (gender : ℕ) (ip : List ℕ) (g : Game)
      → Step g (register_user raw nick login gender ip g)
  unregisters : (nick : List ℕ) (g : Game) → Step g (unregister_user nick g)
  accepts : (who : Option ℕ) (g : Game) → Step g (accept_role who g)
  declines :
      (rand : ℕ → ℕ) (who : Option ℕ) (g : Game)
      → Step g (record g { gamers_by_id = decline_role rand who g.gamers_by_id })

pub data Reaches : Game → Game → Type 0 where
  stays : (g : Game) → Reaches g g
  goes : (g h k : Game) → Reaches g h → Step h k → Reaches g k

change_player-IsOnePhase :
    (f : User → User) (o : Option ℕ) (g : Game) → IsOnePhase g → IsOnePhase (change_player f o g)
unfolding change_player
change_player-IsOnePhase f none g h = h
change_player-IsOnePhase f (some i) g h = h

process_quit-IsOnePhase :
    (nick : List ℕ) (g : Game) → IsOnePhase g → IsOnePhase (process_quit nick g)
unfolding process_quit
process_quit-IsOnePhase nick g h =
    if-both (λ (r : Game). IsOnePhase r) (is_running g) (change_player go (find_player nick g) g) g
      (change_player-IsOnePhase go (find_player nick g) g h) h

process_join-IsOnePhase :
    (nick : List ℕ) (g : Game) → IsOnePhase g → IsOnePhase (process_join nick g)
unfolding process_join
process_join-IsOnePhase nick g h =
    let k = record g { voiced = true } in
    if-both (λ (r : Game). IsOnePhase r) (is_running k)
      (change_player come_back (find_player nick k) k) k
      (change_player-IsOnePhase come_back (find_player nick k) k h) h

rename-IsOnePhase :
    (nick : List ℕ) (i : ℕ) (u : User) (g : Game) → IsOnePhase g → IsOnePhase (rename nick i u g)
unfolding rename
rename-IsOnePhase nick i u g h =
    if-both (λ (r : Game). IsOnePhase r) u.marked_for_delete g _ h
      (if-both (λ (r : Game). IsOnePhase r) (g.game_started || g.roles_assign) _ _ h h)

rename_user-IsOnePhase :
    (nick : List ℕ) (i : ℕ) (o : Option User) (g : Game)
    → IsOnePhase g
    → IsOnePhase (rename_user nick i o g)
rename_user-IsOnePhase nick i none g h = h
rename_user-IsOnePhase nick i (some u) g h = rename-IsOnePhase nick i u g h

rename_player-IsOnePhase :
    (nick : List ℕ) (o : Option ℕ) (g : Game) → IsOnePhase g → IsOnePhase (rename_player nick o g)
unfolding rename_player
rename_player-IsOnePhase nick none g h = h
rename_player-IsOnePhase nick (some i) g h =
    rename_user-IsOnePhase nick i (find i g.gamers_by_id) g h

process_nick-IsOnePhase :
    (from nick : List ℕ) (g : Game) → IsOnePhase g → IsOnePhase (process_nick from nick g)
unfolding process_nick
process_nick-IsOnePhase from nick g h =
    if-both (λ (r : Game). IsOnePhase r) (is_running g) (rename_player nick (find_player from g) g)
      g (rename_player-IsOnePhase nick (find_player from g) g h) h

register_user-IsOnePhase :
    (raw : User) (nick login : List ℕ) (gender : ℕ) (ip : List ℕ) (g : Game)
    → IsOnePhase g
    → IsOnePhase (register_user raw nick login gender ip g)
unfolding register_user
register_user-IsOnePhase raw nick login gender ip g h =
    if-both (λ (r : Game). IsOnePhase r)
      (not g.registration || is_registered login ip g.gamers_by_id) g _ h h

unregister_id-IsOnePhase :
    (k : List ℕ) (o : Option ℕ) (g : Game) → IsOnePhase g → IsOnePhase (unregister_id k o g)
unfolding unregister_id
unregister_id-IsOnePhase k none g h = h
unregister_id-IsOnePhase k (some i) g h = h

unregister_user-IsOnePhase :
    (nick : List ℕ) (g : Game) → IsOnePhase g → IsOnePhase (unregister_user nick g)
unfolding unregister_user
unregister_user-IsOnePhase nick g h =
    unregister_id-IsOnePhase (str_nick nick) (find_nick (str_nick nick) g.gamers_by_nick) g h

accept_role-IsOnePhase : (who : Option ℕ) (g : Game) → IsOnePhase g → IsOnePhase (accept_role who g)
unfolding accept_role
accept_role-IsOnePhase who g h = h

Step-IsOnePhase : {g k : Game} → Step g k → IsOnePhase g → IsOnePhase k
Step-IsOnePhase (ticks now rand key g) h = process_game-IsOnePhase now rand key g h
Step-IsOnePhase (says now from msg g) h = process_day_or_night-IsOnePhase now from msg g h
Step-IsOnePhase (votes now w from g) h = process_day_word-IsOnePhase now w from g h
Step-IsOnePhase (starts now g) h = start_game-IsOnePhase now g h
Step-IsOnePhase (halts g) h = halt-IsOnePhase g h
Step-IsOnePhase (quits nick g) h = process_quit-IsOnePhase nick g h
Step-IsOnePhase (joins nick g) h = process_join-IsOnePhase nick g h
Step-IsOnePhase (renames from nick g) h = process_nick-IsOnePhase from nick g h
Step-IsOnePhase (registers raw nick login gender ip g) h =
    register_user-IsOnePhase raw nick login gender ip g h
Step-IsOnePhase (unregisters nick g) h = unregister_user-IsOnePhase nick g h
Step-IsOnePhase (accepts who g) h = accept_role-IsOnePhase who g h
Step-IsOnePhase (declines rand who g) h = h

-- In every game that the handlers reach from one in which at most one of the flags registration,
-- roles_assign, night, morning and day is set, at most one of them is set, whatever the messages, the times
-- and the random numbers are.
pub Reaches-IsOnePhase : {g k : Game} → Reaches g k → IsOnePhase g → IsOnePhase k
Reaches-IsOnePhase (stays g) h = h
Reaches-IsOnePhase (goes g m k r s) h = Step-IsOnePhase s (Reaches-IsOnePhase r h)
