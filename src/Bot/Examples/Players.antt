-- ===== src/Bot/Examples/Players.antt =====
-- The theorems on the players, the roles and the phases of bot/bot-mafia-new at small games.
use tusa.Common.{◌≡◌, refl, arith, [], ◌∷◌, true, false}
use tusa.Common.{◌||◌}
use tusa.Common.Maps.{find, has_key}
use mathlib.Core.Option.{none, some}
use tusa.Bot.Nicks.{str_nick}
use tusa.Bot.Mafia.State.{maf, man, User, Users, Game}
use tusa.Bot.Mafia.Finish.{Judgement, judge}
use tusa.Bot.Mafia.Finish.Verdict.{IsSettled, judge_lem}
use tusa.Bot.Mafia.Roles.{share_roles}
use tusa.Bot.Mafia.MainMaf.{has_main_maf, check_for_main_maf}
use tusa.Bot.Mafia.MainMaf.Present.{has_maf, check_for_main_maf_lem}
use tusa.Bot.Mafia.Roles.Shares.{given, share_roles-given}
use tusa.Bot.Mafia.Day.{carry_out}
use tusa.Bot.Mafia.Day.Patients.{carry_out-Spares}
use tusa.Bot.Mafia.Users.{find_nick, is_registered, register_user, unregister_user}
use tusa.Bot.Mafia.Users.Registry.{next_id, unregister_user-register_user}
use tusa.Bot.Mafia.Game.{process_game}
use tusa.Bot.Mafia.Game.Phases.{IsOnePhase}
use tusa.Bot.Mafia.Runs.{Reaches, stays, goes, ticks, votes, Reaches-IsOnePhase}
use tusa.Bot.Mafia.Command.{process_day_word, for_night}
use tusa.Bot.Mafia.Command.{find_player, process_quit, process_join}
use tusa.Bot.Mafia.Command.Return.{process_join-process_quit}
use tusa.Bot.Examples.{blank, mafioso, townsman, doctor, players, night_game, open_game, find_1}

-- Two townsmen, a mafioso and a doctor play on.
judge_lem_example : IsSettled 2 1 0 0 1 0 (judge 2 1 0 0 1 0)
judge_lem_example = judge_lem 2 1 0 0 1 0

abbrev maniac_wins : Judgement
maniac_wins = record { end = true; winner = some man; draw = false }

-- The first mafioso is out, and the second takes over.
abbrev after_first : Users
after_first =
    (1, record mafioso { marked_for_delete = true })
    ∷ (2, record townsman { role = maf; maf_n = 2 })
    ∷ []

second_maf : has_main_maf after_first || has_maf 100000 after_first ≡ true
unfolding has_main_maf has_maf
second_maf = refl

check_for_main_maf_lem_example : has_main_maf (check_for_main_maf after_first) ≡ true
check_for_main_maf_lem_example = check_for_main_maf_lem after_first second_maf

share_roles-given_example : (given (share_roles 12) ≡ 12) × ((share_roles 12).left ≡ 0)
share_roles-given_example = share_roles-given 12 (omega arith)

-- The mafioso goes against the doctor's patient.
abbrev patient : User
patient = record townsman { doced = true; parent = 3 }

abbrev visited : Users
visited =
    (1, record mafioso { order = 2; order_done = true })
    ∷ (2, patient)
    ∷ (3, record doctor { order = 2; order_done = true })
    ∷ []

find-patient : find 2 visited ≡ some patient
unfolding find
find-patient = refl

carry_out-Spares_example :
    (w : User) × (find 2 (carry_out visited) ≡ some w) × (w.doced ≡ true) × (w.killed ≡ false)
carry_out-Spares_example = carry_out-Spares 2 patient visited find-patient refl

new_login : is_registered (100 ∷ []) (52 ∷ []) players ≡ false
unfolding is_registered
new_login = refl

new_id : has_key (next_id open_game) players ≡ false
unfolding has_key
new_id = refl

new_nick : find_nick (str_nick (100 ∷ [])) open_game.gamers_by_nick ≡ none
unfolding find_nick str_nick
new_nick = refl

unregister_user-register_user_example :
    unregister_user (100 ∷ []) (register_user blank (100 ∷ []) (100 ∷ []) 1 (52 ∷ []) open_game)
    ≡ record open_game { register_counter = next_id open_game }
unregister_user-register_user_example =
    unregister_user-register_user blank (100 ∷ []) (100 ∷ []) 1 (52 ∷ []) open_game refl new_login
      new_id new_nick

-- The night ends, and a player votes for the next one.
abbrev next_game : Game
next_game = process_game 1500 (λ k j. j) (λ k. k) night_game

abbrev two_steps : Reaches night_game (process_day_word 1510 for_night (65 ∷ []) next_game)
two_steps =
    goes night_game next_game (process_day_word 1510 for_night (65 ∷ []) next_game)
      (goes night_game night_game next_game (stays night_game)
        (ticks 1500 (λ k j. j) (λ k. k) night_game))
      (votes 1510 for_night (65 ∷ []) next_game)

Reaches-IsOnePhase_example : IsOnePhase (process_day_word 1510 for_night (65 ∷ []) next_game)
Reaches-IsOnePhase_example = Reaches-IsOnePhase two_steps (omega arith)

find_player_1 : find_player (65 ∷ []) night_game ≡ some 1
unfolding find_player str_nick
find_player_1 = refl

process_join-process_quit_example :
    find 1 (process_join (65 ∷ []) (process_quit (65 ∷ []) night_game)).gamers_by_id
    ≡ find 1 night_game.gamers_by_id
process_join-process_quit_example =
    process_join-process_quit (65 ∷ []) 1 1 night_game mafioso refl find_player_1 find_1 refl refl
      refl
