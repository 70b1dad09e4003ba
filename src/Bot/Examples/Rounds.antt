-- ===== src/Bot/Examples/Rounds.antt =====
-- The theorems on the night and the votes of bot/bot-mafia-new at small games.
use tusa.Common.{◌+◌, ◌≤◌, ◌≡◌, refl, arith, [], ◌∷◌, true, false}
use tusa.Common.{◌==◌, ◌||◌, ltb, leb, ◌/◌, if◌then◌else◌}
use tusa.Common.Maps.{has_key}
use mathlib.Core.Option.{some}
use tusa.Bot.Mafia.State.{Game}
use tusa.Bot.Mafia.Night.{process_night}
use tusa.Bot.Mafia.Night.Rules.{IsNoted, process_night-refused, process_night-given}
use tusa.Bot.Mafia.Votes.{
  same_target, Votes, total_votes, max_votes, check_for_vote1_end, cast_vote, night_id,
}
use tusa.Bot.Mafia.Votes.Ballot.{votes_for, cast_vote-votes_for, check_for_vote1_end_lem}
use tusa.Common.{◌<◌}
use tusa.Bot.Mafia.Votes.{count_votes2}
use tusa.Bot.Mafia.State.{get_active_users_count}
use tusa.Bot.Mafia.Vote2.Majority.{voters, ayes, noes}
use tusa.Bot.Examples.{mafioso, townsman, players, night_game, day_game, find_1, find_2}

-- A townsman gives no order, the mafioso does.
process_night-refused_example : process_night 1310 2 1 false night_game ≡ night_game
process_night-refused_example =
    process_night-refused 1310 2 1 false townsman mafioso night_game find_2 find_1 refl

process_night-given_example : IsNoted 1 2 night_game (process_night 1310 1 2 false night_game)
process_night-given_example =
    process_night-given 1310 1 2 false mafioso townsman night_game find_1 find_2 refl

cast_vote-votes_for_example :
    votes_for (some 1) 2 (cast_vote 1400 2 (some 3) day_game).vote_info1
    ≡ (if 2 == 2 then same_target (some 3) (some 1) else votes_for (some 1) 2 day_game.vote_info1)
cast_vote-votes_for_example = cast_vote-votes_for 1400 2 2 (some 3) (some 1) day_game

abbrev ballots : Votes
ballots = (some 1, 2 ∷ 3 ∷ []) ∷ []

few : total_votes ballots ≤ 3
unfolding total_votes
few = omega arith

check_for_vote1_end_lem_example :
    check_for_vote1_end ballots 3 ≡ (ltb (3 / 2) (max_votes ballots) || leb 3 (total_votes ballots))
check_for_vote1_end_lem_example = check_for_vote1_end_lem ballots 3 few

no_night_id : has_key night_id players ≡ false
unfolding has_key
no_night_id = refl

-- Both voters are for the death of the townsman, or only one of them.
abbrev condemned : Game
condemned = record night_game {
  night = false;
  day = true;
  vote2 = true;
  vote2_person = some 2;
  vote_info2 = (1, true) ∷ (3, true) ∷ [];
}

condemned_counts :
    (ayes condemned + noes condemned ≤ voters condemned) × (voters condemned / 2 < ayes condemned)
unfolding count_votes2 get_active_users_count
condemned_counts = (omega arith, omega arith)

abbrev acquitted : Game
acquitted = record condemned { vote_info2 = (1, true) ∷ (3, false) ∷ [] }

acquitted_counts : ayes acquitted ≤ voters acquitted / 2
unfolding count_votes2 get_active_users_count
acquitted_counts = omega arith
