-- ===== src/Bot/Mafia/Votes.antt =====
-- The votes of the day in bot/bot-mafia-new/day.cpp.
pub mod Ballot
use tusa.Common.{
  ℕ, zero, suc, ◌+◌, ◌-◌, ◌*◌, ◌/◌, ◌%◌, ◌^◌, List, [], ◌∷◌, Bool, true, false, not, ◌&&◌, ◌||◌,
}
use tusa.Common.{ltb, leb, ◌==◌, if◌then◌else◌, length}
use tusa.Common.Maps.{Map, find, has_key, update, at_key, set_insert, set_erase}
use mathlib.Core.Option.{Option, none, some}
use tusa.Bot.Mafia.State.{User, Users, Game, map_users, get_active_users_count}
use tusa.Bot.Mafia.Night.{do_night}

-- vote_info1 maps a target, or NULL for the night, to those who vote for it. Its order is that of
-- addresses, which nothing depends on; here a new target comes last.
abbrev pub Votes : Type 0
Votes = List (Option ℕ × List ℕ)

abbrev pub same_target : Option ℕ → Option ℕ → Bool
same_target none none = true
same_target none (some j) = false
same_target (some i) none = false
same_target (some i) (some j) = i == j

unfoldable pub erase_voter : ℕ → Votes → Votes
erase_voter u [] = []
erase_voter u ((t, s) ∷ v) = (t, set_erase u s) ∷ erase_voter u v

-- vote_info1[z][u] = true
unfoldable pub add_vote : Option ℕ → ℕ → Votes → Votes
add_vote z u [] = (z, u ∷ []) ∷ []
add_vote z u ((t, s) ∷ v) =
    let rest = add_vote z u v in if same_target t z then (t, set_insert u s) ∷ v else (t, s) ∷ rest

-- The sum of the numbers of votes, and the largest of them.
unfoldable pub total_votes : Votes → ℕ
total_votes [] = 0
total_votes ((t, s) ∷ v) = length s + total_votes v

unfoldable pub max_votes : Votes → ℕ
max_votes [] = 0
max_votes ((t, s) ∷ v) = let rest = max_votes v in if ltb rest (length s) then length s else rest

-- v[n]: the targets with n votes.
unfoldable pub with_votes : ℕ → Votes → List (Option ℕ)
with_votes n [] = []
with_votes n ((t, s) ∷ v) = let rest = with_votes n v in if length s == n then t ∷ rest else rest

unfoldable pub check_for_vote1_end : Votes → ℕ → Bool
unfolding total_votes max_votes with_votes
check_for_vote1_end v all =
    let most = max_votes v in
    (ltb (all / 2) most && length (with_votes most v) == 1) || leb all (total_votes v)

abbrev pub to_night : ℕ → Game → Game
to_night now g = do_night now (record g { day = false })

unfoldable pub decide_vote1 : ℕ → List (Option ℕ) → Game → Game
decide_vote1 now (some u ∷ []) g = record g {
  vote2_person = some u;
  vote_say = true;
  vote_say_time = now;
}
decide_vote1 now _ g = to_night now g

unfoldable pub end_vote1 : ℕ → Game → Game
unfolding max_votes with_votes decide_vote1
end_vote1 now g =
    let h = record g { vote1 = false } in
    let most = max_votes h.vote_info1 in
    if ltb 0 most then decide_vote1 now (with_votes most h.vote_info1) h else to_night now h

unfoldable pub do_vote1 : ℕ → Game → Game
unfolding map_users
do_vote1 now g = record g {
  vote_info1 = [];
  vote_info2 = [];
  vote2_person = none;
  vote1 = true;
  vote2 = false;
  vote1_half = false;
  vote2_half = false;
  vote_say = false;
  gamers_by_id = map_users (λ u. record u { voted = false }) g.gamers_by_id;
  vote1_time = now;
}

-- The id by which process_channel_command asks for a vote for the night.
abbrev pub night_id : ℕ
night_id = 1000000

abbrev pub is_marked : Option User → Bool
is_marked none = false
is_marked (some u) = u.marked_for_delete

unfoldable pub cast_vote : ℕ → ℕ → Option ℕ → Game → Game
unfolding erase_voter add_vote check_for_vote1_end end_vote1 get_active_users_count
cast_vote now u z g =
    let h = record g {
      vote_info1 = add_vote z u (erase_voter u g.vote_info1);
      gamers_by_id = update u (λ w. record w { voted = true }) g.gamers_by_id;
    } in
    if check_for_vote1_end h.vote_info1 (get_active_users_count h.gamers_by_id)
    then end_vote1 now h
    else h

unfoldable pub process_day : ℕ → ℕ → ℕ → Game → Game
unfolding cast_vote
process_day now fromuser touser g =
    if not g.vote1 || not (has_key fromuser g.gamers_by_id) || not (has_key touser g.gamers_by_id)
    then g
    else if is_marked (find fromuser g.gamers_by_id)
    then g
    else if touser == night_id
    then cast_vote now fromuser none g
    else if is_marked (find touser g.gamers_by_id)
    then g
    else cast_vote now fromuser (some touser) g

unfoldable pub do_vote2 : ℕ → Game → Game
do_vote2 now g = record g { vote2 = true; vote2_time = now }

-- The votes in vote_info2 that say `b`.
unfoldable pub count_votes2 : Bool → Map Bool → ℕ
count_votes2 b [] = 0
count_votes2 b ((u, w) ∷ v) =
    let rest = count_votes2 b v in if (b && w) || (not b && not w) then suc rest else rest

-- `cnt` is get_active_users_count() - 1; at 0 users the source's -1 fares as 0 does in each test.
unfoldable pub check_for_vote2_end : ℕ → ℕ → ℕ → Bool
check_for_vote2_end cnt ayes noes =
    leb cnt (ayes + noes) || ltb (cnt / 2) ayes || ltb (cnt / 2) noes
