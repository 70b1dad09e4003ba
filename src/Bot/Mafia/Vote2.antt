-- ===== src/Bot/Mafia/Vote2.antt =====
-- The second vote of bot/bot-mafia-new/day.cpp, on the death of one user.
pub mod Majority
use tusa.Common.{ℕ, ◌+◌, ◌-◌, ◌*◌, ◌/◌, Bool, true, false, ◌||◌}
use tusa.Common.{ltb, ◌==◌, if◌then◌else◌}
use tusa.Common.Maps.{find, update, at_key}
use mathlib.Core.Option.{Option, none, some}
use tusa.Bot.Mafia.State.{
  Role, maf, kat, man, doc, bom, val, mir, minus, User, Users, Game, map_users, add_score,
  get_active_users_count,
}
use tusa.Bot.Mafia.Finish.{process_for_end_game}
use tusa.Bot.Mafia.Votes.{do_vote1, to_night, count_votes2, check_for_vote2_end, same_target}
use tusa.Bot.Mafia.Day.{unless_ended, renew_main_maf}
use tusa.Bot.Mafia.Night.{do_night}

-- sc of end_vote2: the score of a voter of role r when a user of the first role is killed. A missing
-- entry of the map is 0.
abbrev pub vote_score : Role → Role → ℕ
vote_score maf r = elim r [
  | maf ↦ minus 13
  | man ↦ 31
  | kat ↦ 39
  | bom ↦ 53
  | doc ↦ 39
  | mir ↦ 53
  | val ↦ 0
]
vote_score man r = elim r [
  | maf ↦ 28
  | man ↦ 28
  | kat ↦ 36
  | bom ↦ 48
  | doc ↦ 36
  | mir ↦ 48
  | val ↦ 0
]
vote_score kat r = elim r [
  | maf ↦ 55
  | man ↦ 45
  | kat ↦ minus 70
  | bom ↦ minus 65
  | doc ↦ minus 55
  | mir ↦ minus 47
  | val ↦ 0
]
vote_score bom r = elim r [
  | maf ↦ 23
  | man ↦ 23
  | kat ↦ minus 32
  | bom ↦ minus 32
  | doc ↦ minus 32
  | mir ↦ minus 30
  | val ↦ 0
]
vote_score doc r = elim r [
  | maf ↦ 30
  | man ↦ 30
  | kat ↦ minus 46
  | bom ↦ minus 46
  | doc ↦ minus 46
  | mir ↦ minus 43
  | val ↦ 0
]
vote_score val r = elim r [ maf ↦ 11 | man ↦ 11 | kat ↦ 9 | bom ↦ 9 | doc ↦ 9 | mir ↦ 9 | val ↦ 0 ]
vote_score mir r = elim r [
  | maf ↦ 10
  | man ↦ 10
  | kat ↦ minus 35
  | bom ↦ minus 35
  | doc ↦ minus 25
  | mir ↦ minus 15
  | val ↦ 0
]

unfoldable pub reward_voter : Role → User → User
reward_voter r q =
    if q.marked_for_delete then q else if q.voted then add_score (vote_score r q.role) q else q

unfoldable pub mark_person : ℕ → Users → Users
mark_person p m = update p (λ w. record w { marked_for_delete = true; devoiced = true }) m

-- DAY_TIME
abbrev pub day_length : ℕ
day_length = 180

unfoldable pub not_killed : ℕ → Game → Game
not_killed now g = if ltb now (g.day_time + day_length) then do_vote1 now g else to_night now g

unfoldable pub kill_person : ℕ → ℕ → User → Game → Game
unfolding mark_person reward_voter map_users unless_ended
kill_person now p z g =
    unless_ended (λ h. do_night now (renew_main_maf h))
      (process_for_end_game (record g {
        day = false;
        vote2 = false;
        gamers_by_id = map_users (reward_voter z.role) (mark_person p g.gamers_by_id);
      }))

-- vote2_person is never NULL here; a pointer to a deleted user is not followed.
unfoldable pub kill_found : ℕ → ℕ → Option User → Game → Game
unfolding kill_person
kill_found now p none g = g
kill_found now p (some z) g = kill_person now p z g

unfoldable pub killed_by_vote : ℕ → Option ℕ → Game → Game
unfolding kill_found
killed_by_vote now none g = g
killed_by_vote now (some p) g = kill_found now p (find p g.gamers_by_id) g

-- The two tests of end_vote2, on get_active_users_count() - 1 and the numbers of votes.
abbrev pub is_spared : ℕ → ℕ → ℕ → Bool
is_spared cnt ayes noes = ltb (ayes + noes) (cnt * 40 / 100) || ltb (cnt / 2) noes || ayes == noes

unfoldable pub end_vote2 : ℕ → Game → Game
unfolding count_votes2 not_killed killed_by_vote get_active_users_count
end_vote2 now g =
    let cnt = get_active_users_count g.gamers_by_id - 1 in
    let ayes = count_votes2 true g.vote_info2 in
    let noes = count_votes2 false g.vote_info2 in
    if is_spared cnt ayes noes
    then not_killed now g
    else if ltb (cnt / 2) ayes
    then killed_by_vote now g.vote2_person g
    else to_night now g

-- do_vote_yes and do_vote_no of the user u.
unfoldable pub do_vote : ℕ → Bool → ℕ → Game → Game
unfolding count_votes2 check_for_vote2_end end_vote2 get_active_users_count
do_vote now says u g =
    if same_target (some u) g.vote2_person
    then g
    else (let h = record g { vote_info2 = at_key u says (λ w. says) g.vote_info2 } in
        let cnt = get_active_users_count h.gamers_by_id - 1 in
        if check_for_vote2_end cnt (count_votes2 true h.vote_info2)
          (count_votes2 false h.vote_info2)
        then end_vote2 now h
        else h)
