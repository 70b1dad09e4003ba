-- ===== src/Bot/Mafia/Vote2/Majority.antt =====
-- Whom the second vote of bot/bot-mafia-new/day.cpp kills.
use tusa.Common.{
  ℕ, ◌+◌, ◌-◌, ◌/◌, ◌≤◌, ◌<◌, ◌≡◌, refl, ◌⊎◌, ◌∙◌, arith, true, false, if◌then◌else◌, ltb, inl, inr,
  if-false, if-true, if-both,
}
use tusa.Bot.Mafia.State.{Game, get_active_users_count}
use tusa.Bot.Mafia.Votes.{do_vote1, to_night, count_votes2}
use tusa.Bot.Mafia.Vote2.{not_killed, killed_by_vote, is_spared, end_vote2}

-- The voters of the second vote: all in the game but the one whom it is about.
abbrev pub voters : Game → ℕ
voters g = get_active_users_count g.gamers_by_id - 1

abbrev pub ayes : Game → ℕ
ayes g = count_votes2 true g.vote_info2

abbrev pub noes : Game → ℕ
noes g = count_votes2 false g.vote_info2

majority_not_spared : (cnt a n : ℕ) → a + n ≤ cnt → cnt / 2 < a → is_spared cnt a n ≡ false
majority_not_spared cnt a n h e = ground (arith, h, e)

-- Where no more votes are given than there are voters, ayes of more than half of the voters kill the
-- person of the vote.
pub end_vote2-killed_by_vote :
    (now : ℕ) (g : Game)
    → ayes g + noes g ≤ voters g
    → voters g / 2 < ayes g
    → end_vote2 now g ≡ killed_by_vote now g.vote2_person g
unfolding end_vote2
end_vote2-killed_by_vote now g h e =
    if-false (is_spared (voters g) (ayes g) (noes g)) (not_killed now g) _
      (majority_not_spared (voters g) (ayes g) (noes g) h e)
    ∙ if-true (ltb (voters g / 2) (ayes g)) (killed_by_vote now g.vote2_person g) (to_night now g)
        (ground (arith, e))

-- The game goes on without a death, in a new vote or in the night.
abbrev pub GoesOn : ℕ → Game → Game → Type 0
GoesOn now g h = (h ≡ do_vote1 now g) ⊎ (h ≡ to_night now g)

not_killed-GoesOn : (now : ℕ) (g : Game) → GoesOn now g (not_killed now g)
unfolding not_killed
not_killed-GoesOn now g =
    if-both (λ (r : Game). GoesOn now g r) (ltb now (g.day_time + 180)) (do_vote1 now g)
      (to_night now g) (inl refl) (inr refl)

-- With ayes of half of the voters at most nobody is killed: a new vote or the night begins.
pub end_vote2-GoesOn : (now : ℕ) (g : Game) → ayes g ≤ voters g / 2 → GoesOn now g (end_vote2 now g)
unfolding end_vote2
end_vote2-GoesOn now g h =
    if-both (λ (r : Game). GoesOn now g r) (is_spared (voters g) (ayes g) (noes g))
      (not_killed now g)
      (if ltb (voters g / 2) (ayes g) then killed_by_vote now g.vote2_person g else to_night now g)
      (not_killed-GoesOn now g)
      (inr (
        if-false (ltb (voters g / 2) (ayes g)) (killed_by_vote now g.vote2_person g)
          (to_night now g) (ground (arith, h))))
