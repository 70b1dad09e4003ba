-- ===== src/Bot/Mafia/Game/Phases.antt =====
-- The phases of the game: registration, the assignment of roles, night, morning and day.
use tusa.Common.{ℕ, ◌+◌, ◌≤◌, ◌≡◌, refl, List, [], ◌∷◌, Bool, true, false}
use tusa.Common.{ltb, if◌then◌else◌, arith, if-both}
use tusa.Common.Maps.{find}
use mathlib.Core.Option.{Option, none, some}
use tusa.Bot.Mafia.State.{User, Game}
use tusa.Bot.Mafia.Finish.{Finish, process_for_end_game, finish_with, judge_users}
use tusa.Bot.Mafia.Night.{do_night}
use tusa.Bot.Mafia.Day.{unless_ended, renew_main_maf, do_day}
use tusa.Bot.Mafia.Votes.{to_night, decide_vote1, end_vote1, do_vote1, max_votes, with_votes}
use tusa.Bot.Mafia.Vote2.{not_killed, kill_person, kill_found, killed_by_vote, end_vote2}

-- How many of the five flags are set.
abbrev pub bit : Bool → ℕ
bit b = if b then 1 else 0

abbrev pub flags : Bool → Bool → Bool → Bool → Bool → ℕ
flags r a n m d = bit r + bit a + bit n + bit m + bit d

abbrev pub phases : Game → ℕ
phases g = flags g.registration g.roles_assign g.night g.morning g.day

-- At most one flag is set.
abbrev pub IsOnePhase : Game → Type 0
IsOnePhase g = phases g ≤ 1

-- A game that goes on, between its morning and its next one.
abbrev pub IsPlayed : Game → Type 0
IsPlayed g =
    (g.registration ≡ false) × (g.roles_assign ≡ false) × (g.morning ≡ false) × IsOnePhase g

pub only_night :
    (r a n m d : Bool)
    → flags r a n m d ≤ 1
    → n ≡ true
    → (r ≡ false) × (a ≡ false) × (m ≡ false) × (d ≡ false)
only_night r a n m d h e = ground arith

pub only_morning : (r a n m d : Bool) → flags r a n m d ≤ 1 → m ≡ true → (r ≡ false) × (a ≡ false)
only_morning r a n m d h e = ground arith

only_day :
    (r a n m d : Bool) → flags r a n m d ≤ 1 → d ≡ true → (r ≡ false) × (a ≡ false) × (m ≡ false)
only_day r a n m d h e = ground arith

pub night_flag : (r a m : Bool) → r ≡ false → a ≡ false → m ≡ false → flags r a true m false ≤ 1
night_flag r a m p q s = ground arith

day_flag : (r a : Bool) → r ≡ false → a ≡ false → flags r a false false true ≤ 1
day_flag r a p q = ground arith

pub IsOnePhase-IsPlayed : (g : Game) → IsOnePhase g → g.day ≡ true → IsPlayed g
IsOnePhase-IsPlayed g h e =
    let (r, a, m) = only_day g.registration g.roles_assign g.night g.morning g.day h e in
    (r, a, m, h)

to_night-IsPlayed : (now : ℕ) (g : Game) → IsPlayed g → IsPlayed (to_night now g)
unfolding do_night
to_night-IsPlayed now g (r, a, m, h) =
    (r, a, m, night_flag g.registration g.roles_assign g.morning r a m)

do_vote1-IsPlayed : (now : ℕ) (g : Game) → IsPlayed g → IsPlayed (do_vote1 now g)
unfolding do_vote1
do_vote1-IsPlayed now g h = h

zero_le_one : 0 ≤ 1
zero_le_one = omega arith

-- The end of the game leaves all flags unset.
unless_ended-IsPlayed :
    (next : Game → Game) (g : Game)
    → IsPlayed (next g)
    → IsPlayed (unless_ended next (process_for_end_game g))
unfolding unless_ended finish_with process_for_end_game
unless_ended-IsPlayed next g h =
    if-both (λ (f : Finish). IsPlayed (unless_ended next f)) (judge_users g.gamers_by_id).end _
      (record { ended = false; game = g; paid = [] }) (refl, refl, refl, zero_le_one) h

decide_vote1-IsPlayed :
    (now : ℕ) (l : List (Option ℕ)) (g : Game) → IsPlayed g → IsPlayed (decide_vote1 now l g)
unfolding decide_vote1
decide_vote1-IsPlayed now [] g h = to_night-IsPlayed now g h
decide_vote1-IsPlayed now (none ∷ l) g h = to_night-IsPlayed now g h
decide_vote1-IsPlayed now (some u ∷ []) g h = h
decide_vote1-IsPlayed now (some u ∷ x ∷ l) g h = to_night-IsPlayed now g h

pub end_vote1-IsPlayed : (now : ℕ) (g : Game) → IsPlayed g → IsPlayed (end_vote1 now g)
unfolding end_vote1
end_vote1-IsPlayed now g h =
    let k = record g { vote1 = false } in
    let most = max_votes g.vote_info1 in
    if-both (λ (r : Game). IsPlayed r) (ltb 0 most)
      (decide_vote1 now (with_votes most g.vote_info1) k) (to_night now k)
      (decide_vote1-IsPlayed now (with_votes most g.vote_info1) k h) (to_night-IsPlayed now k h)

not_killed-IsPlayed : (now : ℕ) (g : Game) → IsPlayed g → IsPlayed (not_killed now g)
unfolding not_killed
not_killed-IsPlayed now g h =
    if-both (λ (r : Game). IsPlayed r) _ (do_vote1 now g) (to_night now g)
      (do_vote1-IsPlayed now g h) (to_night-IsPlayed now g h)

kill_person-IsPlayed :
    (now p : ℕ) (z : User) (g : Game) → IsPlayed g → IsPlayed (kill_person now p z g)
unfolding kill_person do_night
kill_person-IsPlayed now p z g (r, a, m, h) =
    unless_ended-IsPlayed (λ k. do_night now (renew_main_maf k)) _
      (r, a, m, night_flag g.registration g.roles_assign g.morning r a m)

kill_found-IsPlayed :
    (now p : ℕ) (o : Option User) (g : Game) → IsPlayed g → IsPlayed (kill_found now p o g)
unfolding kill_found
kill_found-IsPlayed now p none g h = h
kill_found-IsPlayed now p (some z) g h = kill_person-IsPlayed now p z g h

killed_by_vote-IsPlayed :
    (now : ℕ) (o : Option ℕ) (g : Game) → IsPlayed g → IsPlayed (killed_by_vote now o g)
unfolding killed_by_vote
killed_by_vote-IsPlayed now none g h = h
killed_by_vote-IsPlayed now (some p) g h = kill_found-IsPlayed now p (find p g.gamers_by_id) g h

pub end_vote2-IsPlayed : (now : ℕ) (g : Game) → IsPlayed g → IsPlayed (end_vote2 now g)
unfolding end_vote2
end_vote2-IsPlayed now g h =
    if-both (λ (r : Game). IsPlayed r) _ (not_killed now g) _ (not_killed-IsPlayed now g h)
      (if-both (λ (r : Game). IsPlayed r) _ (killed_by_vote now g.vote2_person g) (to_night now g)
        (killed_by_vote-IsPlayed now g.vote2_person g h) (to_night-IsPlayed now g h))

pub do_day-IsPlayed :
    (now : ℕ) (g : Game) → g.registration ≡ false → g.roles_assign ≡ false → IsPlayed (do_day now g)
unfolding do_day
do_day-IsPlayed now g r a =
    unless_ended-IsPlayed (λ k. do_vote1 now (renew_main_maf k)) _
      (do_vote1-IsPlayed now _ (r, a, refl, day_flag g.registration g.roles_assign r a))
