-- ===== src/Bot/Mafia/Game/Steps.antt =====
-- One run of process_game keeps the phases apart.
use tusa.Common.{ℕ, ◌≤◌, ◌≡◌, Bool, true, false, ◌&&◌}
use tusa.Common.{ltb, if◌then◌else◌, length, arith, if-both, if-cases}
use mathlib.Core.Path.{subst}
use tusa.Bot.Mafia.State.{Game}
use tusa.Bot.Mafia.Finish.{clear_users}
use tusa.Bot.Mafia.Night.{do_night}
use tusa.Bot.Mafia.Day.{do_day}
use tusa.Bot.Mafia.Roles.{assign_roles}
use tusa.Bot.Mafia.Votes.{end_vote1, do_vote2}
use tusa.Bot.Mafia.Vote2.{end_vote2}
use tusa.Bot.Mafia.Game.{
  is_over, end_registration, process_registration, half_roles, begin_game, end_night, end_morning,
  half_vote1, time_vote1, time_vote_say, half_vote2, time_vote2, process_votes, process_game,
}
use tusa.Bot.Mafia.Game.Phases.{
  flags, IsOnePhase, IsPlayed, only_night, only_morning, IsOnePhase-IsPlayed, end_vote1-IsPlayed,
  end_vote2-IsPlayed, do_day-IsPlayed,
}

only_registration :
    (a n m d : Bool)
    → flags true a n m d ≤ 1
    → (flags false a n m d ≤ 1) × (flags false true n m d ≤ 1)
only_registration a n m d h = ground arith

end_registration-IsOnePhase :
    (now : ℕ) (rand : ℕ → ℕ → ℕ) (g : Game)
    → flags true g.roles_assign g.night g.morning g.day ≤ 1
    → IsOnePhase (end_registration now rand g)
unfolding end_registration assign_roles clear_users
end_registration-IsOnePhase now rand g h =
    let (one, two) = only_registration g.roles_assign g.night g.morning g.day h in
    if-both (λ (r : Game). IsOnePhase r) (ltb (length g.gamers_by_nick) 3) _ _ one two

registration_flags :
    (g : Game)
    → g.registration ≡ true
    → IsOnePhase g
    → flags true g.roles_assign g.night g.morning g.day ≤ 1
registration_flags g e h = subst (λ r. flags r g.roles_assign g.night g.morning g.day ≤ 1) e h

process_registration-IsOnePhase :
    (now : ℕ) (rand : ℕ → ℕ → ℕ) (g : Game)
    → g.registration ≡ true
    → IsOnePhase g
    → IsOnePhase (process_registration now rand g)
unfolding process_registration
process_registration-IsOnePhase now rand g e h =
    let k = if is_over now g.reg_start_time 60 then record g { inv1sent = true } else g in
    let (f, one) =
      if-both (λ (r : Game). (r.registration ≡ true) × IsOnePhase r)
        (is_over now g.reg_start_time 60) (record g { inv1sent = true }) g (e, h) (e, h) in
    if-both (λ (r : Game). IsOnePhase r) (is_over now k.reg_start_time 120)
      (end_registration now rand k) k
      (end_registration-IsOnePhase now rand k (registration_flags k f one)) one

half_roles-IsOnePhase :
    (now : ℕ) (rand : ℕ → ℕ → ℕ) (g : Game) → IsOnePhase g → IsOnePhase (half_roles now rand g)
unfolding half_roles
half_roles-IsOnePhase now rand g h = if-both (λ (r : Game). IsOnePhase r) _ _ g h h

begin_flags : (r a n m d : Bool) → flags r a n m d ≤ 1 → a ≡ true → flags r false true m d ≤ 1
begin_flags r a n m d h e = ground arith

begin_game-IsOnePhase :
    (now : ℕ) (key : ℕ → ℕ) (g : Game) → IsOnePhase g → IsOnePhase (begin_game now key g)
unfolding begin_game do_night
begin_game-IsOnePhase now key g h =
    if-cases (λ (r : Game). IsOnePhase r) (g.roles_assign && is_over now g.roles_assign_time 90) _ g
      (λ e. begin_flags g.registration g.roles_assign g.night g.morning g.day h (ground (arith, e)))
      (λ e. h)

end_night-IsOnePhase : (now : ℕ) (g : Game) → IsOnePhase g → IsOnePhase (end_night now g)
unfolding end_night
end_night-IsOnePhase now g h =
    if-cases (λ (r : Game). IsOnePhase r) (g.night && is_over now g.night_time 180)
      (do_day now (record g { night = false })) g
      (λ e.
        let (r, a, m, d) =
          only_night g.registration g.roles_assign g.night g.morning g.day h (ground (arith, e)) in
        let (x, y, z, k) = do_day-IsPlayed now (record g { night = false }) r a in k)
      (λ e. h)

end_morning-IsOnePhase : (now : ℕ) (g : Game) → IsOnePhase g → IsOnePhase (end_morning now g)
unfolding end_morning
end_morning-IsOnePhase now g h =
    if-cases (λ (r : Game). IsOnePhase r) (g.morning && is_over now g.morning_time 15)
      (do_day now (record g { morning = false })) g
      (λ e.
        let (r, a) =
          only_morning g.registration g.roles_assign g.night g.morning g.day h
            (ground (arith, e)) in
        let (x, y, z, k) = do_day-IsPlayed now (record g { morning = false }) r a in k)
      (λ e. h)

half_vote1-IsPlayed : (now : ℕ) (g : Game) → IsPlayed g → IsPlayed (half_vote1 now g)
unfolding half_vote1
half_vote1-IsPlayed now g h = if-both (λ (r : Game). IsPlayed r) _ _ g h h

half_vote2-IsPlayed : (now : ℕ) (g : Game) → IsPlayed g → IsPlayed (half_vote2 now g)
unfolding half_vote2
half_vote2-IsPlayed now g h = if-both (λ (r : Game). IsPlayed r) _ _ g h h

time_vote_say-IsPlayed : (now : ℕ) (g : Game) → IsPlayed g → IsPlayed (time_vote_say now g)
unfolding time_vote_say do_vote2
time_vote_say-IsPlayed now g h = if-both (λ (r : Game). IsPlayed r) _ _ g h h

time_vote1-IsPlayed : (now : ℕ) (g : Game) → IsPlayed g → IsPlayed (time_vote1 now g)
unfolding time_vote1
time_vote1-IsPlayed now g h =
    if-both (λ (r : Game). IsPlayed r) _ (record (end_vote1 now g) { vote1 = false }) g
      (end_vote1-IsPlayed now g h) h

time_vote2-IsPlayed : (now : ℕ) (g : Game) → IsPlayed g → IsPlayed (time_vote2 now g)
unfolding time_vote2
time_vote2-IsPlayed now g h =
    if-both (λ (r : Game). IsPlayed r) _ (record (end_vote2 now g) { vote2 = false }) g
      (end_vote2-IsPlayed now g h) h

process_votes-IsOnePhase : (now : ℕ) (g : Game) → IsOnePhase g → IsOnePhase (process_votes now g)
unfolding process_votes
process_votes-IsOnePhase now g h =
    if-cases (λ (r : Game). IsOnePhase r) g.day _ g
      (λ e.
        let g1 = half_vote1 now g in
        let g2 = time_vote1 now g1 in
        let g3 = time_vote_say now g2 in
        let g4 = half_vote2 now g3 in
        let p1 = half_vote1-IsPlayed now g (IsOnePhase-IsPlayed g h e) in
        let p2 = time_vote1-IsPlayed now g1 p1 in
        let p3 = time_vote_say-IsPlayed now g2 p2 in
        let (r, a, m, k) = time_vote2-IsPlayed now g4 (half_vote2-IsPlayed now g3 p3) in k)
      (λ e. h)

-- At most one of the flags registration, roles_assign, night, morning and day is set after process_game, at
-- any time and with any random numbers, if so before.
pub process_game-IsOnePhase :
    (now : ℕ) (rand : ℕ → ℕ → ℕ) (key : ℕ → ℕ) (g : Game)
    → IsOnePhase g
    → IsOnePhase (process_game now rand key g)
unfolding process_game
process_game-IsOnePhase now rand key g h =
    if-cases (λ (r : Game). IsOnePhase r) g.registration (process_registration now rand g) _
      (λ e. process_registration-IsOnePhase now rand g e h)
      (λ e.
        let g1 = half_roles now rand g in
        let g2 = begin_game now key g1 in
        let g3 = end_night now g2 in
        let p1 = half_roles-IsOnePhase now rand g h in
        let p2 = begin_game-IsOnePhase now key g1 p1 in
        let p3 = end_night-IsOnePhase now g2 p2 in
        process_votes-IsOnePhase now (end_morning now g3) (end_morning-IsOnePhase now g3 p3))
