-- ===== src/Bot/Roulette/Round/Phases.antt =====
-- The order of the phases that check_state of bot/bot-roulette/game.cpp goes through, and the stakes' end.
use tusa.Common.{ℕ, ◌%◌, ◌≡◌, refl, ◌∙◌, ap, List, [], ◌∷◌, Bool, true, ◌&&◌, not}
use tusa.Common.{ltb, ◌==◌, if◌then◌else◌, arith, if-true, if-both}
use mathlib.Core.Option.{Option, none, some}
use tusa.Common.Dicts.{Dict, has_name}
use tusa.Bot.Roulette.State.{
  Money, GameState, state_undef, accepting_stakes, stakes_stopped, running_wheel, throw_ball,
  wait_next_game, Table, User, fell, said, get_user, send, tell,
}
use tusa.Bot.Roulette.Wheel.{settle, count_stakes, pay_winner, pay_winners, tell_loser, tell_losers}
use tusa.Bot.Roulette.Round.{
  is_due, end_wait, finish, end_throw, end_wheel, end_stopped, end_accepting, reopen, is_accepting,
  first_stake, set_hint, show_hint, give_hints, play, check_state,
}

-- The phase after one that has lasted its time.
abbrev pub next_phase : GameState → GameState
next_phase state_undef = state_undef
next_phase accepting_stakes = stakes_stopped
next_phase stakes_stopped = running_wheel
next_phase running_wheel = throw_ball
next_phase throw_ball = wait_next_game
next_phase wait_next_game = accepting_stakes

module _ {A : Type 0} (m : Money A) where
  -- The time of the phase is over.
  abbrev pub is_late : ℕ → Table A → Bool
  is_late now t = ltb t.next_stoptime now && not (t.next_stoptime == 0)

  count-pay_winner :
      (x : A) (o : Option (User A)) (t : Table A)
      → (pay_winner m x o t).stakes_count ≡ t.stakes_count
  unfolding pay_winner send
  count-pay_winner x none t = refl
  count-pay_winner x (some u) t = refl

  count-pay_winners :
      (wins : Dict A) (t : Table A) → (pay_winners m wins t).stakes_count ≡ t.stakes_count
  unfolding pay_winners
  count-pay_winners [] t = refl
  count-pay_winners ((login, x) ∷ wins) t =
      count-pay_winners wins (pay_winner m x (get_user login t.users t.heap) t)
      ∙ count-pay_winner x (get_user login t.users t.heap) t

  count-tell_loser :
      (login : List ℕ) (o : Option (User A)) (wins : Dict A) (t : Table A)
      → (tell_loser m login o wins t).stakes_count ≡ t.stakes_count
  unfolding tell_loser tell send
  count-tell_loser login none wins t = refl
  count-tell_loser login (some u) wins t =
      if-both (λ (l : Table A). l.stakes_count ≡ t.stakes_count) (has_name login wins) t _ refl refl

  count-tell_losers :
      (tot wins : Dict A) (t : Table A) → (tell_losers m tot wins t).stakes_count ≡ t.stakes_count
  unfolding tell_losers
  count-tell_losers [] wins t = refl
  count-tell_losers ((login, x) ∷ tot) wins t =
      count-tell_losers tot wins (tell_loser m login (get_user login t.users t.heap) wins t)
      ∙ count-tell_loser login (get_user login t.users t.heap) wins t

  count-finish : (now r : ℕ) (t : Table A) → (finish m now r t).stakes_count ≡ t.stakes_count
  unfolding finish send
  count-finish now r t =
      let wins = settle m (r % 37) t t.stawki [] in
      count-tell_losers (count_stakes m t t.stawki []) wins _
      ∙ count-pay_winners wins (send (said (fell (r % 37))) t)

  play-phase :
      (now r : ℕ) (s : GameState) (t : Table A)
      → t.game_state ≡ s
      → (play m now r t).game_state ≡ (
          if t.stakes_count == 0
          then accepting_stakes
          else if is_late now t
          then next_phase s
          else s)
  unfolding play end_wait end_throw end_wheel end_stopped end_accepting reopen is_due is_accepting
      first_stake give_hints set_hint show_hint
  play-phase now r state_undef t e = ground (arith, e)
  play-phase now r accepting_stakes t e = ground (arith, e)
  play-phase now r stakes_stopped t e = ground (arith, e)
  play-phase now r running_wheel t e = ground (arith, e)
  play-phase now r throw_ball t e = ground (arith, e, count-finish now r t)
  play-phase now r wait_next_game t e = ground (arith, e)

  -- In a game that has been started, a run of check_state accepts stakes if no stake has been counted;
  -- else it goes to the next phase if the time of the phase is over, one phase at most in one run, and stays in
  -- the phase if not. After the wait for the next game, where the count is set to 0, stakes are accepted.
  pub check_state-phase :
      (now r : ℕ) (t : Table A)
      → t.game_started ≡ true
      → (check_state m now r t).game_state ≡ (
          if t.stakes_count == 0
          then accepting_stakes
          else if is_late now t
          then next_phase t.game_state
          else t.game_state)
  unfolding check_state
  check_state-phase now r t e =
      ap (λ (u : Table A). u.game_state) (if-true t.game_started (play m now r t) t e)
      ∙ play-phase now r t.game_state t refl
