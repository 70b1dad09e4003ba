-- ===== src/Bot/Roulette/Round.antt =====
-- check_state of bot/bot-roulette/game.cpp, which leads the game from one phase to the next. `now` is what
-- time(NULL) returns in one run, `r` is what get_random returns.
pub mod Phases
pub mod Stakes
use tusa.Common.{ℕ, ◌+◌, ◌%◌, List, [], ◌∷◌, ◌++◌, map, Bool, ◌&&◌, not}
use tusa.Common.{ltb, ◌==◌, if◌then◌else◌}
use mathlib.Core.Option.{none, some}
use tusa.Common.Dicts.{Dict, at_name}
use tusa.Bot.Roulette.State.{
  Money, GameState, state_undef, accepting_stakes, stakes_stopped, running_wheel, throw_ball,
  wait_next_game, Stawka, Line, starts_game, fell, ended, throws, turns, closes, plays, counts_down,
  gives_hint, Sent, said, Table, send, get_user,
}
use tusa.Bot.Roulette.Wheel.{settle, count_stakes, pay_winners, winners_line, tell_losers}

abbrev pub accepting_stakes_time : ℕ
accepting_stakes_time = 60

abbrev pub stakes_stopped_time : ℕ
stakes_stopped_time = 5

abbrev pub running_wheel_time : ℕ
running_wheel_time = 5

abbrev pub throw_ball_time : ℕ
throw_ball_time = 5

abbrev pub next_game_time : ℕ
next_game_time = 7

abbrev pub hint_1_time : ℕ
hint_1_time = 15

abbrev pub state_number : GameState → ℕ
state_number state_undef = 0
state_number accepting_stakes = 1
state_number stakes_stopped = 2
state_number running_wheel = 3
state_number throw_ball = 4
state_number wait_next_game = 5

module _ {A : Type 0} (m : Money A) where
  -- game_state==s && time(NULL)>next_stoptime && next_stoptime!=0
  unfoldable pub is_due : GameState → ℕ → Table A → Bool
  is_due s now t =
      state_number t.game_state == state_number s
      && (ltb t.next_stoptime now && not (t.next_stoptime == 0))

  -- action(l)
  abbrev pub with_line : Line A → List (Sent A) → List (Sent A)
  with_line l sent = sent ++ said l ∷ []

  unfoldable pub end_wait : ℕ → Table A → Table A
  unfolding is_due
  end_wait now t =
      if is_due wait_next_game now t
      then record t {
        next_stoptime = 0;
        game_state = state_undef;
        stakes_count = 0;
        next_hint_time = 0;
        sent = with_line starts_game t.sent;
      }
      else t

  -- The ball lies, the winners are paid, the losers are told, and the stakes are gone.
  unfoldable pub finish : ℕ → ℕ → Table A → Table A
  unfolding settle count_stakes pay_winners winners_line tell_losers send
  finish now r t =
      let ball = r % 37 in
      let wins = settle m ball t t.stawki [] in
      let p = pay_winners m wins (send (said (fell ball)) t) in
      let w = send (said (winners_line m wins p)) p in
      let l = tell_losers m (count_stakes m t t.stawki []) wins w in
      record l {
        game_state = wait_next_game;
        next_stoptime = now + next_game_time;
        stawki = [];
        sent = with_line ended l.sent;
      }

  unfoldable pub end_throw : ℕ → ℕ → Table A → Table A
  unfolding is_due finish
  end_throw now r t = if is_due throw_ball now t then finish now r t else t

  unfoldable pub end_wheel : ℕ → Table A → Table A
  unfolding is_due
  end_wheel now t =
      if is_due running_wheel now t
      then record t {
        game_state = throw_ball;
        next_stoptime = now + throw_ball_time;
        sent = with_line throws t.sent;
      }
      else t

  unfoldable pub end_stopped : ℕ → Table A → Table A
  unfolding is_due
  end_stopped now t =
      if is_due stakes_stopped now t
      then record t {
        game_state = running_wheel;
        next_stoptime = now + running_wheel_time;
        sent = with_line turns t.sent;
      }
      else t

  -- vv, the nicks of the known users who have a stake, in the order of strings
  unfoldable pub playing : Dict (List (Stawka A)) → Table A → Dict (List ℕ) → Dict (List ℕ)
  unfolding get_user at_name
  playing [] t vv = vv
  playing ((login, v) ∷ st) t vv = elim (get_user login t.users t.heap) [
    | none ↦ playing st t vv
    | some u ↦ playing st t (at_name u.nick u.nick (λ n. n) vv)
  ]

  unfoldable pub with_players : Dict (List ℕ) → List (Sent A) → List (Sent A)
  with_players [] sent = sent
  with_players (e ∷ vv) sent = with_line (plays (map (λ n. n.0) (e ∷ vv))) sent

  unfoldable pub end_accepting : ℕ → Table A → Table A
  unfolding is_due playing with_players
  end_accepting now t =
      if is_due accepting_stakes now t
      then record t {
        game_state = stakes_stopped;
        next_stoptime = now + stakes_stopped_time;
        sent = with_players (playing t.stawki t []) (with_line closes t.sent);
      }
      else t

  -- Without a stake the game accepts stakes.
  unfoldable pub reopen : Table A → Table A
  reopen t = if t.stakes_count == 0 then record t { game_state = accepting_stakes } else t

  unfoldable pub is_accepting : Table A → Bool
  is_accepting t = state_number t.game_state == state_number accepting_stakes

  -- The first stake sets the time for the others.
  unfoldable pub first_stake : ℕ → Table A → Table A
  unfolding is_accepting
  first_stake now t =
      if not (t.stakes_count == 0) && is_accepting t && t.next_stoptime == 0
      then record t {
        next_stoptime = now + accepting_stakes_time;
        sent = with_line counts_down t.sent;
      }
      else t

  unfoldable pub set_hint : ℕ → Table A → Table A
  set_hint now t =
      if t.next_hint_time == 0 then record t { next_hint_time = now + hint_1_time } else t

  -- One of the hints, of which the bot has loaded some
  unfoldable pub show_hint : ℕ → Table A → Table A
  show_hint now t =
      if ltb t.next_hint_time now
      then record t { next_hint_time = now + hint_1_time; sent = with_line gives_hint t.sent }
      else t

  unfoldable pub give_hints : ℕ → Table A → Table A
  unfolding is_accepting set_hint show_hint
  give_hints now t = if is_accepting t then show_hint now (set_hint now t) else t

  -- The tests of a game that has been started, in their order.
  unfoldable pub play : ℕ → ℕ → Table A → Table A
  unfolding end_wait end_throw end_wheel end_stopped end_accepting reopen first_stake give_hints
  play now r t =
      let t1 = end_throw now r (end_wait now t) in
      let t2 = end_accepting now (end_stopped now (end_wheel now t1)) in
      give_hints now (first_stake now (reopen t2))

  unfoldable pub check_state : ℕ → ℕ → Table A → Table A
  unfolding play
  check_state now r t = if t.game_started then play now r t else t
