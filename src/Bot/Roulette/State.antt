-- ===== src/Bot/Roulette/State.antt =====
-- struct stawka, enum GAME_STATE and the globals of bot/bot-roulette/game.cpp, struct pay and class user of
-- roulette.h, get_user of roulette.cpp, and the operations on doubles that the bot uses.
use tusa.Common.{ℕ, ◌+◌, ◌%◌, ◌^◌, List, [], ◌∷◌, ◌++◌, Bool, if◌then◌else◌}
use tusa.Common.Maps.{Map, find}
use tusa.Common.Dicts.{Dict, same_string, at_name}
use mathlib.Core.Option.{Option, none, some}

-- +, * and / with a number, <= 0, < 0.01, == and atof.
pub record Money (A : Type 0) : Type 0 where
  pub add : A → A → A
  pub times : A → ℕ → A
  pub split : A → ℕ → A
  pub is_at_most_zero : A → Bool
  pub is_small : A → Bool
  pub same : A → A → Bool
  pub atof : List ℕ → A

-- The strings that a tip or a type is.
pub data Tip : Type 0 where
  num odd even p1 p2 d1 d2 d3 : Tip

pub record Stawka (A : Type 0) : Type 0 where
  pub login : List ℕ
  pub summa : A
  pub tip : Tip
  pub number : ℕ

pub record Pay (A : Type 0) : Type 0 where
  pub id : ℕ
  pub type_ : Tip
  pub nums : List ℕ
  pub summa : A

pub record User (A : Type 0) : Type 0 where
  pub gender : ℕ
  pub login : List ℕ
  pub nick : List ℕ
  pub unreg : Bool
  pub pays : Map (Pay A)

pub data GameState : Type 0 where
  state_undef accepting_stakes stakes_stopped running_wheel throw_ball wait_next_game : GameState

-- What privmsg says to a player who has sent a bet, and to one who has lost.
pub data Notice : Type 0 where
  closed rejoin bad_format above_36 not_positive bad_order too_small : Notice
  not_enough_credits unknown_error not_found other_sum accepted lost_all : Notice

-- What action says in the channel: that a game starts, where the ball fell, who wins how much or that nobody does, that the
-- game has ended, that the ball is thrown, the wheel turns and the stakes are closed, who plays, that the
-- time for stakes has begun, and one of the hints.
pub data Line (A : Type 0) : Type 0 where
  starts_game : Line A
  fell : ℕ → Line A
  winners : List (List ℕ × A) → Line A
  nobody_won ended throws turns closes : Line A
  plays : List (List ℕ) → Line A
  counts_down gives_hint : Line A

-- What goes to the server: EUI asks for a user, UTTC takes credits from a user, CTTU gives them;
-- and the words of privmsg to a player and of action to all.
pub data Sent (A : Type 0) : Type 0 where
  eui : List ℕ → Sent A
  uttc : List ℕ → A → Tip → ℕ → Sent A
  cttu : List ℕ → A → ℕ → Sent A
  told : List ℕ → Notice → Sent A
  congratulated : List ℕ → A → Sent A
  said : Line A → Sent A

pub record Table (A : Type 0) : Type 0 where
  pub users : Dict ℕ
  pub heap : Map (User A)
  pub stawki : Dict (List (Stawka A))
  pub game_started : Bool
  pub game_state : GameState
  pub next_stoptime : ℕ
  pub next_hint_time : ℕ
  pub stakes_count : ℕ
  pub last_id : ℕ
  pub cttu_nicks : Map (List ℕ)
  pub sent : List (Sent A)

-- The id after __id
unfoldable pub next_id : ℕ → ℕ
next_id i = (i + 1) % 2 ^ 32

module _ {A : Type 0} where
  unfoldable pub send : Sent A → Table A → Table A
  send e t = record t { sent = t.sent ++ e ∷ [] }

  unfoldable pub tell : List ℕ → Notice → Table A → Table A
  unfolding send
  tell nick n t = send (told nick n) t

  -- The user with this login, if the address holds one.
  unfoldable pub of_login : List ℕ → Option (User A) → Option (User A)
  unfolding same_string
  of_login login none = none
  of_login login (some u) = if same_string u.login login then some u else none

  unfoldable pub first_user : Option (User A) → Option (User A) → Option (User A)
  first_user none v = v
  first_user (some u) v = some u

  unfoldable pub get_user : List ℕ → Dict ℕ → Map (User A) → Option (User A)
  unfolding of_login first_user find
  get_user login [] heap = none
  get_user login ((nick, a) ∷ users) heap =
      first_user (of_login login (find a heap)) (get_user login users heap)

  -- users.find(nick), and the user there
  unfoldable pub user_of : Option ℕ → Map (User A) → Option (User A)
  unfolding find
  user_of none heap = none
  user_of (some a) heap = find a heap

  -- __stawki[login].push_back(s)
  unfoldable pub add_stawka : Stawka A → Dict (List (Stawka A)) → Dict (List (Stawka A))
  unfolding at_name
  add_stawka s m = at_name s.login [] (λ v. v ++ s ∷ []) m
