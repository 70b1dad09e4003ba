-- ===== src/Bot/Mafia/State.antt =====
-- class c_user of bot/bot-mafia-new/user.h, and the globals of user.cpp, game.cpp and day.cpp.
-- Left out of a user are last_score, which nothing reads, and phrase, which is only printed.
use tusa.Common.{ℕ, suc, ◌+◌, ◌-◌, ◌%◌, ◌^◌, List, [], ◌∷◌, Bool, not, ◌==◌, if◌then◌else◌}
use tusa.Common.Maps.{Map}
use mathlib.Core.Option.{Option}

-- The ROLE_ constants of user.h.
pub data Role : Type 0 where
  maf kat man doc bom val mir : Role

abbrev pub role_number : Role → ℕ
role_number maf = 2
role_number kat = 3
role_number man = 4
role_number doc = 5
role_number bom = 6
role_number val = 7
role_number mir = 10

abbrev pub is_role : Role → Role → Bool
is_role r s = role_number r == role_number s

-- A score is an unsigned int, and an int is its bit pattern: `minus k` is -k.
abbrev pub minus : ℕ → ℕ
minus k = 2 ^ 32 - k

pub record User : Type 0 where
  pub ip : List ℕ
  pub nick : List ℕ
  pub login : List ℕ
  pub gender : ℕ
  pub role : Role
  pub score : ℕ
  pub id : ℕ
  pub accepted : Bool
  pub main_maf : Bool
  pub maf_n : ℕ
  pub order_done : Bool
  pub order : ℕ
  pub order_type : Bool
  pub marked_for_delete : Bool
  pub killed : Bool
  pub devoiced : Bool
  pub doced : Bool
  pub parent : ℕ
  pub valed : Bool
  pub voted : Bool
  pub left : Bool
  pub chnick : Bool
  pub win : Bool
  pub need_update : Bool
  pub doc_self : ℕ

abbrev pub Users : Type 0
Users = Map User

-- score += s
abbrev pub add_score : ℕ → User → User
add_score s u = record u { score = (u.score + s) % 2 ^ 32 }

-- A row that unregister_user adds to mafia_score.
pub record ScoreRow : Type 0 where
  pub login : List ℕ
  pub win : ℕ
  pub loose : ℕ
  pub score : ℕ

pub record Game : Type 0 where
  pub gamers_by_id : Users
  pub gamers_by_nick : List (List ℕ × ℕ)
  pub register_counter : ℕ
  pub mafia_score : List ScoreRow
  pub voiced : Bool
  pub registration : Bool
  pub roles_assign : Bool
  pub game_started : Bool
  pub night : Bool
  pub morning : Bool
  pub day : Bool
  pub inv1sent : Bool
  pub roles_assign_half : Bool
  pub reg_start_time : ℕ
  pub roles_assign_time : ℕ
  pub night_time : ℕ
  pub morning_time : ℕ
  pub day_time : ℕ
  pub vote1 : Bool
  pub vote1_half : Bool
  pub vote1_time : ℕ
  pub vote2 : Bool
  pub vote2_half : Bool
  pub vote2_time : ℕ
  pub vote_say : Bool
  pub vote_say_time : ℕ
  pub vote_info1 : List (Option ℕ × List ℕ)
  pub vote_info2 : Map Bool
  pub vote2_person : Option ℕ

-- A loop over gamers_by_id that changes each user by itself.
unfoldable pub map_users : (User → User) → Users → Users
map_users f [] = []
map_users f ((i, u) ∷ m) = (i, f u) ∷ map_users f m

-- How many users pass a test.
unfoldable pub count_users : (User → Bool) → Users → ℕ
count_users p [] = 0
count_users p ((i, u) ∷ m) = if p u then suc (count_users p m) else count_users p m

abbrev pub is_active : User → Bool
is_active u = not u.marked_for_delete

-- get_active_users_count
unfoldable pub get_active_users_count : Users → ℕ
unfolding count_users
get_active_users_count m = count_users is_active m

-- The keys of gamers_by_id, in the order of its iterators.
unfoldable pub ids : Users → List ℕ
ids [] = []
ids ((i, u) ∷ m) = i ∷ ids m
