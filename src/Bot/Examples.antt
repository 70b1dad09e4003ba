-- ===== src/Bot/Examples.antt =====
-- Small games of the Mafia bot, to which its theorems are applied.
mod Rounds
mod Players
mod Wheel
mod Answers
use tusa.Common.{◌≡◌, refl, [], ◌∷◌, true, false}
use tusa.Common.Maps.{find}
use mathlib.Core.Option.{none, some}
use tusa.Bot.Mafia.State.{maf, doc, mir, User, Users, Game}

-- A player without a role.
abbrev pub blank : User
blank = record {
  ip = [];
  nick = [];
  login = [];
  gender = 0;
  role = mir;
  score = 0;
  id = 0;
  accepted = false;
  main_maf = false;
  maf_n = 0;
  order_done = false;
  order = 0;
  order_type = false;
  marked_for_delete = false;
  killed = false;
  devoiced = false;
  doced = false;
  parent = 0;
  valed = false;
  voted = false;
  left = false;
  chnick = false;
  win = false;
  need_update = false;
  doc_self = 0;
}

abbrev pub mafioso : User
mafioso = record blank { role = maf; id = 1; main_maf = true; maf_n = 1; nick = 65 ∷ [] }

abbrev pub townsman : User
townsman = record blank { id = 2; nick = 66 ∷ [] }

abbrev pub doctor : User
doctor = record blank { role = doc; id = 3; nick = 67 ∷ [] }

abbrev pub players : Users
players = (1, mafioso) ∷ (2, townsman) ∷ (3, doctor) ∷ []

-- The night of the three players.
abbrev pub night_game : Game
night_game = record {
  gamers_by_id = players;
  gamers_by_nick = (65 ∷ [], 1) ∷ (66 ∷ [], 2) ∷ (67 ∷ [], 3) ∷ [];
  register_counter = 3;
  mafia_score = [];
  voiced = true;
  registration = false;
  roles_assign = false;
  game_started = true;
  night = true;
  morning = false;
  day = false;
  inv1sent = true;
  roles_assign_half = true;
  reg_start_time = 1000;
  roles_assign_time = 1200;
  night_time = 1300;
  morning_time = 0;
  day_time = 0;
  vote1 = false;
  vote1_half = false;
  vote1_time = 0;
  vote2 = false;
  vote2_half = false;
  vote2_time = 0;
  vote_say = false;
  vote_say_time = 0;
  vote_info1 = [];
  vote_info2 = [];
  vote2_person = none;
}

abbrev pub day_game : Game
day_game = record night_game {
  night = false;
  day = true;
  vote1 = true;
  vote_info1 = (some 1, 2 ∷ []) ∷ [];
}

abbrev pub open_game : Game
open_game = record night_game { night = false; game_started = false; registration = true }

pub find_1 : find 1 players ≡ some mafioso
unfolding find
find_1 = refl

pub find_2 : find 2 players ≡ some townsman
unfolding find
find_2 = refl

pub find_3 : find 3 players ≡ some doctor
unfolding find
find_3 = refl
