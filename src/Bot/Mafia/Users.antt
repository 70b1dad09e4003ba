-- ===== src/Bot/Mafia/Users.antt =====
-- register_user and unregister_user of bot/bot-mafia-new/user.cpp, and the lookups in gamers_by_nick.
pub mod Registry
use tusa.Common.{ℕ, ◌+◌, ◌%◌, ◌^◌, List, [], ◌∷◌, ◌++◌, Bool, true, false, not, ◌&&◌, ◌||◌}
use tusa.Common.{ltb, ◌==◌, if◌then◌else◌}
use tusa.Common.Maps.{find, erase, has_key, update, add_new}
use tusa.Common.Dicts.{same_string, before}
use mathlib.Core.Option.{Option, none, some}
use tusa.Bot.Nicks.{str_nick}
use tusa.Bot.Mafia.State.{Role, mir, User, Users, ScoreRow, Game, is_active}
use tusa.Bot.Mafia.Finish.{score_row}

abbrev pub Nicks : Type 0
Nicks = List (List ℕ × ℕ)

-- gamers_by_nick.find, .erase and [] =
unfoldable pub find_nick : List ℕ → Nicks → Option ℕ
unfolding same_string
find_nick k [] = none
find_nick k ((j, i) ∷ nicks) = if same_string j k then some i else find_nick k nicks

unfoldable pub erase_nick : List ℕ → Nicks → Nicks
unfolding same_string
erase_nick k [] = []
erase_nick k ((j, i) ∷ nicks) =
    let rest = erase_nick k nicks in if same_string j k then rest else (j, i) ∷ rest

unfoldable pub set_nick : List ℕ → ℕ → Nicks → Nicks
unfolding same_string before
set_nick k i [] = (k, i) ∷ []
set_nick k i ((j, w) ∷ nicks) =
    let rest = set_nick k i nicks in
    if same_string j k
    then (j, i) ∷ nicks
    else if before k j
    then (k, i) ∷ (j, w) ∷ nicks
    else (j, w) ∷ rest

-- register_user finds an active user of the same login or address.
unfoldable pub is_registered : List ℕ → List ℕ → Users → Bool
unfolding same_string
is_registered login ip [] = false
is_registered login ip ((i, u) ∷ m) =
    is_active u && (same_string u.login login || same_string u.ip ip) || is_registered login ip m

-- c_user::c_user, which leaves six members as `raw` memory has them.
unfoldable pub new_user : User → User
new_user raw = record raw {
  win = false;
  gender = 0;
  role = mir;
  score = 0;
  id = 0;
  accepted = false;
  main_maf = false;
  order = 0;
  valed = false;
  marked_for_delete = false;
  killed = false;
  devoiced = false;
  left = false;
  chnick = false;
  need_update = false;
  doc_self = 0;
}

-- gamers_by_id[u->id] = u
unfoldable pub set_user : ℕ → User → Users → Users
set_user i u m = if has_key i m then update i (λ w. u) m else add_new i u m

unfoldable pub register_user : User → List ℕ → List ℕ → ℕ → List ℕ → Game → Game
unfolding is_registered new_user set_user set_nick
register_user raw nick login gender ip g =
    if not g.registration || is_registered login ip g.gamers_by_id
    then g
    else (let n = (g.register_counter + 1) % 2 ^ 32 in
        let u = record (new_user raw) {
          nick = nick;
          login = login;
          id = n;
          gender = gender;
          ip = ip;
        } in
        record g {
          register_counter = n;
          gamers_by_id = set_user n u g.gamers_by_id;
          gamers_by_nick = set_nick (str_nick nick) n g.gamers_by_nick;
        })

abbrev pub row_of : Option User → List ScoreRow
row_of none = []
row_of (some u) = score_row u

unfoldable pub unregister_id : List ℕ → Option ℕ → Game → Game
unfolding erase_nick score_row
unregister_id k none g = g
unregister_id k (some i) g = record g {
  mafia_score = g.mafia_score ++ row_of (find i g.gamers_by_id);
  gamers_by_id = erase i g.gamers_by_id;
  gamers_by_nick = erase_nick k g.gamers_by_nick;
}

unfoldable pub unregister_user : List ℕ → Game → Game
unfolding unregister_id find_nick
unregister_user nick g =
    unregister_id (str_nick nick) (find_nick (str_nick nick) g.gamers_by_nick) g
