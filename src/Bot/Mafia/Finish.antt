-- ===== src/Bot/Mafia/Finish.antt =====
-- process_for_end_game of bot/bot-mafia-new/game.cpp, and clear_users of user.cpp, which it calls.
pub mod Verdict
use tusa.Common.{
  ℕ, zero, suc, ◌+◌, ◌-◌, ◌%◌, ◌^◌, List, [], ◌∷◌, ◌++◌, Bool, true, false, not, ◌&&◌, ◌||◌,
}
use tusa.Common.{ltb, leb, ◌==◌, if◌then◌else◌}
use tusa.Common.Maps.{find}
use mathlib.Core.Option.{Option, none, some}
use tusa.Bot.Mafia.State.{
  Role, maf, kat, man, doc, bom, val, mir, is_role, User, Users, ScoreRow, Game, map_users,
  count_users, is_active, add_score,
}

-- rls[r].size(): the users with a role that are in the game.
unfoldable pub alive : Role → Users → ℕ
unfolding count_users
alive r m = count_users (λ u. is_active u && is_role u.role r) m

-- The variables end, winner and draw.
pub record Judgement : Type 0 where
  pub end : Bool
  pub winner : Option Role
  pub draw : Bool

abbrev pub won : Role → Judgement → Judgement
won r j = record j { end = true; winner = some r }

abbrev pub drawn : Judgement → Judgement
drawn j = record j { end = true; draw = true }

-- The six tests on the numbers of the roles, in their order; a later one overwrites the winner.
unfoldable pub judge : (mirs mafs mans kats docs boms : ℕ) → Judgement
judge mirs mafs mans kats docs boms =
    let tmir = mirs + kats + docs + boms in
    let tbad = mafs + mans in
    let j0 : Judgement = record { end = false; winner = none; draw = false } in
    let j1 = if mafs == 0 && mans == 0 then won mir j0 else j0 in
    let j2 = if leb tmir mafs && ltb tmir 3 && kats == 0 then won maf j1 else j1 in
    let j3 = if ltb tmir 2 && ltb 0 mans && mafs == 0 && kats == 0 then won man j2 else j2 in
    let j4 = if mafs == 1 && kats == 1 && tmir == 1 then drawn j3 else j3 in
    let j5 = if mafs == 1 && mans == 1 && ltb tmir 2 then drawn j4 else j4 in
    if mans == 1 && kats == 1 && tmir == 1 && tbad == 1 then drawn j5 else j5

unfoldable pub judge_users : Users → Judgement
unfolding judge alive
judge_users m =
    judge (alive mir m) (alive maf m) (alive man m) (alive kat m) (alive doc m) (alive bom m)

abbrev pub is_winner : Role → Option Role → Bool
is_winner r none = false
is_winner r (some w) = is_role w r

-- sc[role]: the second test of the source's `winner==ROLE_MAF || winner==ROLE_MAF` is the first again.
unfoldable pub final_score : Judgement → Role → ℕ
final_score j r =
    if j.draw
    then (if is_role r val then 0 else 25)
    else if is_winner maf j.winner || is_winner maf j.winner
    then (if is_role r maf || is_role r man then 50 else 0)
    else if is_role r mir || is_role r kat || is_role r doc || is_role r bom
    then 50
    else 0

unfoldable pub reward : Judgement → User → User
unfolding final_score
reward j u =
    if u.marked_for_delete then u else record (add_score (final_score j u.role) u) { win = true }

-- The row that unregister_user adds for a user whose game began.
unfoldable pub score_row : User → List ScoreRow
score_row u =
    if u.need_update
    then record {
      login = u.login;
      win = if u.win then 1 else 0;
      loose = if u.win then 0 else 1;
      score = u.score;
    }
      ∷ []
    else []

-- clear_users: unregister_user for each nick, and both maps are emptied.
unfoldable pub rows_of : List (List ℕ × ℕ) → Users → List ScoreRow
unfolding score_row
rows_of [] m = []
rows_of ((k, i) ∷ nicks) m = elim (find i m) [
  | none ↦ rows_of nicks m
  | some u ↦ score_row u ++ rows_of nicks m
]

unfoldable pub clear_users : Game → Game
unfolding rows_of
clear_users g = record g {
  mafia_score = g.mafia_score ++ rows_of g.gamers_by_nick g.gamers_by_id;
  gamers_by_id = [];
  gamers_by_nick = [];
}

-- CTTU: the score of a user, as a double divided by 200 and multiplied by 10, is the prize.
-- The prize is kept as its twentieths.
pub record Prize : Type 0 where
  pub nick : List ℕ
  pub twentieths : ℕ

unfoldable pub prizes_of : Role → Users → List Prize
prizes_of r [] = []
prizes_of r ((i, u) ∷ m) =
    let rest = prizes_of r m in
    if is_role u.role r then record { nick = u.nick; twentieths = u.score } ∷ rest else rest

-- In the order of rlsabs: by role, and everyone who was in the game.
unfoldable pub prizes : Users → List Prize
unfolding prizes_of
prizes m =
    prizes_of maf m
    ++ (prizes_of kat m
        ++ (prizes_of man m
            ++ (prizes_of doc m ++ (prizes_of bom m ++ (prizes_of val m ++ prizes_of mir m)))))

pub record Finish : Type 0 where
  pub ended : Bool
  pub game : Game
  pub paid : List Prize

unfoldable pub finish_with : Judgement → Game → Finish
unfolding reward map_users clear_users prizes
finish_with j g =
    if j.end
    then (let m = map_users (reward j) g.gamers_by_id in
        let h = clear_users (record g { gamers_by_id = m }) in
        record {
          ended = true;
          paid = prizes m;
          game = record h {
            registration = false;
            roles_assign = false;
            night = false;
            day = false;
            morning = false;
            game_started = false;
          };
        })
    else record { ended = false; game = g; paid = [] }

unfoldable pub process_for_end_game : Game → Finish
unfolding finish_with judge_users
process_for_end_game g = finish_with (judge_users g.gamers_by_id) g
