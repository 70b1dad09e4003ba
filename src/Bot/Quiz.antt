-- ===== src/Bot/Quiz.antt =====
-- bot/bot-quiz-oscar: the quiz, its globals as one record, check_state and check_answer of game.cpp. A pointer
-- to a user is an address in the heap. The tables of the database are parameters: `row` is what a select
-- of the next question gives, and Ratings has the queries of quiz_rating. WITH_BANK is not defined.
pub mod Command
pub mod Prizes
pub mod Hints
use tusa.Common.{ℕ, ◌+◌, ◌-◌, ◌*◌, ◌/◌, ◌%◌, ◌^◌, List, [], ◌∷◌, ◌++◌, Bool, true, false, not, ◌&&◌}
use tusa.Common.{ltb, leb, ◌==◌, if◌then◌else◌, length, take}
use tusa.Common.Maps.{Map, find}
use tusa.Common.Dicts.{Dict, lookup, same_string}
use mathlib.Core.Option.{Option, none, some}
use tusa.Bot.Nicks.{strupper}

abbrev pub hint_1_time : ℕ
hint_1_time = 10

abbrev pub hint_2_time : ℕ
hint_2_time = 30

abbrev pub time_limit : ℕ
time_limit = 55

abbrev pub question_period : ℕ
question_period = 7

-- The score of a login, 0 where there is no row; a new row with the score 1; and a row's new score.
pub record Ratings (R : Type 0) : Type 0 where
  pub score : List ℕ → R → ℕ
  pub insert_one : List ℕ → R → R
  pub set_score : List ℕ → ℕ → R → R

pub record User : Type 0 where
  pub gender : ℕ
  pub login : List ℕ
  pub unreg : Bool

-- What the bot says or asks: EUI of a nick, the question, a hint, that the time is over and whether there is a
-- next question, the praise for a nick with the answer, its seconds and the score, and CTTU of the prize.
pub data Said : Type 0 where
  eui : List ℕ → Said
  asked : List ℕ → ℕ → Said
  hint : List ℕ → Said
  time_over : Bool → Said
  well_done : List ℕ → List ℕ → ℕ → ℕ → Said
  prize : List ℕ → Said

pub record Quiz (R : Type 0) : Type 0 where
  pub game_started : Bool
  pub next_question_time : ℕ
  pub question_asked : Bool
  pub question_asked_time : ℕ
  pub answers_count : ℕ
  pub hint1 : Bool
  pub hint2 : Bool
  pub question : List ℕ
  pub answer : List ℕ
  pub users : Dict ℕ
  pub heap : Map User
  pub rating : R
  pub said : List Said

-- int ll=answer.size() / 3; if(ll<2 && answer.size()>1) ll=2;
unfoldable pub hint_length : ℕ → ℕ
hint_length n = let ll = n / 3 in if ltb ll 2 && ltb 1 n then 2 else ll

module _ {R : Type 0} where
  unfoldable pub say : Said → Quiz R → Quiz R
  say s q = record q { said = q.said ++ s ∷ [] }

  unfoldable pub ask_question : Quiz R → Quiz R
  unfolding say
  ask_question q = say (asked q.question (length q.answer)) q

  -- A new question and its answer
  unfoldable pub new_question : ℕ → List ℕ → List ℕ → Quiz R → Quiz R
  unfolding ask_question
  new_question now question answer q = ask_question (record q {
    question = question;
    answer = answer;
    hint1 = false;
    hint2 = false;
    question_asked = true;
    question_asked_time = now;
    answers_count = 0;
  })

  unfoldable pub first_hint : ℕ → Quiz R → Quiz R
  unfolding say
  first_hint now q =
      if q.question_asked && leb (q.question_asked_time + hint_1_time) now && not q.hint1
      then (let h = record q { hint1 = true } in
          if ltb 1 (length q.answer) then say (hint (take 1 q.answer)) h else h)
      else q

  unfoldable pub second_hint : ℕ → Quiz R → Quiz R
  unfolding say hint_length
  second_hint now q =
      if q.question_asked && leb (q.question_asked_time + hint_2_time) now && not q.hint2
      then (let h = record q { hint2 = true } in
          if ltb 1 (length q.answer)
          then say (hint (take (hint_length (length q.answer)) q.answer)) h
          else h)
      else q

  -- Without an answer to the last question the game ends.
  unfoldable pub end_question : ℕ → Quiz R → Quiz R
  unfolding say
  end_question now q =
      if q.question_asked && leb (q.question_asked_time + time_limit) now
      then (let e = record q {
        question_asked = false;
        next_question_time = now + question_period;
      } in
          if q.answers_count == 0
          then say (time_over false) (record e { game_started = false })
          else say (time_over true) e)
      else q

  unfoldable pub later : ℕ → Quiz R → Quiz R
  unfolding first_hint second_hint end_question
  later now q = end_question now (second_hint now (first_hint now q))

  -- A select that does not give a question and an answer throws.
  unfoldable pub ask_row : ℕ → Option (List ℕ × List ℕ) → Quiz R → Quiz R
  unfolding new_question later
  ask_row now none q = q
  ask_row now (some (question, answer)) q = later now (new_question now question answer q)

  unfoldable pub check_state : ℕ → Option (List ℕ × List ℕ) → Quiz R → Quiz R
  unfolding ask_row later
  check_state now row q =
      if not q.game_started
      then q
      else if leb q.next_question_time now && not q.question_asked
      then ask_row now row q
      else later now q

module _ {R : Type 0} (r : Ratings R) where
  -- score++, as an int, or 1
  unfoldable pub new_score : List ℕ → R → ℕ
  new_score login t = if r.score login t == 0 then 1 else (r.score login t + 1) % 2 ^ 32

  unfoldable pub add_score : List ℕ → R → R
  unfolding new_score
  add_score login t =
      if r.score login t == 0 then r.insert_one login t else r.set_score login (new_score login t) t

  -- int sec=time(NULL)-question_asked_time
  abbrev seconds : ℕ → ℕ → ℕ
  seconds now asked_time = (now + 2 ^ 32 - asked_time % 2 ^ 32) % 2 ^ 32

  -- The answer of a user who is known
  unfoldable pub judge : ℕ → List ℕ → List ℕ → User → Quiz R → Quiz R
  unfolding same_string strupper add_score new_score say
  judge now nick ans u q =
      if same_string (strupper q.answer) (strupper ans)
      then (let sec = seconds now q.question_asked_time in
          let score = new_score u.login q.rating in
          say (prize nick) (
            say (well_done nick q.answer sec score) (record q {
              question_asked = false;
              rating = add_score u.login q.rating;
              next_question_time = now + question_period;
            })))
      else q

  unfoldable pub judge_at : ℕ → List ℕ → List ℕ → Option User → Quiz R → Quiz R
  unfolding judge
  judge_at now nick ans none q = q
  judge_at now nick ans (some u) q = judge now nick ans u q

  -- `self` is params["NICKNAME"].
  unfoldable pub check_answer : List ℕ → ℕ → List ℕ → List ℕ → Quiz R → Quiz R
  unfolding same_string lookup find judge_at say
  check_answer self now nick ans q =
      if not q.question_asked
      then q
      else if same_string nick self
      then q
      else (let c = record q { answers_count = (q.answers_count + 1) % 2 ^ 32 } in
          elim (lookup nick q.users) [
            | none ↦ say (eui nick) c
            | some a ↦ judge_at now nick ans (find a q.heap) c
          ])
