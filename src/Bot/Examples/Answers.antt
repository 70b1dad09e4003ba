-- ===== src/Bot/Examples/Answers.antt =====
-- A small quiz and lists of kicks, to which the theorems on them are applied.
use tusa.Common.{
  Bool, Bool-cases, inl, inr, if◌then◌else◌, ℕ, ◌≡◌, refl, List, [], ◌∷◌, true, false, arith,
}
use tusa.Common.Maps.{find}
use tusa.Common.Dicts.{
  Dict, lookup, has_name, lookup-at_name, lookup-missing, at_name, or_else, same_string,
}
use mathlib.Core.Option.{none, some}
use tusa.Bot.Nicks.{strupper}
use tusa.Bot.Quiz.{Ratings, User, Quiz, check_state}
use tusa.Bot.Quiz.Hints.{HintsThen, last_word, check_state-OnlyHints}
use tusa.Bot.Quiz.Prizes.{RatingLaws, Given, winner}
use tusa.Bot.Antiflood.{Lists, has_repeats}
use tusa.Bot.Antiflood.Repeats.{has_run, has_repeats-run}

-- The table of scores as a map
abbrev table : Ratings (Dict ℕ)
table = record {
  score = λ login t. or_else (lookup login t) 0;
  insert_one = λ login t. at_name login 1 (λ n. 1) t;
  set_score = λ login n t. at_name login n (λ k. n) t;
}

abbrev bella : List ℕ
bella = 66 ∷ []

abbrev bot : List ℕ
bot = 81 ∷ []

abbrev guest : User
guest = record { gender = 2; login = bella; unreg = false }

-- `ABCDEF`, asked at 100
abbrev quiz : Quiz (Dict ℕ)
quiz = record {
  game_started = true;
  next_question_time = 90;
  question_asked = true;
  question_asked_time = 100;
  answers_count = 0;
  hint1 = true;
  hint2 = false;
  question = 63 ∷ [];
  answer = 65 ∷ 66 ∷ 67 ∷ 68 ∷ 69 ∷ 70 ∷ [];
  users = (bella, 3) ∷ [];
  heap = (3, guest) ∷ [];
  rating = [];
  said = [];
}

-- `abcdef`
abbrev right : List ℕ
right = 97 ∷ 98 ∷ 99 ∷ 100 ∷ 101 ∷ 102 ∷ []

abbrev has_row : List ℕ → Dict ℕ → Bool
has_row login t = has_name login t

abbrev score_of : List ℕ → Dict ℕ → ℕ
score_of login t = or_else (lookup login t) 0

set_row :
    (login k : List ℕ) (n : ℕ) (t : Dict ℕ)
    → score_of k (at_name login n (λ v. n) t) ≡ (if same_string login k then n else score_of k t)
set_row login k n t = elim (Bool-cases (same_string login k)) [
  | inl e ↦ rw (lookup-at_name k login n (λ v. n) t, e) refl
  | inr e ↦ rw (lookup-at_name k login n (λ v. n) t, e) refl
]

abbrev laws : RatingLaws table has_row
laws = record {
  no_row = λ login t h. rw (lookup-missing login t h) refl;
  inserted = λ login k t h. set_row login k 1 t;
  updated = λ login k n t h. set_row login k n t;
}

-- A wrong answer, the right one, and the right one again
abbrev answers : List Given
answers = (110, (bella, bot)) ∷ (120, (bella, right)) ∷ (130, (bella, right)) ∷ []

bella_wins : winner bot quiz.answer quiz.users quiz.heap answers ≡ some (bella, guest)
unfolding winner lookup find strupper
bella_wins = refl

-- The time of the second hint
check_state-OnlyHints_example :
    HintsThen quiz.answer quiz.said (last_word 131 quiz) (check_state 131 none quiz).said
check_state-OnlyHints_example = check_state-OnlyHints 131 none quiz refl refl (omega arith)

abbrev six_words : List (List ℕ)
six_words = bot ∷ bella ∷ bella ∷ bella ∷ bella ∷ bella ∷ bella ∷ []

has_repeats-run_example : has_repeats six_words ≡ has_run 5 six_words
has_repeats-run_example = has_repeats-run six_words

-- A repetition is found.
six_found : has_repeats six_words ≡ true
unfolding has_repeats same_string
six_found = refl

abbrev lists : Lists
lists = record {
  kicks = (bella, record { cnt = 2; last_time = 50; s = [] }) ∷ [];
  last_words = [];
  sent = [];
}
