-- ===== src/Bot/Quiz/Prizes.antt =====
-- The prizes and points for the answers to a question in check_answer of bot/bot-quiz-oscar/game.cpp.
use tusa.Common.{ℕ, ◌+◌, ◌%◌, ◌^◌, ◌≡◌, List, [], ◌∷◌, ◌++◌, Bool, true, false, if◌then◌else◌}
use tusa.Common.Maps.{Map, find}
use tusa.Common.Dicts.{Dict, lookup, same_string}
use mathlib.Core.Option.{Option, none, some}
use tusa.Bot.Nicks.{strupper}
use tusa.Bot.Quiz.{
  Ratings, User, Said, prize, eui, asked, hint, time_over, well_done, Quiz, say, add_score,
  judge_at, check_answer,
}

-- What the queries do with quiz_rating: a login without a row has the score 0, a new row has the score 1, and an
-- update changes the row of the login alone. Logins are compared byte by byte.
pub record RatingLaws {R : Type 0} (r : Ratings R) (has_row : List ℕ → R → Bool) : Type 0 where
  pub no_row : (login : List ℕ) (t : R) → has_row login t ≡ false → r.score login t ≡ 0
  pub inserted :
      (login k : List ℕ) (t : R)
      → has_row login t ≡ false
      → r.score k (r.insert_one login t) ≡ (if same_string login k then 1 else r.score k t)
  pub updated :
      (login k : List ℕ) (n : ℕ) (t : R)
      → has_row login t ≡ true
      → r.score k (r.set_score login n t) ≡ (if same_string login k then n else r.score k t)

-- The time, the nick and the text of an answer
abbrev pub Given : Type 0
Given = ℕ × (List ℕ × List ℕ)

-- The nicks that prizes have been given to
unfoldable pub prizes : List Said → List (List ℕ)
prizes [] = []
prizes (eui n ∷ s) = prizes s
prizes (asked q n ∷ s) = prizes s
prizes (hint a ∷ s) = prizes s
prizes (time_over b ∷ s) = prizes s
prizes (well_done n a k i ∷ s) = prizes s
prizes (prize n ∷ s) = n ∷ prizes s

-- Who wins by one answer, and by which user: not the bot itself, nobody who is not known, and only with the answer.
unfoldable pub right_of : List ℕ → List ℕ → List ℕ → Option User → Option (List ℕ × User)
right_of answer nick text none = none
right_of answer nick text (some u) =
    if same_string (strupper answer) (strupper text) then some (nick, u) else none

unfoldable pub at_address : List ℕ → List ℕ → List ℕ → Map User → Option ℕ → Option (List ℕ × User)
unfolding right_of
at_address answer nick text heap none = none
at_address answer nick text heap (some a) = right_of answer nick text (find a heap)

unfoldable pub first : Option (List ℕ × User) → Option (List ℕ × User) → Option (List ℕ × User)
first none v = v
first (some w) v = some w

-- The first of the answers that is right, to the question with this answer and among these users
unfoldable pub winner : List ℕ → List ℕ → Dict ℕ → Map User → List Given → Option (List ℕ × User)
unfolding at_address first
winner self answer users heap [] = none
winner self answer users heap ((now, (nick, text)) ∷ gs) =
    first
      (if same_string nick self then none else at_address answer nick text heap (lookup nick users))
      (winner self answer users heap gs)

abbrev pub won : Option (List ℕ × User) → List (List ℕ)
won none = []
won (some (nick, u)) = nick ∷ []

abbrev pub point : Option (List ℕ × User) → List ℕ → ℕ → ℕ
point none k n = n
point (some (nick, u)) k n = if same_string u.login k then (n + 1) % 2 ^ 32 else n

abbrev pub nobody : Option (List ℕ × User) → Bool
nobody none = true
nobody (some w) = false

module _ {R : Type 0} (r : Ratings R) where
  unfoldable pub answer_all : List ℕ → List Given → Quiz R → Quiz R
  unfolding check_answer
  answer_all self [] q = q
  answer_all self ((now, (nick, text)) ∷ gs) q =
      answer_all self gs (check_answer r self now nick text q)

  -- What the prizes and points depend on
  abbrev View : Type 0
  View = (List ℕ × (Dict ℕ × Map User)) × (R × (Bool × List (List ℕ)))

  abbrev view : Quiz R → View
  view q = ((q.answer, (q.users, q.heap)), (q.rating, (q.question_asked, prizes q.said)))

  Outcome : Quiz R → Option (List ℕ × User) → Quiz R → Type 0
  Outcome q none q' = view q' ≡ view q
  Outcome q (some (nick, u)) q' =
      (prizes q'.said ≡ prizes q.said ++ nick ∷ [])
      × ((q'.rating ≡ add_score r u.login q.rating) × (q'.question_asked ≡ false))

  -- What an answer to an open question does, by any nick but the bot's own
  abbrev noted : ℕ → List ℕ → List ℕ → Quiz R → Quiz R
  noted now nick text q =
      let c = record q { answers_count = (q.answers_count + 1) % 2 ^ 32 } in
      elim (lookup nick q.users) [
        | none ↦ say (eui nick) c
        | some a ↦ judge_at r now nick text (find a q.heap) c
      ]

  module _ (has_row : List ℕ → R → Bool) (laws : RatingLaws r has_row) where
    -- No row has the score 0.
    abbrev pub HasNoZero : R → Type 0
    HasNoZero t = (login : List ℕ) → r.score login t ≡ 0 → has_row login t ≡ false

    Result : View → List ℕ → Option (List ℕ × User) → Quiz R → Type 0
    Result v k w q =
        (prizes q.said ≡ v.1.1.1 ++ won w)
        × (r.score k q.rating ≡ point w k (r.score k v.1.0))
        × (q.question_asked ≡ nobody w)
