-- ===== src/Bot/Quiz/Hints.antt =====
-- The hints and the time of a question in check_state of bot/bot-quiz-oscar/game.cpp.
use tusa.Common.{
  ℕ, ◌+◌, ◌≤◌, ◌<◌, ◌≡◌, refl, ◌∙◌, ap, List, [], ◌∷◌, ◌++◌, Bool, true, not, ◌&&◌, ◌||◌,
}
use tusa.Common.{
  All, if◌then◌else◌, sym, append-nil, append_assoc, ltb, leb, ◌==◌, length, take, arith, if-both,
  if-false,
}
use mathlib.Core.Path.{subst}
use mathlib.Core.Option.{Option}
use tusa.Bot.Quiz.{
  Said, hint, time_over, Quiz, say, first_hint, hint_length, second_hint, end_question, later,
  ask_row, check_state, time_limit,
}

hint_length-lt : (n : ℕ) → 2 < n → hint_length n < n
unfolding hint_length
hint_length-lt n h = ground arith

hint_length-le : (n : ℕ) → 1 < n → (1 ≤ hint_length n) × (hint_length n ≤ n)
unfolding hint_length
hint_length-le n h = ground arith

-- From the fields that the end of a question depends on: the game goes on, and the question is open.
unfoldable open_after : ℕ → (Bool × Bool) × (ℕ × ℕ) → Bool × Bool
open_after now ((g, o), (t, n)) =
    let is_in_time = ltb now (t + time_limit) in
    (g && (not o || is_in_time || not (n == 0)), o && is_in_time)

-- A proper part of the answer, from its beginning
abbrev pub IsHint : List ℕ → Said → Type 0
IsHint answer s = (k : ℕ) × (s ≡ hint (take k answer)) × (k < length answer)

-- Only hints have been said since.
abbrev pub OnlyHints : List ℕ → List Said → List Said → Type 0
OnlyHints answer old new = (hs : List Said) × (new ≡ old ++ hs) × All (IsHint answer) hs

-- Only hints have been said since, and then what `last` has.
abbrev pub HintsThen : List ℕ → List Said → List Said → List Said → Type 0
HintsThen answer old last new =
    (hs : List Said) × (new ≡ (old ++ hs) ++ last) × All (IsHint answer) hs

none_said : (answer : List ℕ) (old : List Said) → OnlyHints answer old old
none_said answer old = ([], sym (append-nil old), tt)

one_said :
    (answer : List ℕ) (old : List Said) (k : ℕ)
    → k < length answer
    → OnlyHints answer old (old ++ hint (take k answer) ∷ [])
one_said answer old k h = (hint (take k answer) ∷ [], refl, ((k, refl, h), tt))

All-both :
    (answer : List ℕ) (u v : List Said)
    → All (IsHint answer) u
    → All (IsHint answer) v
    → All (IsHint answer) (u ++ v)
All-both answer [] v h k = k
All-both answer (s ∷ u) v (t, h) k = (t, All-both answer u v h k)

said_both :
    (answer : List ℕ) (a b c : List Said)
    → OnlyHints answer a b
    → OnlyHints answer b c
    → OnlyHints answer a c
said_both answer a b c (u, p, h) (v, e, k) =
    (u ++ v, e ∙ ap (λ l. l ++ v) p ∙ append_assoc a u v, All-both answer u v h k)

module _ {R : Type 0} where
  -- What the end of a question depends on
  abbrev clock : Quiz R → (Bool × Bool) × (ℕ × ℕ)
  clock q = ((q.game_started, q.question_asked), (q.question_asked_time, q.answers_count))

  clock-first_hint : (now : ℕ) (q : Quiz R) → clock (first_hint now q) ≡ clock q
  unfolding first_hint say
  clock-first_hint now q = ground arith

  clock-second_hint : (now : ℕ) (q : Quiz R) → clock (second_hint now q) ≡ clock q
  unfolding second_hint say
  clock-second_hint now q = ground arith

  end_question-open :
      (now : ℕ) (q : Quiz R)
      → ((end_question now q).game_started, (end_question now q).question_asked)
        ≡ open_after now (clock q)
  unfolding end_question open_after
  end_question-open now q = ground arith

  later-open :
      (now : ℕ) (q : Quiz R)
      → ((later now q).game_started, (later now q).question_asked) ≡ open_after now (clock q)
  unfolding later
  later-open now q =
      end_question-open now (second_hint now (first_hint now q))
      ∙ ap (open_after now) (clock-second_hint now (first_hint now q) ∙ clock-first_hint now q)

  open_clock :
      (now : ℕ) (q : Quiz R)
      → q.game_started ≡ true
      → q.question_asked ≡ true
      → open_after now (clock q) ≡ (
        ltb now (q.question_asked_time + time_limit) || not (q.answers_count == 0),
        ltb now (q.question_asked_time + time_limit),
      )
  unfolding open_after
  open_clock now q g o = ground (arith, g, o)

  check_state-later :
      (now : ℕ) (row : Option (List ℕ × List ℕ)) (q : Quiz R)
      → q.game_started ≡ true
      → q.question_asked ≡ true
      → check_state now row q ≡ later now q
  unfolding check_state
  check_state-later now row q g o =
      if-false (not q.game_started) q _ (ground (arith, g))
      ∙ if-false (leb q.next_question_time now && not q.question_asked) (ask_row now row q)
          (later now q) (ground (arith, o))

  -- While a question is open in a game that has been started, a run of check_state leaves it open for less than
  -- 55 seconds from its time, and ends it then; and the game goes on, unless this ends a question that nobody has answered.
  pub check_state-open :
      (now : ℕ) (row : Option (List ℕ × List ℕ)) (q : Quiz R)
      → q.game_started ≡ true
      → q.question_asked ≡ true
      → ((check_state now row q).question_asked ≡ ltb now (q.question_asked_time + time_limit))
        × ((check_state now row q).game_started
            ≡ (ltb now (q.question_asked_time + time_limit) || not (q.answers_count == 0)))
  check_state-open now row q g o =
      let e : check_state now row q ≡ later now q = check_state-later now row q g o in
      let p =
        ap (λ (s : Quiz R). (s.game_started, s.question_asked)) e
        ∙ later-open now q
        ∙ open_clock now q g o in
      (ap (λ s. s.1) p, ap (λ s. s.0) p)

  -- What a run of a hint does: the answer stays, and only hints are said.
  abbrev IsHinting : Quiz R → Quiz R → Type 0
  IsHinting q h = (h.answer ≡ q.answer) × OnlyHints q.answer q.said h.said

  first_hint-IsHinting :
      (now : ℕ) (q : Quiz R) → 2 < length q.answer → IsHinting q (first_hint now q)
  unfolding first_hint say
  first_hint-IsHinting now q e =
      if-both (IsHinting q)
        (q.question_asked && leb (q.question_asked_time + 10) now && not q.hint1) _ q
        (if-both (IsHinting q) (ltb 1 (length q.answer)) _ (record q { hint1 = true })
          (refl, one_said q.answer q.said 1 (omega arith)) (refl, none_said q.answer q.said))
        (refl, none_said q.answer q.said)

  second_hint-IsHinting :
      (now : ℕ) (q : Quiz R) → 2 < length q.answer → IsHinting q (second_hint now q)
  unfolding second_hint say
  second_hint-IsHinting now q e =
      if-both (IsHinting q)
        (q.question_asked && leb (q.question_asked_time + 30) now && not q.hint2) _ q
        (if-both (IsHinting q) (ltb 1 (length q.answer)) _ (record q { hint2 = true })
          (
            refl,
            one_said q.answer q.said (hint_length (length q.answer))
                (hint_length-lt (length q.answer) e),
          )
          (refl, none_said q.answer q.said))
        (refl, none_said q.answer q.said)

  -- What is said of the end of a question whose time is over
  abbrev pub last_word : ℕ → Quiz R → List Said
  last_word now q =
      if ltb now (q.question_asked_time + time_limit)
      then []
      else time_over (not (q.answers_count == 0)) ∷ []

  said-end_question :
      (now : ℕ) (q : Quiz R)
      → q.question_asked ≡ true
      → (end_question now q).said ≡ q.said ++ last_word now q
  unfolding end_question say
  said-end_question now q o = ground (arith, o, append-nil q.said)

  last_word-hints :
      (now : ℕ) (q : Quiz R) → last_word now (second_hint now (first_hint now q)) ≡ last_word now q
  last_word-hints now q =
      ap
        (λ (c : (Bool × Bool) × (ℕ × ℕ)).
          (if ltb now (c.1.0 + time_limit) then [] else time_over (not (c.1.1 == 0)) ∷ []))
        (clock-second_hint now (first_hint now q) ∙ clock-first_hint now q)

  hints-IsHinting :
      (now : ℕ) (q : Quiz R)
      → 2 < length q.answer
      → IsHinting q (second_hint now (first_hint now q))
  hints-IsHinting now q e =
      let (p, s) = first_hint-IsHinting now q e in
      let f = first_hint now q in
      let (r, t) = second_hint-IsHinting now f (subst (λ a. 2 < length a) (sym p) e) in
      (
        r ∙ p,
        said_both q.answer q.said f.said (second_hint now f).said s
            (subst (λ a. OnlyHints a f.said (second_hint now f).said) p t),
      )

  -- While a question is open in a game that has been started, all that a run of check_state says are hints, each a proper part of the
  -- answer from its beginning, if the answer has three bytes or more; and at last, just if the 55 seconds of the question are
  -- over, that they are, with a next question if there has been an answer.
  pub check_state-OnlyHints :
      (now : ℕ) (row : Option (List ℕ × List ℕ)) (q : Quiz R)
      → q.game_started ≡ true
      → q.question_asked ≡ true
      → 2 < length q.answer
      → HintsThen q.answer q.said (last_word now q) (check_state now row q).said
  unfolding later
  check_state-OnlyHints now row q g o e =
      let s = second_hint now (first_hint now q) in
      let c : clock s ≡ clock q =
        clock-second_hint now (first_hint now q) ∙ clock-first_hint now q in
      let (hs, p, h) = (hints-IsHinting now q e).1 in
      (
        hs,
        ap (λ (t : Quiz R). t.said) (check_state-later now row q g o)
            ∙ said-end_question now s (ap (λ t. t.0.1) c ∙ o)
            ∙ ap (λ l. s.said ++ l) (last_word-hints now q)
            ∙ ap (λ l. l ++ last_word now q) p,
        h,
      )
