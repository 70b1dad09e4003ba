-- ===== src/Bot/Roulette/Round/Stakes.antt =====
-- What check_state of bot/bot-roulette/game.cpp does with the stakes and the credits.
use tusa.Common.{ℕ, ◌%◌, List, [], ◌∷◌, ◌++◌}
use tusa.Common.Maps.{Map}
use tusa.Common.Dicts.{Dict}
use mathlib.Core.Option.{Option, none, some}
use tusa.Bot.Roulette.State.{
  Stawka, User, Sent, eui, uttc, cttu, told, congratulated, said, Money, Table, get_user, next_id,
}
use tusa.Bot.Roulette.Wheel.{settle}

module _ {A : Type 0} where
  -- The commands EUI, UTTC and CTTU among what has been sent; the others are words to the players.
  unfoldable pub commands : List (Sent A) → List (Sent A)
  commands [] = []
  commands (eui n ∷ s) = eui n ∷ commands s
  commands (uttc n x y i ∷ s) = uttc n x y i ∷ commands s
  commands (cttu n x i ∷ s) = cttu n x i ∷ commands s
  commands (told n w ∷ s) = commands s
  commands (congratulated n x ∷ s) = commands s
  commands (said l ∷ s) = commands s

  -- The payments for winnings: each login that a user still has is paid its sum, under ids that count on from `id`.
  unfoldable pub paid : Dict ℕ → Map (User A) → Dict A → ℕ → List (Sent A)
  unfolding get_user next_id
  paid users heap [] id = []
  paid users heap ((login, x) ∷ wins) id = elim (get_user login users heap) [
    | none ↦ paid users heap wins id
    | some u ↦ cttu u.nick x (next_id id) ∷ paid users heap wins (next_id id)
  ]

module _ {A : Type 0} (m : Money A) where
  -- The stakes and the commands that have been sent.
  abbrev pub books : Table A → Dict (List (Stawka A)) × List (Sent A)
  books t = (t.stawki, commands t.sent)

  -- The stakes and the commands after the ball.
  unfoldable paid_out : ℕ → Table A → Dict (List (Stawka A)) × List (Sent A)
  paid_out r t =
      ([], commands t.sent ++ paid t.users t.heap (settle m (r % 37) t t.stawki []) t.last_id)
