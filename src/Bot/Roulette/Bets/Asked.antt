-- ===== src/Bot/Roulette/Bets/Asked.antt =====
-- What a bet of bot/bot-roulette/game.cpp leads to.
use tusa.Common.{ℕ, ◌≡◌, List, [], ◌∷◌, ◌++◌, true, false}
use tusa.Common.Maps.{update}
use tusa.Common.Dicts.{lookup}
use mathlib.Core.Option.{Option, none, some}
use tusa.Bot.Roulette.State.{Money, Pay, Notice, rejoin, eui, uttc, told, Table, next_id}
use tusa.Bot.Roulette.Round.{is_accepting}
use tusa.Bot.Roulette.Bets.{put_pay}

module _ {A : Type 0} (m : Money A) where
  -- The stakes and the phase stay.
  abbrev pub IsSameGame : Table A → Table A → Type 0
  IsSameGame t u =
      (u.stawki ≡ t.stawki) × (u.game_state ≡ t.game_state) × (u.stakes_count ≡ t.stakes_count)

  -- A bet is refused with one notice to the player; or the player, who is not known, is asked for;
  -- or, while stakes are accepted, the server is asked for a sum that is not <= 0, and the bet of this sum, type and
  -- id stands among the player's.
  pub data Bet (nick : List ℕ) (t u : Table A) : Type 0 where
    refused : (n : Notice) → u.heap ≡ t.heap → u.sent ≡ t.sent ++ told nick n ∷ [] → Bet nick t u
    unknown :
        lookup nick t.users ≡ none
        → u.heap ≡ t.heap
        → u.sent ≡ (t.sent ++ told nick rejoin ∷ []) ++ eui nick ∷ []
        → Bet nick t u
    asked :
        (a : ℕ) (p : Pay A)
        → lookup nick t.users ≡ some a
        → is_accepting m t ≡ true
        → m.is_at_most_zero p.summa ≡ false
        → p.id ≡ next_id t.last_id
        → u.last_id ≡ p.id
        → u.heap ≡ update a (put_pay p) t.heap
        → u.sent ≡ t.sent ++ uttc nick p.summa p.type_ p.id ∷ []
        → Bet nick t u

  abbrev pub IsBet : List ℕ → Table A → Table A → Type 0
  IsBet nick t u = Bet nick t u × IsSameGame t u
