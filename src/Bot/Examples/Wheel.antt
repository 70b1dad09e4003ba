-- ===== src/Bot/Examples/Wheel.antt =====
-- Amounts in hundredths of a credit, and a small table of the roulette, to which its theorems are applied.
use tusa.Common.{
  ℕ, ◌+◌, ◌*◌, ◌/◌, ◌≡◌, refl, List, [], ◌∷◌, ◌++◌, true, false, length, arith, if◌then◌else◌,
}
use tusa.Common.{◌==◌, All}
use tusa.Common.Maps.{find, member}
use tusa.Common.Dicts.{lookup, same_string}
use mathlib.Core.Option.{none, some}
use tusa.Bot.Texts.{split_tok, join, atoi}
use tusa.Bot.Texts.Split.{IsToken, split_tok-join, split_tok-IsToken, kept, concat}
use tusa.Bot.Roulette.State.{
  Money, num, odd, Pay, User, Stawka, accepting_stakes, throw_ball, Table, get_user,
}
use tusa.Bot.Roulette.Wheel.{settle_stake, add_total, settle}
use tusa.Bot.Roulette.Wheel.Payout.{pockets, odds, settle_stake-pockets}
use tusa.Bot.Roulette.Wheel.Owed.{owed, all_stakes, settle-owed}
use tusa.Bot.Roulette.Round.{check_state}
use tusa.Bot.Roulette.Round.Phases.{is_late, next_phase, check_state-phase}
use tusa.Bot.Roulette.Bets.{numbers, read_nums}
use tusa.Bot.Roulette.Bets.Numbers.{IsNumber, read_nums-IsNumber}
use tusa.Bot.Roulette.Reply.{confirm}
use tusa.Bot.Roulette.Reply.Stakes.{stakes_of, stakes_for, confirm-stakes}
use tusa.Bot.Roulette.Command.{eui_user}
use tusa.Bot.Roulette.Command.Known.{IsKnown, eui_user-IsKnown}

-- Credits are whole here.
abbrev credits : Money ℕ
credits = record {
  add = λ x y. x + y;
  times = λ x k. x * k;
  split = λ x n. x / n;
  is_at_most_zero = λ x. x == 0;
  is_small = λ x. x == 0;
  same = λ x y. x == y;
  atof = λ s. 100 * atoi s;
}

abbrev anna : List ℕ
anna = 65 ∷ []

-- Two numbers for six credits, for which the server has been asked.
abbrev bet : Pay ℕ
bet = record { id = 1; type_ = num; nums = 7 ∷ 33 ∷ []; summa = 600 }

abbrev player : User ℕ
player = record { gender = 0; login = anna; nick = anna; unreg = false; pays = (1, bet) ∷ [] }

abbrev seven : Stawka ℕ
seven = record { login = anna; summa = 100; tip = num; number = 7 }

abbrev on_odd : Stawka ℕ
on_odd = record { login = anna; summa = 50; tip = odd; number = 0 }

abbrev table : Table ℕ
table = record {
  users = (anna, 5) ∷ [];
  heap = (5, player) ∷ [];
  stawki = (anna, seven ∷ on_odd ∷ []) ∷ [];
  game_started = true;
  game_state = throw_ball;
  next_stoptime = 1000;
  next_hint_time = 990;
  stakes_count = 2;
  last_id = 1;
  cttu_nicks = [];
  sent = [];
}

-- A comma and a space between two words
split_tok-join_example :
    split_tok (44 ∷ 32 ∷ []) (join (44 ∷ 32 ∷ []) (anna ∷ (66 ∷ 67 ∷ []) ∷ []))
    ≡ anna ∷ (66 ∷ 67 ∷ []) ∷ []
unfolding member
split_tok-join_example =
    split_tok-join (44 ∷ 32 ∷ []) (44 ∷ 32 ∷ []) (anna ∷ (66 ∷ 67 ∷ []) ∷ []) (omega arith)
      (refl, (refl, tt)) ((omega arith, (refl, tt)), ((omega arith, (refl, (refl, tt))), tt))

split_tok-IsToken_example :
    All (IsToken (32 ∷ [])) (split_tok (32 ∷ []) (32 ∷ 65 ∷ 32 ∷ []))
    × (concat (split_tok (32 ∷ []) (32 ∷ 65 ∷ 32 ∷ [])) ≡ kept (32 ∷ []) (32 ∷ 65 ∷ 32 ∷ []))
split_tok-IsToken_example = split_tok-IsToken (32 ∷ []) (32 ∷ 65 ∷ 32 ∷ [])

settle_stake-pockets_example :
    (settle_stake credits 7 on_odd []
      ≡ (if member 7 (pockets odd 0) then add_total credits anna 100 [] else []))
    × (odds odd * length (pockets odd 0) ≡ 36)
unfolding odds
settle_stake-pockets_example = settle_stake-pockets credits 7 on_odd [] (omega arith)

settle-owed_example :
    lookup anna (settle credits 7 table table.stawki [])
    ≡ owed credits 7 table anna (all_stakes credits table.stawki) none
settle-owed_example = settle-owed credits 7 table anna (omega arith)

-- The stake on 7 and that on odd both win.
both_win : owed credits 7 table anna (all_stakes credits table.stawki) none ≡ some 3700
unfolding owed all_stakes get_user pockets odds member same_string
both_win = refl

check_state-phase_example : (check_state credits 1010 81 table).game_state ≡ (
    if table.stakes_count == 0
    then accepting_stakes
    else if is_late credits 1010 table
    then next_phase throw_ball
    else throw_ball)
check_state-phase_example = check_state-phase credits 1010 81 table refl

-- `!1-3,7 5`
abbrev message : List ℕ
message = 33 ∷ 49 ∷ 45 ∷ 51 ∷ 44 ∷ 55 ∷ 32 ∷ 53 ∷ []

-- `1-3` and `7`
abbrev tokens : List (List ℕ)
tokens = (49 ∷ 45 ∷ 51 ∷ []) ∷ (55 ∷ []) ∷ []

read_tokens : read_nums tokens [] ≡ numbers (1 ∷ 2 ∷ 3 ∷ 7 ∷ [])
unfolding read_nums
read_tokens = refl

read_nums-IsNumber_example : All IsNumber (1 ∷ 2 ∷ 3 ∷ 7 ∷ [])
read_nums-IsNumber_example = read_nums-IsNumber tokens (1 ∷ 2 ∷ 3 ∷ 7 ∷ []) read_tokens

-- `6`
abbrev six : List ℕ
six = 54 ∷ []

known : lookup anna table.users ≡ some 5
unfolding lookup same_string
known = refl

found : find 5 table.heap ≡ some player
unfolding find
found = refl

placed : find 1 player.pays ≡ some bet
unfolding find
placed = refl

right_sum : credits.same (credits.atof six) 600 ≡ true
unfolding atoi
right_sum = refl

confirm-stakes_example :
    ((j : List ℕ)
      → stakes_of j (confirm credits anna six 1 table).stawki ≡ (
          if same_string anna j
          then stakes_of anna table.stawki ++ stakes_for credits anna bet
          else stakes_of j table.stawki))
    × ((confirm credits anna six 1 (confirm credits anna six 1 table)).stawki
        ≡ (confirm credits anna six 1 table).stawki)
confirm-stakes_example =
    confirm-stakes credits anna six 5 player bet table known found placed right_sum

eui_user-IsKnown_example : IsKnown (66 ∷ []) anna (eui_user (66 ∷ []) anna 6 table)
eui_user-IsKnown_example = eui_user-IsKnown (66 ∷ []) anna 6 table
