-- ===== src/Bot/Roulette/Bets.antt =====
-- do_num_stawka, do_odd_even_stawka and mul_kkk of bot/bot-roulette/game.cpp: a bet that a player sends, up
-- to the request for the credits.
pub mod Asked
pub mod Numbers
use tusa.Common.{ℕ, zero, suc, ◌+◌, ◌-◌, ◌*◌, ◌%◌, ◌^◌, List, [], ◌∷◌, ◌++◌, Bool, not, ◌&&◌, ◌||◌}
use tusa.Common.{ltb, leb, ◌==◌, if◌then◌else◌, length}
use tusa.Common.Maps.{Map, update, at_key, set_insert}
use tusa.Common.Dicts.{lookup}
use mathlib.Core.Option.{Option, none, some}
use tusa.Bot.Texts.{split_tok, atoi}
use tusa.Bot.Roulette.State.{
  Money, Tip, num, Pay, User, Notice, closed, rejoin, bad_format, above_36, not_positive, bad_order,
  too_small, eui, uttc, Table, send, tell, next_id,
}
use tusa.Bot.Roulette.Round.{is_accepting}

-- A comma in an amount is a point.
unfoldable pub points : List ℕ → List ℕ
points [] = []
points (c ∷ s) = (if c == 44 then 46 else c) ∷ points s

-- The k's in an amount. The constants of the two Cyrillic letters have two bytes, and no char is
-- one of them.
unfoldable pub count_k : List ℕ → ℕ
count_k [] = 0
count_k (c ∷ s) = (if c == 107 || c == 75 then 1 else 0) + count_k s

-- What a set of numbers is read to, or the answer to a wrong one.
pub data Parsed : Type 0 where
  wrong : Notice → Parsed
  numbers : List ℕ → Parsed

-- a < b for ints
abbrev pub signed_ltb : ℕ → ℕ → Bool
signed_ltb a b = ltb ((a + 2 ^ 31) % 2 ^ 32) ((b + 2 ^ 31) % 2 ^ 32)

-- for (int j=start;j<=end;j++) nums.insert(j), for `n` numbers
unfoldable pub insert_run : ℕ → ℕ → List ℕ → List ℕ
unfolding set_insert
insert_run start zero nums = nums
insert_run start (suc n) nums = insert_run (start + 1) n (set_insert start nums)

unfoldable pub range : ℕ → ℕ → List ℕ → Parsed
unfolding insert_run
range start end nums =
    if signed_ltb 36 end
    then wrong above_36
    else if signed_ltb start 0
    then wrong not_positive
    else if signed_ltb end start
    then wrong bad_order
    else numbers (insert_run start (end + 1 - start) nums)

-- One token, cut at the dashes
unfoldable pub token : List (List ℕ) → List ℕ → Parsed
unfolding atoi range set_insert
token [] nums = wrong bad_format
token (a ∷ []) nums = numbers (if signed_ltb 36 (atoi a) then nums else set_insert (atoi a) nums)
token (a ∷ b ∷ []) nums = range (atoi a) (atoi b) nums
token (a ∷ b ∷ c ∷ vm) nums = wrong bad_format

-- The loop over vz, which an error ends.
unfoldable pub read_nums : List (List ℕ) → List ℕ → Parsed
unfolding token split_tok
read_nums [] nums = numbers nums
read_nums (z ∷ vz) nums = elim (token (split_tok (45 ∷ []) z) nums) [
  | wrong n ↦ wrong n
  | numbers s ↦ read_nums vz s
]

-- u->pays[p.id]=p
module _ {A : Type 0} where
  unfoldable pub put_pay : Pay A → User A → User A
  unfolding at_key
  put_pay p u = record u { pays = at_key p.id p (λ q. p) u.pays }

module _ {A : Type 0} (m : Money A) where
  unfoldable pub mul_kkk : A → List ℕ → A
  unfolding count_k
  mul_kkk v sm =
      let nk = count_k sm in
      if nk == 1
      then m.times v 1000
      else if nk == 2
      then m.times v 1000000
      else if nk == 3
      then m.times v 1000000000
      else if nk == 4
      then m.times v 1000000000000
      else v

  -- The user keeps the bet, and the server is asked for the credits.
  unfoldable pub ask : List ℕ → ℕ → Pay A → Table A → Table A
  unfolding send put_pay update
  ask nick a p t =
      send (uttc nick p.summa p.type_ p.id) (record t { heap = update a (put_pay p) t.heap })

  -- A bet on numbers that have been read.
  unfoldable pub bet_on : List ℕ → ℕ → List ℕ → Parsed → Table A → Table A
  unfolding tell ask mul_kkk next_id
  bet_on nick a summa (wrong n) t = tell nick n t
  bet_on nick a summa (numbers nums) t =
      let u = record t { last_id = next_id t.last_id } in
      let x = mul_kkk (m.atof summa) summa in
      if m.is_at_most_zero x
      then tell nick bad_format u
      else if m.is_small (m.split x (length nums))
      then tell nick too_small u
      else ask nick a (record { id = next_id t.last_id; type_ = num; nums = nums; summa = x }) u

  unfoldable pub num_bet : List ℕ → ℕ → List (List ℕ) → Table A → Table A
  unfolding tell bet_on points read_nums split_tok
  num_bet nick a [] t = tell nick bad_format t
  num_bet nick a (w ∷ []) t = tell nick bad_format t
  num_bet nick a (w ∷ s ∷ v) t =
      if m.is_at_most_zero (m.atof (points s))
      then tell nick bad_format t
      else bet_on nick a (points s) (read_nums (split_tok (33 ∷ 44 ∷ []) w) []) t

  -- A bet on half of the numbers or a dozen
  unfoldable pub tip_bet : Tip → List ℕ → ℕ → List (List ℕ) → Table A → Table A
  unfolding tell ask points mul_kkk next_id
  tip_bet tip nick a [] t = tell nick bad_format t
  tip_bet tip nick a (w ∷ []) t = tell nick bad_format t
  tip_bet tip nick a (w ∷ s ∷ v) t =
      let u = record t { last_id = next_id t.last_id } in
      let x = mul_kkk (m.atof (points s)) (points s) in
      if m.is_at_most_zero x
      then tell nick bad_format u
      else ask nick a (record { id = next_id t.last_id; type_ = tip; nums = []; summa = x }) u

  -- Who is not in users is to join again.
  unfoldable pub ask_user : List ℕ → Table A → Table A
  unfolding tell send
  ask_user nick t = send (eui nick) (tell nick rejoin t)

  unfoldable pub do_num_stawka : List ℕ → List ℕ → Table A → Table A
  unfolding tell is_accepting lookup ask_user num_bet split_tok
  do_num_stawka nick msg t =
      if not (is_accepting m t) then tell nick closed t else elim (lookup nick t.users) [
        | none ↦ ask_user nick t
        | some a ↦ num_bet nick a (split_tok (32 ∷ []) msg) t
      ]

  unfoldable pub do_odd_even_stawka : Tip → List ℕ → List ℕ → Table A → Table A
  unfolding tell is_accepting lookup ask_user tip_bet split_tok
  do_odd_even_stawka tip nick msg t =
      if not (is_accepting m t) then tell nick closed t else elim (lookup nick t.users) [
        | none ↦ ask_user nick t
        | some a ↦ tip_bet tip nick a (split_tok (32 ∷ []) msg) t
      ]
