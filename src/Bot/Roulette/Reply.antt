-- ===== src/Bot/Roulette/Reply.antt =====
-- do_UTTC_REPLY of bot/bot-roulette/game.cpp: the answer of the server to a request for credits.
pub mod Stakes
use tusa.Common.{ℕ, ◌+◌, ◌%◌, ◌^◌, List, [], ◌∷◌, ◌++◌, Bool, not}
use tusa.Common.{◌==◌, if◌then◌else◌, length}
use tusa.Common.Maps.{Map, find, erase, update}
use tusa.Common.Dicts.{Dict, lookup, or_else, same_string}
use mathlib.Core.Option.{Option, none, some}
use tusa.Bot.Texts.{field, parse_strmap, atoi}
use tusa.Bot.Roulette.State.{
  Money, Tip, num, Pay, User, Stawka, Notice, not_enough_credits, unknown_error, not_found,
  other_sum, accepted, Table, tell, user_of, add_stawka,
}
use tusa.Bot.Words.{nick_key, summa_key, cookie_key, status_key, error_key, ok, no_credits}
use tusa.Bot.Roulette.Wheel.{is_tip}
use tusa.Bot.Roulette.Bets.{ask_user}

module _ {A : Type 0} (m : Money A) where
  -- A stake on each of the numbers
  unfoldable pub stake_numbers :
      List ℕ → A → List ℕ → Dict (List (Stawka A)) → Dict (List (Stawka A))
  unfolding add_stawka
  stake_numbers login sum1 [] st = st
  stake_numbers login sum1 (i ∷ nums) st =
      stake_numbers login sum1 nums
        (add_stawka (record { login = login; summa = sum1; tip = num; number = i }) st)

  unfoldable pub stake_pay : List ℕ → Pay A → Dict (List (Stawka A)) → Dict (List (Stawka A))
  unfolding stake_numbers add_stawka
  stake_pay login p st =
      if is_tip p.type_ num
      then stake_numbers login (m.split p.summa (length p.nums)) p.nums st
      else add_stawka (record { login = login; summa = p.summa; tip = p.type_; number = 0 }) st

  -- u->pays.erase(p.id)
  unfoldable pub drop_pay : ℕ → User A → User A
  unfolding erase
  drop_pay i u = record u { pays = erase i u.pays }

  -- The bet is staked, if the sum is that of the bet.
  unfoldable pub accept : List ℕ → ℕ → List ℕ → User A → Option (Pay A) → Table A → Table A
  unfolding tell update stake_pay drop_pay
  accept nick a summa u none t = tell nick not_found t
  accept nick a summa u (some p) t =
      if not (m.same (m.atof summa) p.summa)
      then tell nick other_sum t
      else tell nick accepted (record t {
        stawki = stake_pay u.login p t.stawki;
        heap = update a (drop_pay p.id) t.heap;
      })

  -- The user at the address, and the bet of the cookie
  unfoldable pub accept_at : List ℕ → List ℕ → ℕ → ℕ → Option (User A) → Table A → Table A
  unfolding accept find
  accept_at nick summa i a none t = t
  accept_at nick summa i a (some u) t = accept nick a summa u (find i u.pays) t

  -- A reply with the status OK
  unfoldable pub confirm : List ℕ → List ℕ → ℕ → Table A → Table A
  unfolding lookup ask_user accept_at find
  confirm nick summa i t =
      let u = record t { stakes_count = (t.stakes_count + 1) % 2 ^ 32 } in
      elim (lookup nick t.users) [
        | none ↦ ask_user m nick u
        | some a ↦ accept_at nick summa i a (find a t.heap) u
      ]

  unfoldable pub do_uttc_reply : List ℕ → Table A → Table A
  unfolding parse_strmap field same_string tell confirm atoi
  do_uttc_reply msg t =
      let r = parse_strmap msg in
      let nick = field nick_key r in
      if not (same_string (field status_key r) ok)
      then tell nick
          (if same_string (field error_key r) no_credits then not_enough_credits else unknown_error)
          t
      else confirm nick (field summa_key r) (atoi (field cookie_key r)) t
