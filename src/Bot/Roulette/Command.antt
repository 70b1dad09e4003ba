-- ===== src/Bot/Roulette/Command.antt =====
-- process_command of bot/bot-roulette/game.cpp and what it calls for a user who joins. check_for_flood is left
-- out, which keeps its own lists and only sends.
pub mod Known
use tusa.Common.{ℕ, List, [], ◌∷◌, Bool, true, false, ◌&&◌, ◌||◌, not, map}
use tusa.Common.{ltb, ◌==◌, if◌then◌else◌, length, get_or}
use tusa.Common.Maps.{Map, find, update, at_key}
use tusa.Common.Dicts.{Dict, lookup, at_name, same_string}
use mathlib.Core.Option.{Option, none, some}
use tusa.Bot.Texts.{field, has_word, strex, is_digit, parse_strmap}
use tusa.Bot.Roulette.State.{
  Money, Tip, odd, even, p1, p2, d1, d2, d3, User, closed, eui, Table, send, tell,
}
use tusa.Bot.Words.{
  nick_key, join_word, nick_word, uttc_word, cttu_word, eui_word, privmsg_word, login_key,
  help_words, odd_words, even_words, d1_words, d2_words, d3_words, p1_words, p2_words, stakes_words,
  start_words,
}
use tusa.Bot.Roulette.Round.{is_accepting}
use tusa.Bot.Roulette.Bets.{ask_user, do_num_stawka, do_odd_even_stawka}
use tusa.Bot.Roulette.Reply.{do_uttc_reply}

pub record Command : Type 0 where
  pub fromnick : List ℕ
  pub cmd : List ℕ
  pub msg : List ℕ

-- What the loop over users has found for a login
pub record Found (A : Type 0) : Type 0 where
  pub table : Table A
  pub is_found : Bool

module _ {A : Type 0} where
  -- users[nick]=i->second and its nick
  unfoldable pub take_over : List ℕ → List ℕ → ℕ → Option (User A) → Found A → Found A
  unfolding same_string at_name update
  take_over nick login a none f = f
  take_over nick login a (some u) f =
      if same_string u.login login
      then record {
        table = record f.table {
          users = at_name nick a (λ b. a) f.table.users;
          heap = update a (λ w. record w { nick = nick }) f.table.heap;
        };
        is_found = true;
      }
      else f

  -- The user that stands under a key when the loop comes to it
  unfoldable pub visit : List ℕ → List ℕ → Option ℕ → Found A → Found A
  unfolding take_over find
  visit nick login none f = f
  visit nick login (some a) f = take_over nick login a (find a f.table.heap) f

  unfoldable pub visit_all : List ℕ → List ℕ → Dict ℕ → Found A → Found A
  unfolding visit lookup
  visit_all nick login [] f = f
  visit_all nick login ((k, b) ∷ users) f =
      visit_all nick login users (visit nick login (lookup k f.table.users) f)

  -- user::user
  unfoldable pub new_user : User A
  new_user = record { gender = 0; login = []; nick = []; unreg = true; pays = [] }

  -- users[nick]=new user, at the address that new returns
  unfoldable pub add_user : List ℕ → ℕ → Table A → Table A
  unfolding at_name at_key new_user
  add_user nick a t = record t {
    users = at_name nick a (λ b. a) t.users;
    heap = at_key a new_user (λ u. new_user) t.heap;
  }

  -- The fields of users[nick]. The gender is atoi("GENDER"), which is 0.
  unfoldable pub set_fields : List ℕ → List ℕ → Option ℕ → Table A → Table A
  unfolding update
  set_fields nick login none t = t
  set_fields nick login (some a) t = record t {
    heap =
        update a (λ u. record u { login = login; gender = 0; unreg = false; nick = nick }) t.heap;
  }

  unfoldable pub eui_user : List ℕ → List ℕ → ℕ → Table A → Table A
  unfolding visit_all add_user set_fields lookup
  eui_user nick login a t =
      let f = visit_all nick login t.users (record { table = t; is_found = false }) in
      let u = if f.is_found then f.table else add_user nick a f.table in
      set_fields nick login (lookup nick u.users) u

  unfoldable pub eui_reply : List ℕ → ℕ → Table A → Table A
  unfolding parse_strmap field eui_user
  eui_reply msg a t =
      let r = parse_strmap msg in eui_user (field nick_key r) (field login_key r) a t

  -- `self` is params["NICKNAME"].
  unfoldable pub on_greeting : List ℕ → List ℕ → Table A → Table A
  unfolding same_string lookup send
  on_greeting self nick t =
      if same_string nick self
      then t
      else elim (lookup nick t.users) [ none ↦ send (eui nick) t | some a ↦ t ]

  -- users[cmd.cmd]=u and u->nick=cmd.fromnick
  unfoldable pub change_nick : Command → Table A → Table A
  unfolding lookup at_name update
  change_nick c t = elim (lookup c.fromnick t.users) [
    | none ↦ t
    | some a ↦ record t {
      users = at_name c.cmd a (λ b. a) t.users;
      heap = update a (λ u. record u { nick = c.fromnick }) t.heap;
    }
  ]

module _ {A : Type 0} (m : Money A) where
  unfoldable pub do_stawki : List ℕ → Table A → Table A
  unfolding tell is_accepting lookup ask_user
  do_stawki nick t =
      if not (is_accepting m t)
      then tell nick closed t
      else elim (lookup nick t.users) [ none ↦ ask_user m nick t | some a ↦ t ]

  unfoldable pub tip_if : List (List ℕ) → Tip → Command → Table A → Table A
  unfolding has_word do_odd_even_stawka
  tip_if words tip c t =
      if has_word c.msg words then do_odd_even_stawka m tip c.fromnick c.msg t else t

  unfoldable pub num_if : Command → Table A → Table A
  unfolding do_num_stawka
  num_if c t =
      if ltb 2 (length c.msg) && get_or c.msg 0 0 == 33 && is_digit (get_or c.msg 1 0)
      then do_num_stawka m c.fromnick c.msg t
      else t

  unfoldable pub start : Table A → Table A
  start t = if not t.game_started then record t { game_started = true } else t

  unfoldable pub privmsg : Command → Table A → Table A
  unfolding has_word num_if tip_if do_stawki start
  privmsg c t =
      if has_word c.msg help_words
      then t
      else (let t1 = tip_if even_words even c (tip_if odd_words odd c (num_if c t)) in
          let t2 = tip_if d3_words d3 c (tip_if d2_words d2 c (tip_if d1_words d1 c t1)) in
          let t3 = tip_if p2_words p2 c (tip_if p1_words p1 c t2) in
          let t4 = if has_word c.msg stakes_words then do_stawki c.fromnick t3 else t3 in
          if has_word c.msg start_words then start t4 else t4)

  -- `a` is the address that new would return. A CTTU_REPLY is only shown to the player.
  unfoldable pub process_command : List ℕ → ℕ → Command → Table A → Table A
  unfolding same_string on_greeting change_nick do_uttc_reply eui_reply privmsg
  process_command self a c t =
      if same_string c.cmd join_word
      then on_greeting self c.fromnick t
      else if same_string c.cmd nick_word
      then change_nick c t
      else if same_string c.cmd uttc_word
      then do_uttc_reply m c.msg t
      else if same_string c.cmd eui_word
      then eui_reply c.msg a t
      else if same_string c.cmd privmsg_word
      then privmsg c t
      else t
