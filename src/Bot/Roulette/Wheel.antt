-- ===== src/Bot/Roulette/Wheel.antt =====
-- The part of check_state of bot/bot-roulette/game.cpp that throws the ball and adds up the winnings.
pub mod Payout
pub mod Owed
use tusa.Common.{ℕ, ◌+◌, ◌*◌, ◌%◌, ◌^◌, ◌≡◌, List, [], ◌∷◌, ◌++◌, Bool, true, false, ◌&&◌, ◌||◌}
use tusa.Common.{ltb, leb, ◌==◌, if◌then◌else◌}
use tusa.Common.Maps.{Map, find, at_key}
use tusa.Common.Dicts.{Dict, has_name, at_name, change, insert}
use mathlib.Core.Option.{Option, none, some}
use tusa.Bot.Roulette.State.{
  Money, Tip, num, odd, even, p1, p2, d1, d2, d3, Stawka, User, Table, Line, winners, nobody_won,
  lost_all, congratulated, cttu, send, tell, get_user, next_id,
}

pub record Flags : Type 0 where
  pub is_odd : Bool
  pub is_even : Bool
  pub is_1p : Bool
  pub is_2p : Bool
  pub is_1d : Bool
  pub is_2d : Bool
  pub is_3d : Bool

unfoldable pub flags_of : ℕ → Flags
flags_of ball =
    let f : Flags = record {
      is_odd = ball % 2 == 1;
      is_even = ball % 2 == 0;
      is_1p = leb 1 ball && leb ball 18;
      is_2p = leb 19 ball && leb ball 36;
      is_1d = leb 1 ball && leb ball 12;
      is_2d = leb 13 ball && leb ball 24;
      is_3d = leb 25 ball && leb ball 36;
    } in
    if ball == 0
    then record f {
      is_odd = false;
      is_even = false;
      is_1p = false;
      is_2p = false;
      is_1d = false;
      is_2d = false;
      is_3d = false;
    }
    else f

abbrev pub tip_number : Tip → ℕ
tip_number num = 0
tip_number odd = 1
tip_number even = 2
tip_number p1 = 3
tip_number p2 = 4
tip_number d1 = 5
tip_number d2 = 6
tip_number d3 = 7

abbrev pub is_tip : Tip → Tip → Bool
is_tip s t = tip_number s == tip_number t

module _ {A : Type 0} (m : Money A) where
  -- tot[login] += x, or the first entry
  unfoldable pub add_total : List ℕ → A → Dict A → Dict A
  unfolding has_name change insert
  add_total login x tot =
      if has_name login tot then change login (λ v. m.add v x) tot else insert login x tot

  -- One stake, its three tests one after the other.
  unfoldable pub settle_stake : ℕ → Stawka A → Dict A → Dict A
  unfolding add_total flags_of
  settle_stake ball s wins =
      let f = flags_of ball in
      let w1 =
        if is_tip s.tip num && ball == s.number
        then add_total s.login (m.times s.summa 36) wins
        else wins in
      let w2 =
        if is_tip s.tip odd && f.is_odd
          || is_tip s.tip even && f.is_even
          || is_tip s.tip p1 && f.is_1p
          || is_tip s.tip p2 && f.is_2p
        then add_total s.login (m.times s.summa 2) w1
        else w1 in
      if is_tip s.tip d1 && f.is_1d || is_tip s.tip d2 && f.is_2d || is_tip s.tip d3 && f.is_3d
      then add_total s.login (m.times s.summa 3) w2
      else w2

  -- Only a user who is known has a stake counted.
  unfoldable pub settle_known : ℕ → Option (User A) → Stawka A → Dict A → Dict A
  unfolding settle_stake
  settle_known ball none s wins = wins
  settle_known ball (some u) s wins = settle_stake ball s wins

  -- The loop over i->second
  unfoldable pub settle_list : ℕ → Table A → List (Stawka A) → Dict A → Dict A
  unfolding settle_known get_user
  settle_list ball t [] wins = wins
  settle_list ball t (s ∷ v) wins =
      settle_list ball t v (settle_known ball (get_user s.login t.users t.heap) s wins)

  -- The loop over st, which leaves tot_wins.
  unfoldable pub settle : ℕ → Table A → Dict (List (Stawka A)) → Dict A → Dict A
  unfolding settle_list
  settle ball t [] wins = wins
  settle ball t ((login, v) ∷ st) wins = settle ball t st (settle_list ball t v wins)

  -- The loops over st as they leave tot_stawki.
  unfoldable pub count_known : Option (User A) → Stawka A → Dict A → Dict A
  unfolding add_total
  count_known none s tot = tot
  count_known (some u) s tot = add_total s.login s.summa tot

  unfoldable pub count_list : Table A → List (Stawka A) → Dict A → Dict A
  unfolding count_known get_user
  count_list t [] tot = tot
  count_list t (s ∷ v) tot = count_list t v (count_known (get_user s.login t.users t.heap) s tot)

  unfoldable pub count_stakes : Table A → Dict (List (Stawka A)) → Dict A → Dict A
  unfolding count_list
  count_stakes t [] tot = tot
  count_stakes t ((login, v) ∷ st) tot = count_stakes t st (count_list t v tot)

  -- A winner who is still known is told, and paid under a new id.
  unfoldable pub pay_winner : A → Option (User A) → Table A → Table A
  unfolding at_key send next_id
  pay_winner x none t = t
  pay_winner x (some u) t =
      let c = send (congratulated u.nick x) t in
      let id = next_id c.last_id in
      send (cttu u.nick x id)
        (record c { last_id = id; cttu_nicks = at_key id [] (λ n. u.nick) c.cttu_nicks })

  unfoldable pub pay_winners : Dict A → Table A → Table A
  unfolding pay_winner get_user
  pay_winners [] t = t
  pay_winners ((login, x) ∷ wins) t =
      pay_winners wins (pay_winner x (get_user login t.users t.heap) t)

  -- The winners in swin
  unfoldable pub named : Dict A → Table A → List (List ℕ × A)
  unfolding get_user
  named [] t = []
  named ((login, x) ∷ wins) t = elim (get_user login t.users t.heap) [
    | none ↦ named wins t
    | some u ↦ (u.nick, x) ∷ named wins t
  ]

  unfoldable pub winners_line : Dict A → Table A → Line A
  unfolding named
  winners_line [] t = nobody_won
  winners_line (e ∷ wins) t = winners (named (e ∷ wins) t)

  -- One who has a stake and wins nothing is told.
  unfoldable pub tell_loser : List ℕ → Option (User A) → Dict A → Table A → Table A
  unfolding has_name tell
  tell_loser login none wins t = t
  tell_loser login (some u) wins t = if has_name login wins then t else tell u.nick lost_all t

  unfoldable pub tell_losers : Dict A → Dict A → Table A → Table A
  unfolding tell_loser get_user
  tell_losers [] wins t = t
  tell_losers ((login, x) ∷ tot) wins t =
      tell_losers tot wins (tell_loser login (get_user login t.users t.heap) wins t)
