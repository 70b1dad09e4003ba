-- ===== src/Bot/Roulette/Wheel/Payout.antt =====
-- What check_state of bot/bot-roulette/game.cpp pays for a stake, by the pockets that the stake covers.
use tusa.Common.{ℕ, zero, suc, ◌+◌, ◌*◌, ◌<◌, ◌≡◌, refl, sym, List, [], ◌∷◌, Bool, true, false}
use tusa.Common.{if◌then◌else◌, length, all_below, all_below-lt, arith}
use tusa.Common.Maps.{member}
use tusa.Common.Dicts.{Dict}
use tusa.Bot.Roulette.State.{Money, Tip, num, odd, even, p1, p2, d1, d2, d3, Stawka}
use tusa.Bot.Roulette.Wheel.{flags_of, add_total, settle_stake}

-- `n` numbers from `a` on, `d` apart
unfoldable pub run : ℕ → ℕ → ℕ → List ℕ
run a d zero = []
run a d (suc n) = a ∷ run (a + d) d n

-- The pockets of the wheel that a stake covers.
unfoldable pub pockets : Tip → ℕ → List ℕ
unfolding run
pockets num k = k ∷ []
pockets odd k = run 1 2 18
pockets even k = run 2 2 18
pockets p1 k = run 1 1 18
pockets p2 k = run 19 1 18
pockets d1 k = run 1 1 12
pockets d2 k = run 13 1 12
pockets d3 k = run 25 1 12

unfoldable pub odds : Tip → ℕ
odds num = 36
odds odd = 2
odds even = 2
odds p1 = 2
odds p2 = 2
odds d1 = 3
odds d2 = 3
odds d3 = 3

fair_odds : (tip : Tip) (k : ℕ) → odds tip * length (pockets tip k) ≡ 36
unfolding odds pockets run
fair_odds num k = refl
fair_odds odd k = refl
fair_odds even k = refl
fair_odds p1 k = refl
fair_odds p2 k = refl
fair_odds d1 k = refl
fair_odds d2 k = refl
fair_odds d3 k = refl

abbrev same_bool : Bool → Bool → Bool
same_bool true b = b
same_bool false true = false
same_bool false false = true

same_bool_eq : (a b : Bool) → same_bool a b ≡ true → a ≡ b
same_bool_eq true true h = refl
same_bool_eq true false h = cc
same_bool_eq false true h = cc
same_bool_eq false false h = refl

-- The flag that a tip other than a number reads.
unfoldable flag : Tip → ℕ → Bool
unfolding flags_of
flag num ball = false
flag odd ball = (flags_of ball).is_odd
flag even ball = (flags_of ball).is_even
flag p1 ball = (flags_of ball).is_1p
flag p2 ball = (flags_of ball).is_2p
flag d1 ball = (flags_of ball).is_1d
flag d2 ball = (flags_of ball).is_2d
flag d3 ball = (flags_of ball).is_3d

abbrev agrees : Tip → ℕ → Bool
agrees tip ball = same_bool (member ball (pockets tip 0)) (flag tip ball)

odd_flags : all_below (agrees odd) 37 ≡ true
unfolding all_below member pockets run flag flags_of
odd_flags = refl

even_flags : all_below (agrees even) 37 ≡ true
unfolding all_below member pockets run flag flags_of
even_flags = refl

p1_flags : all_below (agrees p1) 37 ≡ true
unfolding all_below member pockets run flag flags_of
p1_flags = refl

p2_flags : all_below (agrees p2) 37 ≡ true
unfolding all_below member pockets run flag flags_of
p2_flags = refl

d1_flags : all_below (agrees d1) 37 ≡ true
unfolding all_below member pockets run flag flags_of
d1_flags = refl

d2_flags : all_below (agrees d2) 37 ≡ true
unfolding all_below member pockets run flag flags_of
d2_flags = refl

d3_flags : all_below (agrees d3) 37 ≡ true
unfolding all_below member pockets run flag flags_of
d3_flags = refl

covered :
    (tip : Tip) (ball : ℕ)
    → all_below (agrees tip) 37 ≡ true
    → ball < 37
    → flag tip ball ≡ member ball (pockets tip 0)
covered tip ball h e = sym (
    same_bool_eq (member ball (pockets tip 0)) (flag tip ball)
      (all_below-lt (agrees tip) 37 ball h e))

module _ {A : Type 0} (m : Money A) where
  -- What a stake on a tip leaves of the winnings.
  abbrev paid : ℕ → Stawka A → Dict A → Dict A
  paid ball s wins =
      if member ball (pockets s.tip s.number)
      then add_total m s.login (m.times s.summa (odds s.tip)) wins
      else wins

  settle_tip :
      (tip : Tip) (ball k : ℕ) (login : List ℕ) (x : A) (wins : Dict A)
      → ball < 37
      → settle_stake m ball (record { login = login; summa = x; tip = tip; number = k }) wins
        ≡ paid ball (record { login = login; summa = x; tip = tip; number = k }) wins
  unfolding settle_stake pockets odds member flag
  settle_tip num ball k login x wins e = ground arith
  settle_tip odd ball k login x wins e =
      let c : (flags_of ball).is_odd ≡ member ball (pockets odd k) = covered odd ball odd_flags e in
      ground (arith, c)
  settle_tip even ball k login x wins e =
      let c : (flags_of ball).is_even ≡ member ball (pockets even k) =
        covered even ball even_flags e in
      ground (arith, c)
  settle_tip p1 ball k login x wins e =
      let c : (flags_of ball).is_1p ≡ member ball (pockets p1 k) = covered p1 ball p1_flags e in
      ground (arith, c)
  settle_tip p2 ball k login x wins e =
      let c : (flags_of ball).is_2p ≡ member ball (pockets p2 k) = covered p2 ball p2_flags e in
      ground (arith, c)
  settle_tip d1 ball k login x wins e =
      let c : (flags_of ball).is_1d ≡ member ball (pockets d1 k) = covered d1 ball d1_flags e in
      ground (arith, c)
  settle_tip d2 ball k login x wins e =
      let c : (flags_of ball).is_2d ≡ member ball (pockets d2 k) = covered d2 ball d2_flags e in
      ground (arith, c)
  settle_tip d3 ball k login x wins e =
      let c : (flags_of ball).is_3d ≡ member ball (pockets d3 k) = covered d3 ball d3_flags e in
      ground (arith, c)

  -- When the ball lies in one of the 37 pockets, check_state adds to the winnings of a stake's login the
  -- stake times its odds if the stake covers the pocket, and nothing else; and the odds times the
  -- number of pockets covered are 36, whatever the stake is on.
  pub settle_stake-pockets :
      (ball : ℕ) (s : Stawka A) (wins : Dict A)
      → ball < 37
      → (settle_stake m ball s wins ≡ (
          if member ball (pockets s.tip s.number)
          then add_total m s.login (m.times s.summa (odds s.tip)) wins
          else wins))
        × (odds s.tip * length (pockets s.tip s.number) ≡ 36)
  settle_stake-pockets ball s wins e =
      (settle_tip s.tip ball s.number s.login s.summa wins e, fair_odds s.tip s.number)
