-- ===== src/Bot/Roulette/Reply/Stakes.antt =====
-- The stakes that a reply of the server makes of a bet of bot/bot-roulette/game.cpp.
use tusa.Common.{
  ℕ, ◌+◌, ◌%◌, ◌^◌, ◌≡◌, refl, ◌∙◌, ap, List, [], ◌∷◌, ◌++◌, map, append-nil, append_assoc, true,
}
use tusa.Common.{if◌then◌else◌, length, Bool-cases, inl, inr, arith, equal_self}
use tusa.Common.Maps.{find, update, find-update, find-erase}
use tusa.Common.Dicts.{
  Dict, lookup, or_else, same_string, same_string_refl, same_string_eq, lookup-at_name,
}
use mathlib.Core.Option.{none, some}
use tusa.Bot.Roulette.State.{Money, num, Pay, User, Stawka, accepted, Table, tell, send, add_stawka}
use tusa.Bot.Roulette.Wheel.{is_tip}
use tusa.Bot.Roulette.Reply.{stake_numbers, stake_pay, drop_pay, accept, accept_at, confirm}

module _ {A : Type 0} where
  -- The stakes of a login
  abbrev pub stakes_of : List ℕ → Dict (List (Stawka A)) → List (Stawka A)
  stakes_of login st = or_else (lookup login st) []

  stakes_of-add_stawka :
      (j : List ℕ) (s : Stawka A) (st : Dict (List (Stawka A)))
      → stakes_of j (add_stawka s st)
        ≡ (if same_string s.login j then stakes_of s.login st ++ s ∷ [] else stakes_of j st)
  unfolding add_stawka
  stakes_of-add_stawka j s st =
      rw (lookup-at_name j s.login [] (λ v. v ++ s ∷ []) st) (ground arith)

  -- A bet of one sum on numbers, as stakes
  abbrev number_stake : List ℕ → A → ℕ → Stawka A
  number_stake login x i = record { login = login; summa = x; tip = num; number = i }

module _ {A : Type 0} (m : Money A) where
  -- The stakes that a bet is: one on each of its numbers with an equal part of the sum, or one with
  -- the whole sum.
  abbrev pub stakes_for : List ℕ → Pay A → List (Stawka A)
  stakes_for login p =
      if is_tip p.type_ num
      then map (number_stake login (m.split p.summa (length p.nums))) p.nums
      else record { login = login; summa = p.summa; tip = p.type_; number = 0 } ∷ []

  -- Stakes that join those of a login
  abbrev joined : List ℕ → List ℕ → List (Stawka A) → Dict (List (Stawka A)) → List (Stawka A)
  joined j login v st = if same_string login j then stakes_of login st ++ v else stakes_of j st

  step :
      (j login : List ℕ) (s : Stawka A) (v : List (Stawka A)) (st st1 : Dict (List (Stawka A)))
      → stakes_of login st1 ≡ stakes_of login st ++ s ∷ []
      → stakes_of j st1 ≡ joined j login (s ∷ []) st
      → joined j login v st1 ≡ joined j login (s ∷ v) st
  step j login s v st st1 e f = elim (Bool-cases (same_string login j)) [
    | inl d ↦ rw (d, e, append_assoc (stakes_of login st) (s ∷ []) v) refl
    | inr d ↦ rw (d, f, d) refl
  ]

  stakes_of-stake_numbers :
      (j login : List ℕ) (x : A) (nums : List ℕ) (st : Dict (List (Stawka A)))
      → stakes_of j (stake_numbers m login x nums st)
        ≡ joined j login (map (number_stake login x) nums) st
  unfolding stake_numbers
  stakes_of-stake_numbers j login x [] st = elim (Bool-cases (same_string login j)) [
    | inl e ↦
        let q : login ≡ j = same_string_eq login j e in
        rw (e, append-nil (stakes_of login st), q) refl
    | inr e ↦ rw e refl
  ]
  stakes_of-stake_numbers j login x (i ∷ nums) st =
      let s : Stawka A = number_stake login x i in
      let st1 = add_stawka s st in
      let one : stakes_of login st1 ≡ stakes_of login st ++ s ∷ [] =
        stakes_of-add_stawka login s st
        ∙ ap (λ b. if b then stakes_of login st ++ s ∷ [] else stakes_of login st)
            (same_string_refl login) in
      stakes_of-stake_numbers j login x nums st1
      ∙ step j login s (map (number_stake login x) nums) st st1 one (stakes_of-add_stawka j s st)

  stakes_of-stake_pay :
      (j login : List ℕ) (p : Pay A) (st : Dict (List (Stawka A)))
      → stakes_of j (stake_pay m login p st) ≡ joined j login (stakes_for login p) st
  unfolding stake_pay
  stakes_of-stake_pay j login p st = elim (Bool-cases (is_tip p.type_ num)) [
    | inl e ↦ rw e (stakes_of-stake_numbers j login (m.split p.summa (length p.nums)) p.nums st)
    | inr e ↦ rw e (
        stakes_of-add_stawka j
          (record { login = login; summa = p.summa; tip = p.type_; number = 0 }) st)
  ]

  -- The state in which a confirmed bet has become stakes.
  unfoldable staked : ℕ → User A → Pay A → Table A → Table A
  staked a u p t = record t {
    stakes_count = (t.stakes_count + 1) % 2 ^ 32;
    stawki = stake_pay m u.login p t.stawki;
    heap = update a (drop_pay m p.id) t.heap;
  }

  confirm-staked :
      (nick summa : List ℕ) (i a : ℕ) (u : User A) (p : Pay A) (t : Table A)
      → lookup nick t.users ≡ some a
      → find a t.heap ≡ some u
      → find i u.pays ≡ some p
      → m.same (m.atof summa) p.summa ≡ true
      → confirm m nick summa i t ≡ tell nick accepted (staked a u p t)
  unfolding confirm accept_at accept staked
  confirm-staked nick summa i a u p t h k l e =
      rw (confirm, h, k, accept_at, l, accept, e, staked) refl

  confirm-missing :
      (nick summa : List ℕ) (i a : ℕ) (u : User A) (t : Table A)
      → lookup nick t.users ≡ some a
      → find a t.heap ≡ some u
      → find i u.pays ≡ none
      → (confirm m nick summa i t).stawki ≡ t.stawki
  unfolding confirm accept_at accept tell send
  confirm-missing nick summa i a u t h k l = rw (confirm, h, k, accept_at, l) refl

  find-dropped : (i : ℕ) (u : User A) → find i (drop_pay m i u).pays ≡ none
  unfolding drop_pay
  find-dropped i u = rw (find-erase i i u.pays, equal_self i) refl

  find-staked :
      (a : ℕ) (u : User A) (p : Pay A) (t : Table A)
      → find a t.heap ≡ some u
      → find a (staked a u p t).heap ≡ some (drop_pay m p.id u)
  unfolding staked
  find-staked a u p t k = rw (find-update a a (drop_pay m p.id) t.heap, equal_self a, k) refl

  -- A confirmed bet of a player becomes its stakes, behind those that the player's login had, and no other login's stakes
  -- change; and the same reply a second time changes no stake. The player has the address a, the bet p stands
  -- under its id in the player's bets, and the sum of the reply is that of the bet.
  pub confirm-stakes :
      (nick summa : List ℕ) (a : ℕ) (u : User A) (p : Pay A) (t : Table A)
      → lookup nick t.users ≡ some a
      → find a t.heap ≡ some u
      → find p.id u.pays ≡ some p
      → m.same (m.atof summa) p.summa ≡ true
      → ((j : List ℕ)
          → stakes_of j (confirm m nick summa p.id t).stawki ≡ (
              if same_string u.login j
              then stakes_of u.login t.stawki ++ stakes_for u.login p
              else stakes_of j t.stawki))
        × ((confirm m nick summa p.id (confirm m nick summa p.id t)).stawki
            ≡ (confirm m nick summa p.id t).stawki)
  unfolding staked tell send
  confirm-stakes nick summa a u p t h k l e =
      let c = confirm-staked nick summa p.id a u p t h k l e in
      (
        λ j. rw c (stakes_of-stake_pay j u.login p t.stawki),
        rw c (
            confirm-missing nick summa p.id a (drop_pay m p.id u)
              (tell nick accepted (staked a u p t)) h (find-staked a u p t k)
              (find-dropped p.id u)),
      )
