-- ===== src/Bot/Roulette/Wheel/Owed.antt =====
-- What the loops of check_state of bot/bot-roulette/game.cpp leave in tot_wins for each login.
use tusa.Common.{ℕ, ◌<◌, ◌≡◌, refl, ◌∙◌, sym, ap, List, [], ◌∷◌, ◌++◌, Bool, true, false, ◌&&◌}
use tusa.Common.{if◌then◌else◌, Bool-cases, inl, inr, arith}
use tusa.Common.Maps.{member}
use tusa.Common.Dicts.{
  Dict, same_string, same_string_eq, lookup, has_name, lookup-insert, lookup-missing,
  lookup-present, lookup-changed,
}
use mathlib.Core.Option.{Option, none, some}
use tusa.Bot.Roulette.State.{Money, Stawka, User, Table, get_user}
use tusa.Bot.Roulette.Wheel.{add_total, settle_stake, settle_known, settle_list, settle}
use tusa.Bot.Roulette.Wheel.Payout.{pockets, odds, settle_stake-pockets}

module _ {A : Type 0} (m : Money A) where
  abbrev pub plus : Option A → A → A
  plus none x = x
  plus (some y) x = m.add y x

  lookup-add_total :
      (j k : List ℕ) (x : A) (tot : Dict A)
      → lookup j (add_total m k x tot)
        ≡ (if same_string k j then some (plus (lookup k tot) x) else lookup j tot)
  unfolding add_total
  lookup-add_total j k x tot = elim (Bool-cases (has_name k tot)) [
    | inl e ↦
        let (v, p) = lookup-present k tot e in
        rw (e, lookup-changed j k x (λ v. m.add v x) tot (v, p), p) refl
    | inr e ↦ rw (e, lookup-insert j k x tot e, lookup-missing k tot e) refl
  ]

  abbrev pub is_known : Option (User A) → Bool
  is_known none = false
  is_known (some u) = true

  -- All stakes that a login has, its winnings one after the other: a stake counts if it is the
  -- login's, the login's user is known, and the stake covers the pocket.
  unfoldable pub owed : ℕ → Table A → List ℕ → List (Stawka A) → Option A → Option A
  owed ball t login [] acc = acc
  owed ball t login (s ∷ v) acc =
      let counts =
        is_known (get_user s.login t.users t.heap)
        && same_string s.login login
        && member ball (pockets s.tip s.number) in
      owed ball t login v (if counts then some (plus acc (m.times s.summa (odds s.tip))) else acc)

  unfoldable pub all_stakes : Dict (List (Stawka A)) → List (Stawka A)
  all_stakes [] = []
  all_stakes ((login, v) ∷ st) = v ++ all_stakes st

  settle_stake-lookup :
      (ball : ℕ) (login : List ℕ) (s : Stawka A) (wins : Dict A)
      → ball < 37
      → lookup login (settle_stake m ball s wins) ≡ (
          if same_string s.login login && member ball (pockets s.tip s.number)
          then some (plus (lookup login wins) (m.times s.summa (odds s.tip)))
          else lookup login wins)
  settle_stake-lookup ball login s wins e =
      elim (Bool-cases (member ball (pockets s.tip s.number))) [
        | inl c ↦ elim (Bool-cases (same_string s.login login)) [
          | inl d ↦
              let q : s.login ≡ login = same_string_eq s.login login d in
              rw
                (
                  (settle_stake-pockets m ball s wins e).0,
                  c,
                  lookup-add_total login s.login (m.times s.summa (odds s.tip)) wins,
                  d,
                  q,
                )
                refl
          | inr d ↦
              rw
                (
                  (settle_stake-pockets m ball s wins e).0,
                  c,
                  lookup-add_total login s.login (m.times s.summa (odds s.tip)) wins,
                  d,
                )
                refl
        ]
        | inr c ↦ rw ((settle_stake-pockets m ball s wins e).0, c) (ground arith)
      ]

  settle_known-lookup :
      (ball : ℕ) (login : List ℕ) (o : Option (User A)) (s : Stawka A) (wins : Dict A)
      → ball < 37
      → lookup login (settle_known m ball o s wins) ≡ (
          if is_known o && same_string s.login login && member ball (pockets s.tip s.number)
          then some (plus (lookup login wins) (m.times s.summa (odds s.tip)))
          else lookup login wins)
  unfolding settle_known
  settle_known-lookup ball login none s wins e = refl
  settle_known-lookup ball login (some u) s wins e = settle_stake-lookup ball login s wins e

  settle_list-lookup :
      (ball : ℕ) (t : Table A) (login : List ℕ) (v : List (Stawka A)) (wins : Dict A)
      → ball < 37
      → lookup login (settle_list m ball t v wins) ≡ owed ball t login v (lookup login wins)
  unfolding settle_list owed
  settle_list-lookup ball t login [] wins e = refl
  settle_list-lookup ball t login (s ∷ v) wins e =
      let o = get_user s.login t.users t.heap in
      settle_list-lookup ball t login v (settle_known m ball o s wins) e
      ∙ ap (owed ball t login v) (settle_known-lookup ball login o s wins e)

  owed-append :
      (ball : ℕ) (t : Table A) (login : List ℕ) (u v : List (Stawka A)) (acc : Option A)
      → owed ball t login (u ++ v) acc ≡ owed ball t login v (owed ball t login u acc)
  unfolding owed
  owed-append ball t login [] v acc = refl
  owed-append ball t login (s ∷ u) v acc = owed-append ball t login u v _

  settle-lookup :
      (ball : ℕ) (t : Table A) (login : List ℕ) (st : Dict (List (Stawka A))) (wins : Dict A)
      → ball < 37
      → lookup login (settle m ball t st wins)
        ≡ owed ball t login (all_stakes st) (lookup login wins)
  unfolding settle owed all_stakes
  settle-lookup ball t login [] wins e = refl
  settle-lookup ball t login ((l, v) ∷ st) wins e =
      settle-lookup ball t login st (settle_list m ball t v wins) e
      ∙ ap (owed ball t login (all_stakes st)) (settle_list-lookup ball t login v wins e)
      ∙ sym (owed-append ball t login v (all_stakes st) (lookup login wins))

  -- When the ball lies in one of the 37 pockets, the loops of check_state leave in tot_wins, for every
  -- login, exactly what is owed to it: the sum of its stakes that cover the pocket, each times 36
  -- over the number of pockets that it covers, in the order of the stakes, if its user is known; and no entry
  -- if there is no such stake.
  pub settle-owed :
      (ball : ℕ) (t : Table A) (login : List ℕ)
      → ball < 37
      → lookup login (settle m ball t t.stawki []) ≡ owed ball t login (all_stakes t.stawki) none
  unfolding lookup
  settle-owed ball t login e = settle-lookup ball t login t.stawki [] e
