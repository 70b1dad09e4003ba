-- ===== src/Bot/Roulette/Command/Known.antt =====
-- Whom the roulette knows after an answer to EUI: bot/bot-roulette/game.cpp, EUI_REPLY.
use tusa.Common.{ℕ, ◌≡◌, refl, List, [], ◌∷◌, true, false, if◌then◌else◌}
use tusa.Common.{absurd, sym, equal_self, if-cases}
use tusa.Common.Maps.{find, find-update, find-at_key}
use tusa.Common.Dicts.{Dict, lookup, at_name, same_string, same_string_refl, lookup-at_name}
use mathlib.Core.Option.{Option, none, some}
use tusa.Bot.Roulette.State.{User, Table}
use tusa.Bot.Roulette.Command.{
  Found, take_over, visit, visit_all, new_user, add_user, set_fields, eui_user,
}

lookup_new :
    (nick : List ℕ) (a : ℕ) (users : Dict ℕ) → lookup nick (at_name nick a (λ b. a) users) ≡ some a
lookup_new nick a users = rw (lookup-at_name nick nick a (λ b. a) users, same_string_refl nick) refl

module _ {A : Type 0} where
  -- The user that a nick stands for is there.
  abbrev pub HasUser : List ℕ → Table A → Type 0
  HasUser nick t =
      (a : ℕ) × (u : User A) × (lookup nick t.users ≡ some a) × (find a t.heap ≡ some u)

  -- If the loop has found the login, the nick has a user.
  abbrev IsFound : List ℕ → Found A → Type 0
  IsFound nick f = f.is_found ≡ true → HasUser nick f.table

  take_over-IsFound :
      (nick login : List ℕ) (a : ℕ) (o : Option (User A)) (f : Found A)
      → find a f.table.heap ≡ o
      → IsFound nick f
      → IsFound nick (take_over nick login a o f)
  unfolding take_over
  take_over-IsFound nick login a none f e h = h
  take_over-IsFound nick login a (some u) f e h =
      if-cases (IsFound nick) (same_string u.login login) _ f
        (λ d. λ c. (
          a,
          record u { nick = nick },
          lookup_new nick a f.table.users,
          rw (find-update a a (λ w. record w { nick = nick }) f.table.heap, equal_self a, e) refl,
        ))
        (λ d. h)

  visit-IsFound :
      (nick login : List ℕ) (o : Option ℕ) (f : Found A)
      → IsFound nick f
      → IsFound nick (visit nick login o f)
  unfolding visit
  visit-IsFound nick login none f h = h
  visit-IsFound nick login (some a) f h =
      take_over-IsFound nick login a (find a f.table.heap) f refl h

  visit_all-IsFound :
      (nick login : List ℕ) (users : Dict ℕ) (f : Found A)
      → IsFound nick f
      → IsFound nick (visit_all nick login users f)
  unfolding visit_all
  visit_all-IsFound nick login [] f h = h
  visit_all-IsFound nick login ((k, b) ∷ users) f h =
      visit_all-IsFound nick login users (visit nick login (lookup k f.table.users) f)
        (visit-IsFound nick login (lookup k f.table.users) f h)

  add_user-HasUser : (nick : List ℕ) (a : ℕ) (t : Table A) → HasUser nick (add_user nick a t)
  unfolding add_user
  add_user-HasUser nick a t = (
    a,
    new_user,
    lookup_new nick a t.users,
    rw (find-at_key a a new_user (λ u. new_user) t.heap, equal_self a) refl,
  )

  -- The user of a nick has this nick and this login.
  abbrev pub IsKnown : List ℕ → List ℕ → Table A → Type 0
  IsKnown nick login t =
      (a : ℕ) × (u : User A) × (lookup nick t.users ≡ some a)
      × (find a t.heap ≡ some u)
      × (u.nick ≡ nick)
      × (u.login ≡ login)

  set_fields-IsKnown :
      (nick login : List ℕ) (t : Table A)
      → HasUser nick t
      → IsKnown nick login (set_fields nick login (lookup nick t.users) t)
  unfolding set_fields
  set_fields-IsKnown nick login t (a, u, p, q) = rw p (
    a,
    record u { login = login; gender = 0; unreg = false; nick = nick },
    p,
    rw
        (
          find-update a a (λ w. record w { login = login; gender = 0; unreg = false; nick = nick })
              t.heap,
          equal_self a,
          q,
        )
        refl,
    refl,
    refl,
  )

  -- Whatever users the bot knows, after the answer to EUI the user of the nick is known, and has this nick and
  -- this login.
  pub eui_user-IsKnown :
      (nick login : List ℕ) (a : ℕ) (t : Table A) → IsKnown nick login (eui_user nick login a t)
  unfolding eui_user
  eui_user-IsKnown nick login a t =
      let f : Found A = visit_all nick login t.users (record { table = t; is_found = false }) in
      let h : IsFound nick f =
        visit_all-IsFound nick login t.users (record { table = t; is_found = false })
          (λ e. absurd (sym e)) in
      set_fields-IsKnown nick login (if f.is_found then f.table else add_user nick a f.table) (
        if-cases (HasUser nick) f.is_found f.table (add_user nick a f.table) h
          (λ e. add_user-HasUser nick a f.table))
