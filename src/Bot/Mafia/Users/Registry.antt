-- ===== src/Bot/Mafia/Users/Registry.antt =====
-- The registration of a player and its end.
use tusa.Common.{
  ℕ, ◌+◌, ◌%◌, ◌^◌, ◌≡◌, refl, ◌∙◌, ap, List, [], ◌∷◌, ◌++◌, true, false, ◌||◌, not, append-nil,
}
use tusa.Common.{ltb, ◌==◌, arith, Bool-cases, inl, inr, if-true, if-false, ==_iff}
use tusa.Common.Maps.{find, has_key, erase, update, add_new, find-add_new}
use tusa.Common.Dicts.{same_string, before, same_string_refl}
use mathlib.Core.Option.{none, some}
use tusa.Bot.Nicks.{str_nick}
use tusa.Bot.Mafia.State.{User, Users, Game, ScoreRow}
use tusa.Bot.Mafia.Finish.{score_row}
use tusa.Bot.Mafia.Users.{
  Nicks, find_nick, erase_nick, set_nick, is_registered, new_user, set_user, register_user,
  unregister_id, unregister_user, row_of,
}

erase_nick-missing :
    (k : List ℕ) (nicks : Nicks) → find_nick k nicks ≡ none → erase_nick k nicks ≡ nicks
unfolding find_nick erase_nick
erase_nick-missing k [] h = refl
erase_nick-missing k ((j, i) ∷ nicks) h = elim (Bool-cases (same_string j k)) [
  | inl e ↦ let p : some i ≡ none = rw e at h in cc
  | inr e ↦ rw e (ap (λ r. (j, i) ∷ r) (erase_nick-missing k nicks (rw e at h)))
]

erase_nick-set_nick :
    (k : List ℕ) (i : ℕ) (nicks : Nicks)
    → find_nick k nicks ≡ none
    → erase_nick k (set_nick k i nicks) ≡ nicks
unfolding find_nick erase_nick set_nick
erase_nick-set_nick k i [] h = rw (same_string_refl k) refl
erase_nick-set_nick k i ((j, w) ∷ nicks) h = elim (Bool-cases (same_string j k)) [
  | inl e ↦ let p : some w ≡ none = rw e at h in cc
  | inr e ↦
      let q : find_nick k nicks ≡ none = rw e at h in
      elim (Bool-cases (before k j)) [
        | inl t ↦
            rw (e, t, same_string_refl k, e) (ap (λ r. (j, w) ∷ r) (erase_nick-missing k nicks q))
        | inr t ↦ rw (e, t, e) (ap (λ r. (j, w) ∷ r) (erase_nick-set_nick k i nicks q))
      ]
]

erase-missing : (k : ℕ) (m : Users) → has_key k m ≡ false → erase k m ≡ m
unfolding has_key erase
erase-missing k [] h = refl
erase-missing k ((j, u) ∷ m) h = elim (Bool-cases (j == k)) [
  | inl e ↦ let p : true ≡ false = rw e at h in cc
  | inr e ↦ rw e (ap (λ r. (j, u) ∷ r) (erase-missing k m (rw e at h)))
]

erase-add_new : (k : ℕ) (v : User) (m : Users) → has_key k m ≡ false → erase k (add_new k v m) ≡ m
unfolding has_key erase add_new
erase-add_new k v [] h = rw ((==_iff k k).1 refl) refl
erase-add_new k v ((j, u) ∷ m) h = elim (Bool-cases (j == k)) [
  | inl e ↦ let p : true ≡ false = rw e at h in cc
  | inr e ↦
      let q : has_key k m ≡ false = rw e at h in
      elim (Bool-cases (ltb k j)) [
        | inl t ↦ rw (t, (==_iff k k).1 refl, e) (ap (λ r. (j, u) ∷ r) (erase-missing k m q))
        | inr t ↦ rw (t, e) (ap (λ r. (j, u) ∷ r) (erase-add_new k v m q))
      ]
]

find_nick-set_nick :
    (k : List ℕ) (i : ℕ) (nicks : Nicks) → find_nick k (set_nick k i nicks) ≡ some i
unfolding find_nick set_nick
find_nick-set_nick k i [] = rw (same_string_refl k) refl
find_nick-set_nick k i ((j, w) ∷ nicks) = elim (Bool-cases (same_string j k)) [
  | inl e ↦ rw (e, e) refl
  | inr e ↦ elim (Bool-cases (before k j)) [
    | inl t ↦ rw (e, t, same_string_refl k) refl
    | inr t ↦ rw (e, t, e) (find_nick-set_nick k i nicks)
  ]
]

-- The number that the next player gets.
abbrev pub next_id : Game → ℕ
next_id g = (g.register_counter + 1) % 2 ^ 32

abbrev pub registered : User → List ℕ → List ℕ → ℕ → List ℕ → Game → User
registered raw nick login gender ip g = record (new_user raw) {
  nick = nick;
  login = login;
  id = next_id g;
  gender = gender;
  ip = ip;
}

register_user-adds :
    (raw : User) (nick login : List ℕ) (gender : ℕ) (ip : List ℕ) (g : Game)
    → g.registration ≡ true
    → is_registered login ip g.gamers_by_id ≡ false
    → has_key (next_id g) g.gamers_by_id ≡ false
    → register_user raw nick login gender ip g ≡ record g {
      register_counter = next_id g;
      gamers_by_id = add_new (next_id g) (registered raw nick login gender ip g) g.gamers_by_id;
      gamers_by_nick = set_nick (str_nick nick) (next_id g) g.gamers_by_nick;
    }
unfolding register_user set_user
register_user-adds raw nick login gender ip g r h k =
    let n = next_id g in
    let u = registered raw nick login gender ip g in
    if-false (not g.registration || is_registered login ip g.gamers_by_id) g _
      (ground (arith, r, h))
    ∙ ap
        (λ m. record g {
          register_counter = n;
          gamers_by_id = m;
          gamers_by_nick = set_nick (str_nick nick) n g.gamers_by_nick;
        })
        (if-false (has_key n g.gamers_by_id) (update n (λ w. u) g.gamers_by_id)
          (add_new n u g.gamers_by_id) k)

-- The game with the four members that registration changes.
abbrev with_users : Game → ℕ → List ScoreRow → Users → Nicks → Game
with_users g n rows m nicks = record g {
  register_counter = n;
  mafia_score = rows;
  gamers_by_id = m;
  gamers_by_nick = nicks;
}

-- A user whose game has not begun leaves no row.
unregister_new :
    (g : Game) (n : ℕ) (u : User) (key : List ℕ)
    → u.need_update ≡ false
    → has_key n g.gamers_by_id ≡ false
    → find_nick key g.gamers_by_nick ≡ none
    → unregister_id key (find_nick key (set_nick key n g.gamers_by_nick)) (
        with_users g n g.mafia_score (add_new n u g.gamers_by_id) (set_nick key n g.gamers_by_nick))
      ≡ with_users g n g.mafia_score g.gamers_by_id g.gamers_by_nick
unfolding unregister_id score_row
unregister_new g n u key e h k =
    let nicks = set_nick key n g.gamers_by_nick in
    let m = add_new n u g.gamers_by_id in
    let found : find n m ≡ some u =
      find-add_new n n u g.gamers_by_id h
      ∙ if-true (n == n) (some u) (find n g.gamers_by_id) ((==_iff n n).1 refl) in
    let row : row_of (find n m) ≡ [] = ap (λ o. row_of o) found ∙ if-false u.need_update _ [] e in
    ap (λ o. unregister_id key o (with_users g n g.mafia_score m nicks))
      (find_nick-set_nick key n g.gamers_by_nick)
    ∙ (ap (λ r. with_users g n (g.mafia_score ++ r) (erase n m) (erase_nick key nicks)) row
        ∙ (ap (λ r. with_users g n r (erase n m) (erase_nick key nicks)) (append-nil g.mafia_score)
            ∙ (ap (λ r. with_users g n g.mafia_score r (erase_nick key nicks))
                  (erase-add_new n u g.gamers_by_id h)
                ∙ ap (λ r. with_users g n g.mafia_score g.gamers_by_id r)
                    (erase_nick-set_nick key n g.gamers_by_nick k))))

-- Where the registration is open, and no active user has the login or the address, the nick is free
-- and so is the next number, register_user and then unregister_user of the same nick leave the game as it
-- was, but for the counter of the registrations. No row is added to the scores.
pub unregister_user-register_user :
    (raw : User) (nick login : List ℕ) (gender : ℕ) (ip : List ℕ) (g : Game)
    → g.registration ≡ true
    → is_registered login ip g.gamers_by_id ≡ false
    → has_key (next_id g) g.gamers_by_id ≡ false
    → find_nick (str_nick nick) g.gamers_by_nick ≡ none
    → unregister_user nick (register_user raw nick login gender ip g)
      ≡ record g { register_counter = next_id g }
unfolding unregister_user new_user
unregister_user-register_user raw nick login gender ip g r h k f =
    ap (λ x. unregister_user nick x) (register_user-adds raw nick login gender ip g r h k)
    ∙ unregister_new g (next_id g) (registered raw nick login gender ip g) (str_nick nick) refl k f
