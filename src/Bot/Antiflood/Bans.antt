-- ===== src/Bot/Antiflood/Bans.antt =====
-- When check_for_ban of bot/bot-shared/antiflood.cpp bans.
use tusa.Common.{ℕ, ◌+◌, ◌%◌, ◌^◌, ◌<◌, ◌≡◌, refl, List, [], ◌∷◌, ◌++◌, true, false}
use tusa.Common.{ltb, ◌==◌, if◌then◌else◌, arith, Bool-cases, inl, inr}
use tusa.Common.Dicts.{
  Dict, lookup, at_name, or_else, remove, same_string_refl, lookup-at_name, lookup-remove,
}
use mathlib.Core.Option.{Option, none, some}
use tusa.Bot.Antiflood.{CheckEntry, new_entry, ban, Lists, count, check_for_ban}

-- The kicks of a login
abbrev pub kicks_of : List ℕ → Lists → ℕ
kicks_of login l = count (lookup login l.kicks)

-- A kick more
abbrev kicked : ℕ → CheckEntry → CheckEntry
kicked now e = record e { cnt = (e.cnt + 1) % 2 ^ 32; last_time = now }

count-or_else : (o : Option CheckEntry) → (or_else o new_entry).cnt ≡ count o
count-or_else none = refl
count-or_else (some e) = refl

count-at_name :
    (now : ℕ) (login : List ℕ) (m : Dict CheckEntry)
    → count (lookup login m) < 100
    → count (lookup login (at_name login new_entry (kicked now) m)) ≡ count (lookup login m) + 1
count-at_name now login m h =
    let e = count-or_else (lookup login m) in
    rw (lookup-at_name login login new_entry (kicked now) m, same_string_refl login, e)
      (omega arith)

count-remove : (login : List ℕ) (m : Dict CheckEntry) → count (lookup login (remove login m)) ≡ 0
count-remove login m = rw (lookup-remove login login m, same_string_refl login) refl

-- A login is banned at its third kick, and then starts from none; at the first and the second the kick is
-- counted and nothing is sent.
pub check_for_ban-third :
    (now : ℕ) (nick login : List ℕ) (l : Lists)
    → kicks_of login l < 3
    → ((check_for_ban now nick login l).sent
        ≡ (if kicks_of login l == 2 then l.sent ++ ban nick ∷ [] else l.sent))
      × (kicks_of login (check_for_ban now nick login l)
          ≡ (if kicks_of login l == 2 then 0 else kicks_of login l + 1))
unfolding check_for_ban
check_for_ban-third now nick login l h =
    let k = at_name login new_entry (kicked now) l.kicks in
    let e = count-at_name now login l.kicks (omega arith) in
    elim (Bool-cases (kicks_of login l == 2)) [
      | inl d ↦
          let t : ltb 2 (count (lookup login k)) ≡ true = ground (arith, e) in
          rw (d, t) (refl, count-remove login k)
      | inr d ↦
          let t : ltb 2 (count (lookup login k)) ≡ false = ground (arith, e) in rw (d, t) (refl, e)
    ]
