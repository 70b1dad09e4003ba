-- ===== src/Bot/Antiflood.antt =====
-- bot/bot-shared/antiflood.cpp: who repeats himself is kicked, and banned after the third kick. clean_lists erases
-- an entry from the map that it goes through; here it goes on with the next entry, as it means to.
pub mod Repeats
pub mod Bans
use tusa.Common.{ℕ, ◌+◌, ◌-◌, ◌%◌, ◌^◌, List, [], ◌∷◌, ◌++◌, Bool, true, false, not, ◌&&◌, ◌||◌}
use tusa.Common.{ltb, leb, ◌==◌, if◌then◌else◌, length, take}
use tusa.Common.Dicts.{Dict, lookup, at_name, same_string, remove}
use mathlib.Core.Option.{Option, none, some}
use tusa.Bot.Texts.{split_tok, strstr}

pub record CheckEntry : Type 0 where
  pub cnt : ℕ
  pub last_time : ℕ
  pub s : List ℕ

-- check_entry::check_entry
abbrev pub new_entry : CheckEntry
new_entry = record { cnt = 0; last_time = 0; s = [] }

-- MODE +bi and KICK
pub data Sent : Type 0 where
  ban : List ℕ → Sent
  kick : List ℕ → Sent

pub record Lists : Type 0 where
  pub kicks : Dict CheckEntry
  pub last_words : Dict CheckEntry
  pub sent : List Sent

abbrev pub count : Option CheckEntry → ℕ
count none = 0
count (some e) = e.cnt

unfoldable pub check_for_ban : ℕ → List ℕ → List ℕ → Lists → Lists
unfolding at_name lookup remove
check_for_ban now nick login l =
    let k =
      at_name login new_entry (λ e. record e { cnt = (e.cnt + 1) % 2 ^ 32; last_time = now })
        l.kicks in
    if ltb 2 (count (lookup login k))
    then record l { kicks = remove login k; sent = l.sent ++ ban nick ∷ [] }
    else record l { kicks = k }

-- The entries that are not older than `age`
unfoldable pub recent : ℕ → ℕ → Dict CheckEntry → Dict CheckEntry
recent age now [] = []
recent age now ((k, e) ∷ m) =
    let rest = recent age now m in if ltb (e.last_time + age) now then rest else (k, e) ∷ rest

unfoldable pub clean_lists : ℕ → Lists → Lists
unfolding recent
clean_lists now l = record l {
  kicks = recent 600 now l.kicks;
  last_words = recent 5 now l.last_words;
}

unfoldable pub kick_out : ℕ → List ℕ → Lists → Lists
unfolding check_for_ban
kick_out now nick l =
    let b = check_for_ban now nick nick l in record b { sent = b.sent ++ kick nick ∷ [] }

-- len of the last words that are compared; for less than two bytes it is below zero.
unfoldable pub compared : List ℕ → List ℕ → ℕ
compared lw msg = if ltb (length msg) 2 then length msg else length lw - 1

unfoldable pub is_repeated : List ℕ → List ℕ → Bool
unfolding compared same_string
is_repeated lw msg =
    let len = compared lw msg in ltb 0 len && same_string (take len msg) (take len lw)

-- A word of 50 bytes without a link
unfoldable pub is_long : List ℕ → Bool
unfolding strstr
is_long s =
    leb 50 (length s)
    && not (strstr s (104 ∷ 116 ∷ 116 ∷ 112 ∷ 58 ∷ 47 ∷ 47 ∷ []))
    && not (strstr s (102 ∷ 116 ∷ 112 ∷ 58 ∷ 47 ∷ 47 ∷ []))

unfoldable pub has_long : List (List ℕ) → Bool
unfolding is_long
has_long [] = false
has_long (s ∷ v) = is_long s || has_long v

-- The loop over the words behind the first
unfoldable pub rep_loop : List ℕ → ℕ → List (List ℕ) → Bool
unfolding same_string
rep_loop prev rep [] = false
rep_loop prev rep (w ∷ v) =
    let n = if same_string w prev then rep + 1 else 0 in
    let rest = rep_loop w n v in if ltb 4 n then true else rest

unfoldable pub has_repeats : List (List ℕ) → Bool
unfolding rep_loop
has_repeats [] = false
has_repeats (w ∷ v) = rep_loop w 0 v

-- The message is noted, and its words are looked at.
unfoldable pub check_words : ℕ → List ℕ → List ℕ → Lists → Lists
unfolding at_name has_long has_repeats split_tok kick_out
check_words now nick msg l =
    let n = record l {
      last_words = at_name nick new_entry (λ e. record e { last_time = now; s = msg }) l.last_words;
    } in
    if has_long (split_tok (32 ∷ 44 ∷ 46 ∷ 9 ∷ []) msg)
    then kick_out now nick n
    else if has_repeats (split_tok (32 ∷ 44 ∷ 46 ∷ 9 ∷ 33 ∷ 63 ∷ 95 ∷ []) msg)
    then kick_out now nick n
    else n

-- A message that begins as the last one did
unfoldable pub check_last : ℕ → List ℕ → List ℕ → CheckEntry → Lists → Lists
unfolding is_repeated kick_out check_words remove at_name
check_last now nick msg e l =
    if not (is_repeated e.s msg)
    then check_words now nick msg l
    else if ltb 4 e.cnt
    then kick_out now nick (record l { last_words = remove nick l.last_words })
    else check_words now nick msg (record l {
      last_words =
          at_name nick new_entry (λ d. record d { cnt = (d.cnt + 1) % 2 ^ 32 }) l.last_words;
    })

unfoldable pub check_for_flood : ℕ → List ℕ → List ℕ → Lists → Lists
unfolding clean_lists lookup check_last check_words
check_for_flood now nick msg l =
    let c = clean_lists now l in
    elim (lookup nick c.last_words) [
      | none ↦ check_words now nick msg c
      | some e ↦ check_last now nick msg e c
    ]
