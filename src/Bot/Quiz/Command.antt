-- ===== src/Bot/Quiz/Command.antt =====
-- process_command of bot/bot-quiz-oscar/game.cpp. check_for_flood is left out, which keeps its own lists and only
-- sends, and so are the places in the rating, which are only shown. The bytes of the words are those of
-- the source, in UTF-8.
use tusa.Common.{ℕ, ◌+◌, List, [], ◌∷◌, Bool, true, false, not, ◌&&◌, ◌||◌}
use tusa.Common.{if◌then◌else◌}
use tusa.Common.Maps.{Map, find, update, at_key}
use tusa.Common.Dicts.{Dict, lookup, at_name, same_string}
use mathlib.Core.Option.{Option, none, some}
use tusa.Bot.Texts.{parse_strmap, atoi, field, has_word}
use tusa.Bot.Words.{
  help_words, nick_key, login_key, gender_key, join_word, nick_word, eui_word, privmsg_word,
  start_words,
}
use tusa.Bot.Quiz.{Ratings, User, eui, Quiz, say, ask_question, question_period, check_answer}

abbrev pub place_words : List (List ℕ)
place_words = (33 ∷ 208 ∷ 178 ∷ 208 ∷ 190 ∷ 208 ∷ 189 ∷ []) ∷ (33 ∷ 100 ∷ 106 ∷ 121 ∷ []) ∷ []

abbrev pub top_words : List (List ℕ)
top_words = (33 ∷ 116 ∷ 111 ∷ 112 ∷ []) ∷ (33 ∷ 209 ∷ 130 ∷ 208 ∷ 190 ∷ 208 ∷ 191 ∷ []) ∷ []

abbrev pub quest_words : List (List ℕ)
quest_words =
    (33 ∷ 113 ∷ 117 ∷ 101 ∷ 115 ∷ 116 ∷ [])
    ∷ (33 ∷ 208 ∷ 178 ∷ 208 ∷ 190 ∷ 208 ∷ 191 ∷ 209 ∷ 128 ∷ 208 ∷ 190 ∷ 209 ∷ 129 ∷ [])
    ∷ []

-- The members of c_command that the quiz reads.
pub record Message : Type 0 where
  pub fromnick : List ℕ
  pub tonick : List ℕ
  pub cmd : List ℕ
  pub msg : List ℕ
  pub ppriv : Bool

-- The loop over users, which comes to each key and reads what stands there then: the users, and
-- whether the login was found.
unfoldable pub visit : List ℕ → List ℕ → Map User → Option ℕ → Dict ℕ × Bool → Dict ℕ × Bool
unfolding find at_name same_string
visit nick login heap none (users, ok) = (users, ok)
visit nick login heap (some a) (users, ok) = elim (find a heap) [
  | none ↦ (users, ok)
  | some u ↦
      if same_string u.login login then (at_name nick a (λ b. a) users, true) else (users, ok)
]

unfoldable pub visit_all : List ℕ → List ℕ → Map User → Dict ℕ → Dict ℕ × Bool → Dict ℕ × Bool
unfolding visit lookup
visit_all nick login heap [] s = s
visit_all nick login heap ((k, b) ∷ keys) s =
    visit_all nick login heap keys (visit nick login heap (lookup k s.0) s)

module _ {R : Type 0} where
  unfoldable pub on_greeting : List ℕ → List ℕ → Quiz R → Quiz R
  unfolding same_string lookup say
  on_greeting self nick q =
      if same_string nick self
      then q
      else elim (lookup nick q.users) [ none ↦ say (eui nick) q | some a ↦ q ]

  -- users[cmd.cmd]=u
  unfoldable pub change_nick : Message → Quiz R → Quiz R
  unfolding lookup at_name
  change_nick c q = elim (lookup c.fromnick q.users) [
    | none ↦ q
    | some a ↦ record q { users = at_name c.cmd a (λ b. a) q.users }
  ]

  -- users[nick]=new user, at the address that new returns, if the login was not found
  unfoldable pub known_user : List ℕ → ℕ → Dict ℕ × Bool → Quiz R → Quiz R
  unfolding at_name at_key
  known_user nick a (users, ok) q =
      if ok
      then record q { users = users }
      else (let u : User = record { gender = 0; login = []; unreg = true } in
          record q { users = at_name nick a (λ b. a) users; heap = at_key a u (λ v. u) q.heap })

  unfoldable pub set_fields : ℕ → List ℕ → Option ℕ → Quiz R → Quiz R
  unfolding update
  set_fields gender login none q = q
  set_fields gender login (some a) q = record q {
    heap = update a (λ u. record { gender = gender; login = login; unreg = false }) q.heap;
  }

  unfoldable pub eui_reply : List ℕ → ℕ → Quiz R → Quiz R
  unfolding parse_strmap field atoi visit_all known_user set_fields lookup
  eui_reply msg a q =
      let m = parse_strmap msg in
      let nick = field nick_key m in
      let login = field login_key m in
      let k = known_user nick a (visit_all nick login q.heap q.users (q.users, false)) q in
      set_fields (atoi (field gender_key m)) login (lookup nick k.users) k

  unfoldable pub start : ℕ → Quiz R → Quiz R
  start now q =
      if not q.game_started
      then record q { game_started = true; next_question_time = now + question_period }
      else q

module _ {R : Type 0} (r : Ratings R) where
  unfoldable pub privmsg : List ℕ → ℕ → Message → Quiz R → Quiz R
  unfolding has_word start ask_question check_answer same_string
  privmsg self now c q =
      if has_word c.msg help_words || has_word c.msg place_words || has_word c.msg top_words
      then q
      else if has_word c.msg start_words
      then start now q
      else if has_word c.msg quest_words
      then (if q.question_asked then ask_question q else q)
      else if not c.ppriv && not (same_string c.tonick self)
      then check_answer r self now c.fromnick c.msg q
      else q

  -- `a` is the address that new would return.
  unfoldable pub process_command : List ℕ → ℕ → ℕ → Message → Quiz R → Quiz R
  unfolding same_string on_greeting change_nick eui_reply privmsg
  process_command self now a c q =
      if same_string c.cmd join_word
      then on_greeting self c.fromnick q
      else if same_string c.cmd nick_word
      then change_nick c q
      else if same_string c.cmd eui_word
      then eui_reply c.msg a q
      else if same_string c.cmd privmsg_word
      then privmsg self now c q
      else q
