-- ===== src/Chat/UserState.antt =====
-- chatserver/user_state.h, user_state.cpp, user_status.h and user_nick.h: where a user is, by which
-- kind of client (CT), and its operators << and >>. Strings are their bytes; CH_id and DB_id are
-- unsigned ints.
pub mod Channels
pub mod Part
pub mod Exported
pub mod Packed
use tusa.Common.{ℕ, List, [], ◌∷◌, Bool, true, false, not, ◌&&◌, ◌||◌, ltb, ◌==◌, if◌then◌else◌}
use tusa.Common.{length}
use tusa.Common.Maps.{Map, member, set_insert, set_erase, erase, at_key, find}
use mathlib.Core.Option.{Option, none, some}
use tusa.Core.Buffer.Out.{OutBuffer}
use tusa.Core.Buffer.In.{InBuffer}
use tusa.Core.Buffer.Serial.{
  Operators, int, unsigned_int, string, bool, set_of, map_of, get_seq, insert, put_seq, pair,
}

-- enum CT, as the int that it is packed as
abbrev pub t_unknown : ℕ
t_unknown = 0

abbrev pub t_www : ℕ
t_www = 1

abbrev pub t_irc : ℕ
t_irc = 2

pub record UserStatus : Type 0 where
  pub name : List ℕ
  pub pic : ℕ
  pub id : ℕ
  pub disable_invite : Bool

pub record UserNick : Type 0 where
  pub name : List ℕ
  pub id : ℕ
  pub uid : ℕ

-- map<CH_id, set<CT> >
abbrev pub Channels : Type 0
Channels = Map (List ℕ)

pub record UserState : Type 0 where
  pub channel_us : Channels
  pub status : UserStatus
  pub nick : UserNick
  pub voice : List ℕ
  pub ip : List ℕ

unfoldable pub channel_add : ℕ → ℕ → UserState → UserState
channel_add ct ch s = record s { channel_us = at_key ch [] (set_insert ct) s.channel_us }

-- The loop of export_channels, into the set `acc`.
unfoldable pub export_loop : Channels → List ℕ → List ℕ
export_loop [] acc = acc
export_loop ((ch, cts) ∷ m) acc = export_loop m (set_insert ch acc)

unfoldable pub export_channels : UserState → List ℕ → List ℕ
unfolding export_loop
export_channels s acc = export_loop s.channel_us acc

unfoldable pub count_in : Option (List ℕ) → ℕ → Bool
count_in none p = false
count_in (some cts) p = member p cts

unfoldable pub channel_us_count_usr : UserState → ℕ → ℕ → Bool
unfolding count_in
channel_us_count_usr s ch p = count_in (find ch s.channel_us) p

unfoldable pub channel_us_size : UserState → ℕ
channel_us_size s = length s.channel_us

-- The loop of get_channel.
unfoldable pub get_channel_loop : ℕ → Channels → List ℕ → List ℕ
get_channel_loop ct [] r = r
get_channel_loop ct ((ch, cts) ∷ m) r =
    get_channel_loop ct m (if member ct cts then set_insert ch r else r)

unfoldable pub get_channel : ℕ → UserState → List ℕ
unfolding get_channel_loop
get_channel ct s = get_channel_loop ct s.channel_us []

-- The first loop of www_channel_replace: T_WWW is erased everywhere, and channels left with no
-- client are remembered.
unfoldable pub www_erase : Channels → Channels
www_erase [] = []
www_erase ((ch, cts) ∷ m) =
    (ch, if member t_www cts then set_erase t_www cts else cts) ∷ www_erase m

unfoldable pub is_empty : List ℕ → Bool
is_empty [] = true
is_empty (x ∷ xs) = false

unfoldable pub empty_channels : Channels → List ℕ
unfolding is_empty
empty_channels [] = []
empty_channels ((ch, cts) ∷ m) =
    let rest = empty_channels m in if is_empty cts then ch ∷ rest else rest

unfoldable pub erase_all : List ℕ → Channels → Channels
erase_all [] m = m
erase_all (ch ∷ rm) m = erase_all rm (erase ch m)

unfoldable pub www_channel_replace : ℕ → UserState → UserState
unfolding www_erase empty_channels erase_all
www_channel_replace chan s =
    let m = www_erase s.channel_us in
    record s { channel_us = at_key chan [] (set_insert t_www) (erase_all (empty_channels m) m) }

-- chans.size() == 0 || chans.count(ch)
abbrev pub selects : List ℕ → ℕ → Bool
selects chans ch = is_empty chans || member ch chans

-- The first loop of part_channels, and the channels that it leaves empty.
unfoldable pub part_erase : List ℕ → ℕ → Channels → Channels
part_erase chans ct [] = []
part_erase chans ct ((ch, cts) ∷ m) =
    (ch, if selects chans ch then set_erase ct cts else cts) ∷ part_erase chans ct m

unfoldable pub part_rm : List ℕ → ℕ → Channels → List ℕ
part_rm chans ct [] = []
part_rm chans ct ((ch, cts) ∷ m) =
    let rest = part_rm chans ct m in
    if selects chans ch && not (is_empty cts) && is_empty (set_erase ct cts)
    then set_insert ch rest
    else rest

unfoldable pub part_channels : List ℕ → ℕ → UserState → List ℕ × UserState
unfolding part_erase part_rm erase_all is_empty
part_channels chans ct s =
    let rm = part_rm chans ct s.channel_us in
    (rm, record s { channel_us = erase_all rm (part_erase chans ct s.channel_us) })

-- The operators of user_status.h, user_nick.cpp and user_state.cpp.
unfoldable pub put_status : UserStatus → OutBuffer → OutBuffer
put_status n b = bool.put n.disable_invite (int.put n.id (int.put n.pic (string.put n.name b)))

unfoldable pub get_status : InBuffer → UserStatus × InBuffer
get_status b =
    let (name, b1) = string.get b in
    let (pic, b2) = int.get b1 in
    let (id, b3) = int.get b2 in
    let (disable_invite, b4) = bool.get b3 in
    (record { name = name; pic = pic; id = id; disable_invite = disable_invite }, b4)

unfoldable pub put_nick : UserNick → OutBuffer → OutBuffer
put_nick n b = string.put n.name (unsigned_int.put n.id (unsigned_int.put n.uid b))

unfoldable pub get_nick : InBuffer → UserNick × InBuffer
get_nick b =
    let (uid, b1) = unsigned_int.get b in
    let (id, b2) = unsigned_int.get b1 in
    let (name, b3) = string.get b2 in (record { name = name; id = id; uid = uid }, b3)

abbrev pub ct_set : Operators (List ℕ)
ct_set = set_of int ltb

unfoldable pub put_state : UserState → OutBuffer → OutBuffer
unfolding put_status put_nick
put_state n b = string.put n.ip (
    put_seq (pair unsigned_int ct_set) n.channel_us
      (put_seq unsigned_int n.voice (put_nick n.nick (put_status n.status b))))

-- `voice` and the channels are added to those of the state that is read into.
unfoldable pub get_state : UserState → InBuffer → UserState × InBuffer
unfolding get_status get_nick
get_state old b =
    let (status, b1) = get_status b in
    let (nick, b2) = get_nick b1 in
    let (voice, b3) = get_seq unsigned_int (insert ltb) old.voice b2 in
    let (us, b4) =
      get_seq (pair unsigned_int ct_set) (insert (λ s t. ltb s.0 t.0)) old.channel_us b3 in
    let (ip, b5) = string.get b4 in
    (record { channel_us = us; status = status; nick = nick; voice = voice; ip = ip }, b5)
