-- ===== src/Chat/UserState/Packed.antt =====
-- The operators << and >> of chatserver/user_state.cpp, user_status.h and user_nick.cpp.
use tusa.Common.{ℕ, ◌^◌, ◌<◌, refl, List, []}
use tusa.Common.{length, All, Bool, ltb}
use tusa.Core.Buffer.Out.{OutBuffer}
use tusa.Core.Buffer.Appends.{Appends, Appends-trans}
use tusa.Core.Buffer.Appends
use tusa.Core.Buffer.RoundTrip.{ReadsBack}
use tusa.Core.Buffer.Serial.{Operators, unsigned_int, pair, set_of}
use tusa.Core.Buffer.Laws.{
  Lawful, Lawful-ReadsBack, IsBelow, via-Lawful, int-Lawful, unsigned_int-Lawful, bool-Lawful,
  string-Lawful, pair-Lawful,
}
use tusa.Core.Buffer.Containers.{IsSortedBy, IsSortedBy-IsAscending, set_of-Lawful}
use tusa.Chat.UserState.{
  UserStatus, UserNick, UserState, Channels, put_status, get_status, put_nick, get_nick, ct_set,
  put_state, get_state,
}

abbrev IsText : List ℕ → Type 0
IsText s = length s < 2 ^ 31

-- Every number fits its type and every text has fewer than 2 ^ 31 bytes.
pub record FitsStatus (n : UserStatus) : Type 0 where
  pub name : IsText n.name
  pub pic : IsBelow 32 n.pic
  pub id : IsBelow 32 n.id

pub record FitsNick (n : UserNick) : Type 0 where
  pub name : IsText n.name
  pub id : IsBelow 32 n.id
  pub uid : IsBelow 32 n.uid

abbrev status : Operators UserStatus
status = record { put = put_status; get = get_status }

abbrev nick : Operators UserNick
nick = record { put = put_nick; get = get_nick }

status-Lawful : Lawful status FitsStatus
unfolding put_status get_status
status-Lawful =
    let l =
      via-Lawful {A = UserStatus} (λ n. (n.name, (n.pic, (n.id, n.disable_invite))))
        (λ t. record { name = t.0; pic = t.1.0; id = t.1.1.0; disable_invite = t.1.1.1 })
        (λ n. refl)
        (pair-Lawful string-Lawful (pair-Lawful int-Lawful (pair-Lawful int-Lawful bool-Lawful))) in
    record {
      bytes = l.bytes;
      writes = λ n h. l.writes n (h.name, (h.pic, (h.id, tt)));
      reads = λ n h. l.reads n (h.name, (h.pic, (h.id, tt)));
    }

nick-Lawful : Lawful nick FitsNick
unfolding put_nick get_nick
nick-Lawful =
    let l =
      via-Lawful {A = UserNick} (λ n. (n.uid, (n.id, n.name)))
        (λ t. record { name = t.1.1; id = t.1.0; uid = t.0 }) (λ n. refl)
        (pair-Lawful unsigned_int-Lawful (pair-Lawful unsigned_int-Lawful string-Lawful)) in
    record {
      bytes = l.bytes;
      writes = λ n h. l.writes n (h.uid, (h.id, h.name));
      reads = λ n h. l.reads n (h.uid, (h.id, h.name));
    }

-- Every set and map ascends, as std::set and std::map do, and has fewer than 2 ^ 32 elements; every
-- number fits its type, and every text has fewer than 2 ^ 31 bytes.
abbrev pub FitsSet : List ℕ → Type 0
FitsSet s = (length s < 2 ^ 32) × All (IsBelow 32) s × IsSortedBy (λ x. x) s

abbrev pub FitsChannels : Channels → Type 0
FitsChannels m =
    (length m < 2 ^ 32) × All (λ e. IsBelow 32 e.0 × FitsSet e.1) m × IsSortedBy (λ e. e.0) m

pub record FitsState (n : UserState) : Type 0 where
  pub status : FitsStatus n.status
  pub nick : FitsNick n.nick
  pub voice : FitsSet n.voice
  pub channel_us : FitsChannels n.channel_us
  pub ip : IsText n.ip

-- A state with no channel and no voice, as user_state() makes it, and anything else in the rest.
abbrev pub without_channels : UserState → UserState
without_channels s = record s { channel_us = []; voice = [] }

-- The set and map operators at the order of the source.
set-Lawful : Lawful ct_set FitsSet
set-Lawful =
    let l = set_of-Lawful int-Lawful ltb in
    record {
      bytes = l.bytes;
      writes = λ v h. l.writes v (h.0, h.1, IsSortedBy-IsAscending (λ x. x) v h.2);
      reads = λ v h. l.reads v (h.0, h.1, IsSortedBy-IsAscending (λ x. x) v h.2);
    }

abbrev by_key : ℕ × List ℕ → ℕ × List ℕ → Bool
by_key s t = ltb s.0 t.0

channels-Lawful : Lawful (set_of (pair unsigned_int ct_set) by_key) FitsChannels
channels-Lawful =
    let l = set_of-Lawful (pair-Lawful unsigned_int-Lawful set-Lawful) by_key in
    record {
      bytes = l.bytes;
      writes = λ v h. l.writes v (h.0, h.1, IsSortedBy-IsAscending (λ e. e.0) v h.2);
      reads = λ v h. l.reads v (h.0, h.1, IsSortedBy-IsAscending (λ e. e.0) v h.2);
    }

state-Lawful :
    (old : UserState)
    → Lawful (record { put = put_state; get = get_state (without_channels old) }) FitsState
unfolding put_state get_state
state-Lawful old =
    let l =
      via-Lawful {A = UserState} (λ n. (n.status, (n.nick, (n.voice, (n.channel_us, n.ip)))))
        (λ t. record {
          channel_us = t.1.1.1.0;
          status = t.0;
          nick = t.1.0;
          voice = t.1.1.0;
          ip = t.1.1.1.1;
        })
        (λ n. refl)
        (pair-Lawful status-Lawful (
          pair-Lawful nick-Lawful
            (pair-Lawful set-Lawful (pair-Lawful channels-Lawful string-Lawful)))) in
    record {
      bytes = l.bytes;
      writes = λ n h. l.writes n (h.status, (h.nick, (h.voice, (h.channel_us, h.ip))));
      reads = λ n h. l.reads n (h.status, (h.nick, (h.voice, (h.channel_us, h.ip))));
    }

-- A user's state reads back from a well-formed buffer into a state with no channel and no voice,
-- whatever its other fields were, if it fits.
pub put_state-ReadsBack :
    (old n : UserState) (b : OutBuffer)
    → Appends.IsWf b
    → FitsState n
    → ReadsBack (get_state (without_channels old)) n b (put_state n b)
put_state-ReadsBack old n b w h = Lawful-ReadsBack (state-Lawful old) b n w h
