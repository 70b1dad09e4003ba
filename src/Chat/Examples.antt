-- ===== src/Chat/Examples.antt =====
-- The theorems on chatserver/user_state.cpp at a user in two channels.
mod Accounts
mod Levels
use tusa.Common.{
  ℕ, ◌≡◌, refl, arith, List, [], ◌∷◌, false, ◌&&◌, ◌||◌, ◌==◌, if◌then◌else◌, Bool-cases, inl, inr,
}
use tusa.Common.Maps.{member, find}
use mathlib.Core.Option.{none, some}
use tusa.Core.Buffer.Out.{new_buffer}
use tusa.Core.Buffer.Appends.{new_buffer-IsWf}
use tusa.Core.Buffer.RoundTrip.{ReadsBack}
use tusa.Chat.UserState.{
  UserState, t_www, t_irc, is_empty, channel_us_count_usr, www_channel_replace, selects,
  part_channels, put_state, get_state,
}
use tusa.Chat.UserState.Channels.{IsWf, HasNoEmpty, www_channel_replace_lem}
use tusa.Common.{◌||◌}
use tusa.Common.Maps.{has_key}
use tusa.Chat.UserState.{export_channels, get_channel}
use tusa.Chat.UserState.Exported.{channels-member}
use tusa.Chat.UserState.Part.{leaves, part_channels_lem}
use tusa.Chat.UserState.Packed.{FitsState, without_channels, put_state-ReadsBack}

-- By IRC in the channels 3 and 8, by WWW in 3.
abbrev user : UserState
user = record {
  channel_us = (3, 1 ∷ 2 ∷ []) ∷ (8, 2 ∷ []) ∷ [];
  status = record { name = 111 ∷ []; pic = 1; id = 2; disable_invite = false };
  nick = record { name = 97 ∷ 98 ∷ []; id = 5; uid = 6 };
  voice = 3 ∷ [];
  ip = 49 ∷ [];
}

same : (s t : List ℕ) → some s ≡ some t → is_empty s ≡ false → is_empty t ≡ false
same s t h e = cc

user-HasNoEmpty : HasNoEmpty user.channel_us
unfolding find is_empty
user-HasNoEmpty ch cts h = elim (Bool-cases (3 == ch)) [
  | inl e ↦ same (1 ∷ 2 ∷ []) cts (rw e at h) refl
  | inr e ↦ elim (Bool-cases (8 == ch)) [
    | inl d ↦ same (2 ∷ []) cts (rw d at (rw e at h)) refl
    | inr d ↦ let p : none ≡ some cts = rw d at (rw e at h) in cc
  ]
]

user-IsWf : IsWf user
user-IsWf = record { ordered = ((omega arith, tt), (tt, tt)); no_empty = user-HasNoEmpty }

www_channel_replace_lem_example :
    (channel_us_count_usr (www_channel_replace 8 user) 3 t_www
      ≡ (if t_www == t_www then 8 == 3 else channel_us_count_usr user 3 t_www))
    × IsWf (www_channel_replace 8 user)
www_channel_replace_lem_example = www_channel_replace_lem 8 user 3 t_www user-IsWf

part_channels_lem_example :
    (channel_us_count_usr (part_channels [] t_irc user).1 3 t_irc
      ≡ (if selects [] 3 && t_irc == t_irc then false else channel_us_count_usr user 3 t_irc))
    × (member 3 (part_channels [] t_irc user).0
        ≡ (selects [] 3 && leaves t_irc (find 3 user.channel_us)))
    × IsWf (part_channels [] t_irc user).1
part_channels_lem_example = part_channels_lem [] t_irc user 3 t_irc user-IsWf

user-FitsState : FitsState user
user-FitsState = record {
  status = record { name = omega arith; pic = omega arith; id = omega arith };
  nick = record { name = omega arith; id = omega arith; uid = omega arith };
  voice = (omega arith, (omega arith, tt), (tt, tt));
  channel_us = (
    omega arith,
    (
      (omega arith, (omega arith, (omega arith, (omega arith, tt)), ((omega arith, tt), (tt, tt)))),
      ((omega arith, (omega arith, (omega arith, tt), (tt, tt))), tt),
    ),
    ((omega arith, tt), (tt, tt)),
  );
  ip = omega arith;
}

put_state-ReadsBack_example :
    ReadsBack
      (get_state (without_channels user))
      user
      (new_buffer 0)
      (put_state user (new_buffer 0))
put_state-ReadsBack_example =
    put_state-ReadsBack user user (new_buffer 0) (new_buffer-IsWf 0) user-FitsState
