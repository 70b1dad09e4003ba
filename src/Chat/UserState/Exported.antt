-- ===== src/Chat/UserState/Exported.antt =====
-- export_channels and get_channel of chatserver/user_state.cpp and chatserver/user_state.h.
use tusa.Common.{
  ℕ, ◌≡◌, refl, ◌∙◌, ap, List, [], ◌∷◌, Bool, true, false, ◌||◌, ◌==◌, if◌then◌else◌, arith,
  Bool-cases, inl, inr, ==_iff,
}
use tusa.Common.Maps.{
  member, set_insert, find, has_key, member-set_insert, member-nil, IsAfter, IsOrdered,
  IsAfter-has_key, find-missing,
}
use mathlib.Core.Option.{none}
use mathlib.Core.Path.{subst}
use tusa.Chat.UserState.{
  UserState, Channels, export_loop, export_channels, count_in, channel_us_count_usr,
  get_channel_loop, get_channel,
}
use tusa.Chat.UserState.Channels.{IsWf}

export_loop-member :
    (m : Channels) (acc : List ℕ) (j : ℕ)
    → member j (export_loop m acc) ≡ (has_key j m || member j acc)
unfolding export_loop has_key
export_loop-member [] acc j = refl
export_loop-member ((ch, cts) ∷ m) acc j =
    export_loop-member m (set_insert ch acc) j
    ∙ (ap (λ r. has_key j m || r) (member-set_insert j ch acc) ∙ ground arith)

absent : (ch : ℕ) (m : Channels) → IsAfter ch m → find ch m ≡ none
absent ch m h = find-missing ch m (IsAfter-has_key ch m h)

get_channel_loop-member :
    (ct : ℕ) (m : Channels) (r : List ℕ) (j : ℕ)
    → IsOrdered m
    → member j (get_channel_loop ct m r) ≡ (count_in (find j m) ct || member j r)
unfolding get_channel_loop count_in find
get_channel_loop-member ct [] r j h = refl
get_channel_loop-member ct ((ch, cts) ∷ m) r j (a, h) =
    get_channel_loop-member ct m (if member ct cts then set_insert ch r else r) j h
    ∙ elim (Bool-cases (ch == j)) [
      | inl e ↦
          let p : find j m ≡ none =
            subst (λ x. find x m ≡ none) ((==_iff ch j).0 e) (absent ch m a) in
          elim (Bool-cases (member ct cts)) [
            | inl t ↦ rw (e, p, t, member-set_insert j ch r, e) refl
            | inr t ↦ rw (e, p, t) refl
          ]
      | inr e ↦ elim (Bool-cases (member ct cts)) [
        | inl t ↦ rw (e, t, member-set_insert j ch r, e) refl
        | inr t ↦ rw (e, t) refl
      ]
    ]

or_false : (b : Bool) → (b || false) ≡ b
or_false true = refl
or_false false = refl

-- In a state of the invariant, export_channels adds to a set exactly the channels that the user has, and
-- get_channel gives exactly those where the user is by the client.
pub channels-member :
    (ct : ℕ) (s : UserState) (acc : List ℕ) (j : ℕ)
    → IsWf s
    → (member j (export_channels s acc) ≡ (has_key j s.channel_us || member j acc))
      × (member j (get_channel ct s) ≡ channel_us_count_usr s j ct)
unfolding export_channels get_channel channel_us_count_usr
channels-member ct s acc j w = (
  export_loop-member s.channel_us acc j,
  get_channel_loop-member ct s.channel_us [] j w.ordered
      ∙ (ap (λ r. count_in (find j s.channel_us) ct || r) (member-nil j)
          ∙ or_false (count_in (find j s.channel_us) ct)),
)
