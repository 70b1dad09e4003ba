-- ===== src/Chat/UserState/Channels.antt =====
-- The channel operations of chatserver/user_state.cpp against the relation "the user is in this
-- channel by this client", and the invariant that no channel is kept without a client.
use tusa.Common.{ℕ, ◌≡◌, refl, sym, arith, List, [], ◌∷◌, true, false, ◌&&◌, ◌||◌}
use tusa.Common.{◌==◌, if◌then◌else◌, Bool-cases, inl, inr}
use tusa.Common.Maps.{
  member, set_insert, erase, at_key, find, has_key, find-erase, find-at_key, member-nil,
  member-set_insert, member-set_erase, value_or, IsAfter, IsOrdered, IsAfter-has_key,
  at_key-IsOrdered, erase-IsOrdered,
}
use mathlib.Core.Option.{none, some}
use tusa.Chat.UserState.{
  UserState, Channels, t_www, channel_add, count_in, channel_us_count_usr, www_erase, is_empty,
  empty_channels, erase_all, www_channel_replace,
}

-- No channel without a client is kept.
abbrev pub HasNoEmpty : Channels → Type 0
HasNoEmpty m = (ch : ℕ) (cts : List ℕ) → find ch m ≡ some cts → is_empty cts ≡ false

pub record IsWf (s : UserState) : Type 0 where
  pub ordered : IsOrdered s.channel_us
  pub no_empty : HasNoEmpty s.channel_us

pub member-is_empty : (x : ℕ) (s : List ℕ) → is_empty s ≡ true → member x s ≡ false
unfolding is_empty member
member-is_empty x [] h = refl
member-is_empty x (y ∷ s) h = cc

set_insert-nonempty : (x : ℕ) (s : List ℕ) → is_empty (set_insert x s) ≡ false
unfolding is_empty set_insert
set_insert-nonempty x [] = refl
set_insert-nonempty x (y ∷ s) = ground arith

count-at_key :
    (ct ch : ℕ) (m : Channels) (j p : ℕ)
    → count_in (find j (at_key ch [] (set_insert ct) m)) p
      ≡ ((ch == j && ct == p) || count_in (find j m) p)
unfolding count_in
count-at_key ct ch m j p =
    rw find-at_key (ground (arith, member-set_insert p ct (value_or (find ch m) []), member-nil p))

at_key-HasNoEmpty :
    (ct ch : ℕ) (m : Channels) → HasNoEmpty m → HasNoEmpty (at_key ch [] (set_insert ct) m)
at_key-HasNoEmpty ct ch m h j cts e = ground (
  arith,
  find-at_key j ch [] (set_insert ct) m,
  set_insert-nonempty ct (value_or (find ch m) []),
  h j cts,
)

pub find-erase_all :
    (rm : List ℕ) (m : Channels) (j : ℕ)
    → find j (erase_all rm m) ≡ (if member j rm then none else find j m)
unfolding erase_all member
find-erase_all [] m j = refl
find-erase_all (k ∷ rm) m j = ground (arith, find-erase_all rm (erase k m) j, find-erase j k m)

pub erase_all-IsOrdered : (rm : List ℕ) (m : Channels) → IsOrdered m → IsOrdered (erase_all rm m)
unfolding erase_all
erase_all-IsOrdered [] m h = h
erase_all-IsOrdered (k ∷ rm) m h = erase_all-IsOrdered rm (erase k m) (erase-IsOrdered k m h)

-- Channels with no client count for nobody, so erasing them is not seen.
member-empty_channels :
    (m : Channels) (j : ℕ) → member j (empty_channels m) ≡ true → has_key j m ≡ true
unfolding member empty_channels has_key
member-empty_channels [] j h = cc
member-empty_channels ((k, cts) ∷ m) j h = ground (arith, member-empty_channels m j)

empty_channels-find :
    (m : Channels) (j : ℕ)
    → IsOrdered m
    → member j (empty_channels m) ≡ true
    → (cts : List ℕ) × (find j m ≡ some cts) × (is_empty cts ≡ true)
unfolding member empty_channels find
empty_channels-find [] j o h = cc
empty_channels-find ((k, cts) ∷ m) j o h = elim (Bool-cases (k == j)) [
  | inl e ↦ (cts, rw e refl, ground (arith, member-empty_channels m j, IsAfter-has_key k m o.0))
  | inr e ↦ rw e (empty_channels-find m j o.1 (ground arith))
]

-- A channel whose clients are all gone is among the empty ones.
find-empty_channels :
    (m : Channels) (j : ℕ) (cts : List ℕ)
    → find j m ≡ some cts
    → is_empty cts ≡ true
    → member j (empty_channels m) ≡ true
unfolding member empty_channels find
find-empty_channels [] j cts e h = cc
find-empty_channels ((k, c) ∷ m) j cts e h = ground (arith, find-empty_channels m j cts)

count-erase_empty :
    (m : Channels) (j p : ℕ)
    → IsOrdered m
    → count_in (find j (erase_all (empty_channels m) m)) p ≡ count_in (find j m) p
unfolding count_in
count-erase_empty m j p o = rw find-erase_all (elim (Bool-cases (member j (empty_channels m))) [
  | inl e ↦
      let (cts, f, n) = empty_channels-find m j o e in rw (e, f) (sym (member-is_empty p cts n))
  | inr e ↦ rw e refl
])

erase_empty-HasNoEmpty : (m : Channels) → HasNoEmpty (erase_all (empty_channels m) m)
erase_empty-HasNoEmpty m j cts e = elim (Bool-cases (is_empty cts)) [
  | inl n ↦ ground (arith, find-erase_all (empty_channels m) m j, find-empty_channels m j cts)
  | inr n ↦ n
]

count-www_erase :
    (m : Channels) (ch p : ℕ)
    → count_in (find ch (www_erase m)) p ≡ (if t_www == p then false else count_in (find ch m) p)
unfolding count_in www_erase find
count-www_erase [] ch p = ground arith
count-www_erase ((j, cts) ∷ m) ch p =
    ground (arith, count-www_erase m ch p, member-set_erase p t_www cts)

IsAfter-www_erase : (k : ℕ) (m : Channels) → IsAfter k m → IsAfter k (www_erase m)
unfolding www_erase
IsAfter-www_erase k [] h = tt
IsAfter-www_erase k ((j, cts) ∷ m) h = (h.0, IsAfter-www_erase k m h.1)

www_erase-IsOrdered : (m : Channels) → IsOrdered m → IsOrdered (www_erase m)
unfolding www_erase
www_erase-IsOrdered [] h = tt
www_erase-IsOrdered ((j, cts) ∷ m) h = (IsAfter-www_erase j m h.0, www_erase-IsOrdered m h.1)

-- channel_add puts the user into one channel by one client and changes nothing else, and keeps the
-- invariant.
pub channel_add_lem :
    (ct ch : ℕ) (s : UserState) (j p : ℕ)
    → IsWf s
    → (channel_us_count_usr (channel_add ct ch s) j p
        ≡ ((ch == j && ct == p) || channel_us_count_usr s j p))
      × IsWf (channel_add ct ch s)
unfolding channel_us_count_usr channel_add
channel_add_lem ct ch s j p w = (
  count-at_key ct ch s.channel_us j p,
  record {
    ordered = at_key-IsOrdered ch [] (set_insert ct) s.channel_us w.ordered;
    no_empty = at_key-HasNoEmpty ct ch s.channel_us w.no_empty;
  },
)

-- After www_channel_replace the user is by WWW in the given channel and in no other, by any other
-- client where he was, and the invariant holds.
pub www_channel_replace_lem :
    (chan : ℕ) (s : UserState) (j p : ℕ)
    → IsWf s
    → (channel_us_count_usr (www_channel_replace chan s) j p
        ≡ (if t_www == p then chan == j else channel_us_count_usr s j p))
      × IsWf (www_channel_replace chan s)
unfolding www_channel_replace channel_us_count_usr
www_channel_replace_lem chan s j p w =
    let m = www_erase s.channel_us in
    let o : IsOrdered m = www_erase-IsOrdered s.channel_us w.ordered in
    let rest = erase_all (empty_channels m) m in
    (
      ground (
        arith,
        count-at_key t_www chan rest j p,
        count-erase_empty m j p o,
        count-www_erase s.channel_us j p,
      ),
      record {
        ordered =
            at_key-IsOrdered chan [] (set_insert t_www) rest
              (erase_all-IsOrdered (empty_channels m) m o);
        no_empty = at_key-HasNoEmpty t_www chan rest (erase_empty-HasNoEmpty m);
      },
    )
