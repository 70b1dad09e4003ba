-- ===== src/Chat/UserState/Part.antt =====
-- part_channels of chatserver/user_state.cpp against the relation "the user is in this channel by
-- this client".
use tusa.Common.{ℕ, ◌≡◌, refl, sym, ap, ◌∙◌, arith, List, [], ◌∷◌, Bool, true, false, not, ◌&&◌}
use tusa.Common.{◌==◌, if◌then◌else◌, Bool-cases, inl, inr}
use tusa.Common.Maps.{
  member, set_erase, find, has_key, member-set_insert, member-set_erase, IsAfter, IsOrdered,
  IsAfter-has_key,
}
use mathlib.Core.Option.{Option, none, some}
use tusa.Chat.UserState.{
  UserState, Channels, count_in, channel_us_count_usr, is_empty, erase_all, selects, part_erase,
  part_rm, part_channels,
}
use tusa.Chat.UserState.Channels.{
  HasNoEmpty, IsWf, find-erase_all, erase_all-IsOrdered, member-is_empty,
}

-- The user is in a channel by `ct` alone.
abbrev pub leaves : ℕ → Option (List ℕ) → Bool
leaves ct none = false
leaves ct (some cts) = not (is_empty cts) && is_empty (set_erase ct cts)

module _ (chans : List ℕ) (ct : ℕ) where
  part_rm_keys : (m : Channels) (j : ℕ) → member j (part_rm chans ct m) ≡ true → has_key j m ≡ true
  unfolding member part_rm has_key
  part_rm_keys [] j h = cc
  part_rm_keys ((k, cts) ∷ m) j h =
      ground (arith, part_rm_keys m j, member-set_insert j k (part_rm chans ct m))

  not_key : (m : Channels) (j : ℕ) → has_key j m ≡ false → member j (part_rm chans ct m) ≡ false
  not_key m j h = elim (Bool-cases (member j (part_rm chans ct m))) [
    | inl e ↦ cc (part_rm_keys m j e)
    | inr e ↦ e
  ]

  member-part_rm :
      (m : Channels) (j : ℕ)
      → IsOrdered m
      → member j (part_rm chans ct m) ≡ (selects chans j && leaves ct (find j m))
  unfolding member part_rm find
  member-part_rm [] j o = ground arith
  member-part_rm ((k, cts) ∷ m) j o = ground (
    arith,
    member-part_rm m j o.1,
    member-set_insert j k (part_rm chans ct m),
    not_key m k (IsAfter-has_key k m o.0),
  )

  count-part_erase :
      (m : Channels) (j p : ℕ)
      → count_in (find j (part_erase chans ct m)) p
        ≡ (if selects chans j && ct == p then false else count_in (find j m) p)
  unfolding count_in part_erase find
  count-part_erase [] j p = ground arith
  count-part_erase ((k, cts) ∷ m) j p =
      ground (arith, count-part_erase m j p, member-set_erase p ct cts)

  abbrev parted : ℕ → Option (List ℕ) → Option (List ℕ)
  parted j none = none
  parted j (some cts) = some (if selects chans j then set_erase ct cts else cts)

  find-part_erase : (m : Channels) (j : ℕ) → find j (part_erase chans ct m) ≡ parted j (find j m)
  unfolding part_erase find
  find-part_erase [] j = refl
  find-part_erase ((k, cts) ∷ m) j = ground (arith, find-part_erase m j)

  IsAfter-part_erase : (k : ℕ) (m : Channels) → IsAfter k m → IsAfter k (part_erase chans ct m)
  unfolding part_erase
  IsAfter-part_erase k [] h = tt
  IsAfter-part_erase k ((j, cts) ∷ m) h = (h.0, IsAfter-part_erase k m h.1)

  part_erase-IsOrdered : (m : Channels) → IsOrdered m → IsOrdered (part_erase chans ct m)
  unfolding part_erase
  part_erase-IsOrdered [] h = tt
  part_erase-IsOrdered ((j, cts) ∷ m) h = (IsAfter-part_erase j m h.0, part_erase-IsOrdered m h.1)

  -- A channel that is left has no client any more.
  left_empty :
      (c : Option (List ℕ)) (j p : ℕ)
      → selects chans j && leaves ct c ≡ true
      → count_in (parted j c) p ≡ false
  unfolding count_in
  left_empty none j p h = refl
  left_empty (some cts) j p h = ground (arith, member-is_empty p (set_erase ct cts))

  count-part :
      (m : Channels) (j p : ℕ)
      → IsOrdered m
      → count_in (find j (erase_all (part_rm chans ct m) (part_erase chans ct m))) p
        ≡ (if selects chans j && ct == p then false else count_in (find j m) p)
  unfolding count_in
  count-part m j p o =
      rw (find-erase_all, member-part_rm m j o)
        (elim (Bool-cases (selects chans j && leaves ct (find j m))) [
          | inl e ↦ rw e (
              sym (left_empty (find j m) j p e)
              ∙ ap (λ c. count_in c p) (sym (find-part_erase m j))
              ∙ count-part_erase m j p)
          | inr e ↦ rw e (count-part_erase m j p)
        ])

  stays_nonempty :
      (c : Option (List ℕ)) (j : ℕ) (cts : List ℕ)
      → ((d : List ℕ) → c ≡ some d → is_empty d ≡ false)
      → (if selects chans j && leaves ct c then none else parted j c) ≡ some cts
      → is_empty cts ≡ false
  stays_nonempty none j cts h e = ground arith
  stays_nonempty (some d) j cts h e = ground (arith, h d refl)

  part-HasNoEmpty :
      (m : Channels)
      → IsOrdered m
      → HasNoEmpty m
      → HasNoEmpty (erase_all (part_rm chans ct m) (part_erase chans ct m))
  part-HasNoEmpty m o h j cts e = stays_nonempty (find j m) j cts (h j) (
      rw
        (
          find-erase_all (part_rm chans ct m) (part_erase chans ct m) j,
          member-part_rm m j o,
          find-part_erase m j,
        )
        at e)

-- part_channels takes the user out of the selected channels (all of them, if none is named) as far as
-- the client is concerned, and leaves every other place alone; it returns exactly the selected
-- channels where that client was the only one, and keeps the invariant.
pub part_channels_lem :
    (chans : List ℕ) (ct : ℕ) (s : UserState) (j p : ℕ)
    → IsWf s
    → (channel_us_count_usr (part_channels chans ct s).1 j p
        ≡ (if selects chans j && ct == p then false else channel_us_count_usr s j p))
      × (member j (part_channels chans ct s).0
          ≡ (selects chans j && leaves ct (find j s.channel_us)))
      × IsWf (part_channels chans ct s).1
unfolding part_channels channel_us_count_usr
part_channels_lem chans ct s j p w = (
  count-part chans ct s.channel_us j p w.ordered,
  member-part_rm chans ct s.channel_us j w.ordered,
  record {
    ordered =
        erase_all-IsOrdered (part_rm chans ct s.channel_us) _
          (part_erase-IsOrdered chans ct s.channel_us w.ordered);
    no_empty = part-HasNoEmpty chans ct s.channel_us w.ordered w.no_empty;
  },
)
