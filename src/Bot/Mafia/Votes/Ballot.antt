-- ===== src/Bot/Mafia/Votes/Ballot.antt =====
-- What a vote of the day does to vote_info1, and when the vote ends.
use tusa.Common.{
  ℕ, ◌*◌, ◌/◌, ◌≤◌, ◌<◌, ◌≡◌, ◌⊎◌, refl, sym, ◌∙◌, List, [], ◌∷◌, Bool, true, false, ◌&&◌, ◌||◌,
}
use tusa.Common.{
  ltb, leb, ◌==◌, if◌then◌else◌, length, arith, Bool-cases, inl, inr, ltb→lt, leb→le, if-both,
  ==_iff,
}
use tusa.Common.Maps.{has_key, update, member, member-set_insert, member-set_erase, member-one}
use mathlib.Core.Path.{subst}
use native.Mathlib.Nat.{mul-suc, mul-le-mul_left}
use mathlib.Core.Option.{Option, none, some}
use tusa.Bot.Mafia.State.{Game}
use tusa.Bot.Mafia.Night.{do_night}
use tusa.Bot.Mafia.Votes.{
  Votes, same_target, erase_voter, add_vote, total_votes, max_votes, with_votes,
  check_for_vote1_end, end_vote1, decide_vote1, cast_vote, process_day, night_id,
}

-- u votes for t.
unfoldable pub votes_for : Option ℕ → ℕ → Votes → Bool
votes_for t u [] = false
votes_for t u ((z, s) ∷ v) = if same_target z t then member u s else votes_for t u v

same_target_refl : (t : Option ℕ) → same_target t t ≡ true
same_target_refl none = refl
same_target_refl (some i) = ground arith

same_target_trans : (a b c : Option ℕ) → same_target a b ≡ true → same_target a c ≡ same_target b c
same_target_trans none none c h = refl
same_target_trans none (some j) c h = cc
same_target_trans (some i) none c h = cc
same_target_trans (some i) (some j) none h = refl
same_target_trans (some i) (some j) (some k) h = ground arith

votes_for-erase_voter :
    (t : Option ℕ) (w u : ℕ) (v : Votes)
    → votes_for t w (erase_voter u v) ≡ (if u == w then false else votes_for t w v)
unfolding votes_for erase_voter
votes_for-erase_voter t w u [] = ground arith
votes_for-erase_voter t w u ((z, s) ∷ v) =
    rw (votes_for-erase_voter t w u v, member-set_erase w u s)
      (elim (Bool-cases (same_target z t)) [ inl e ↦ rw e refl | inr e ↦ rw e refl ])

same_target-sym : (a b : Option ℕ) → same_target a b ≡ same_target b a
same_target-sym none none = refl
same_target-sym none (some j) = refl
same_target-sym (some i) none = refl
same_target-sym (some i) (some j) = ground arith

votes_for-add_vote :
    (t z : Option ℕ) (w u : ℕ) (v : Votes)
    → votes_for t w (add_vote z u v) ≡ (same_target z t && u == w || votes_for t w v)
unfolding votes_for add_vote
votes_for-add_vote t z w u [] = elim (Bool-cases (same_target z t)) [
  | inl e ↦ rw (e, member-one w u) (ground arith)
  | inr e ↦ rw e refl
]
votes_for-add_vote t z w u ((y, s) ∷ v) = elim (Bool-cases (same_target y z)) [
  | inl e ↦
      rw (e, sym (same_target_trans y z t e), member-set_insert w u s)
        (elim (Bool-cases (same_target y t)) [ inl d ↦ rw d refl | inr d ↦ rw d refl ])
  | inr e ↦
      rw (e, votes_for-add_vote t z w u v)
        (elim (Bool-cases (same_target y t)) [
          | inl d ↦ rw (d, same_target-sym z t ∙ (sym (same_target_trans y t z d) ∙ e)) refl
          | inr d ↦ rw d refl
        ])
]

-- end_vote1 leaves the votes as they are.
decide_vote1-vote_info1 :
    (now : ℕ) (l : List (Option ℕ)) (g : Game) → (decide_vote1 now l g).vote_info1 ≡ g.vote_info1
unfolding decide_vote1 do_night
decide_vote1-vote_info1 now [] g = refl
decide_vote1-vote_info1 now (none ∷ l) g = refl
decide_vote1-vote_info1 now (some u ∷ []) g = refl
decide_vote1-vote_info1 now (some u ∷ x ∷ l) g = refl

end_vote1-vote_info1 : (now : ℕ) (g : Game) → (end_vote1 now g).vote_info1 ≡ g.vote_info1
unfolding end_vote1 do_night
end_vote1-vote_info1 now g =
    let h = record g { vote1 = false } in
    if-both (λ (r : Game). r.vote_info1 ≡ g.vote_info1) _ _ _
      (decide_vote1-vote_info1 now (with_votes (max_votes g.vote_info1) g.vote_info1) h) refl

cast_vote-vote_info1 :
    (now u : ℕ) (z : Option ℕ) (g : Game)
    → (cast_vote now u z g).vote_info1 ≡ add_vote z u (erase_voter u g.vote_info1)
unfolding cast_vote
cast_vote-vote_info1 now u z g =
    let h = record g {
      vote_info1 = add_vote z u (erase_voter u g.vote_info1);
      gamers_by_id = update u (λ w. record w { voted = true }) g.gamers_by_id;
    } in
    if-both (λ (r : Game). r.vote_info1 ≡ add_vote z u (erase_voter u g.vote_info1)) _ _ _
      (end_vote1-vote_info1 now h) refl

-- cast_vote, by which process_day gives a vote, leaves the user u voting for the target z and for
-- no other, whatever u voted for before, and the votes of all others as they were. This holds also
-- where the vote ends the voting.
pub cast_vote-votes_for :
    (now u w : ℕ) (z t : Option ℕ) (g : Game)
    → votes_for t w (cast_vote now u z g).vote_info1
      ≡ (if u == w then same_target z t else votes_for t w g.vote_info1)
cast_vote-votes_for now u w z t g =
    rw
      (
        cast_vote-vote_info1 now u z g,
        votes_for-add_vote t z w u (erase_voter u g.vote_info1),
        votes_for-erase_voter t w u g.vote_info1,
      )
      (ground arith)

-- Of the targets with most votes, with n votes each, n times their number is at most the sum.
with_votes-total : (n : ℕ) (v : Votes) → n * length (with_votes n v) ≤ total_votes v
unfolding with_votes total_votes
with_votes-total n [] = omega arith
with_votes-total n ((t, s) ∷ v) = elim (Bool-cases (length s == n)) [
  | inl e ↦
      rw (e, (==_iff (length s) n).0 e, mul-suc n (length (with_votes n v)))
        (omega (arith, with_votes-total n v))
  | inr e ↦ rw e (omega (arith, with_votes-total n v))
]

with_votes-found :
    (n : ℕ) (t : Option ℕ) (s : List ℕ) (v : Votes)
    → (length s ≡ n) ⊎ (1 ≤ length (with_votes n v))
    → 1 ≤ length (with_votes n ((t, s) ∷ v))
unfolding with_votes
with_votes-found n t s v h = ground (arith, h)

with_votes-max : (v : Votes) → 0 < max_votes v → 1 ≤ length (with_votes (max_votes v) v)
unfolding max_votes
with_votes-max [] h = omega arith
with_votes-max ((t, s) ∷ v) h = elim (Bool-cases (ltb (max_votes v) (length s))) [
  | inl e ↦ with_votes-found (max_votes ((t, s) ∷ v)) t s v (inl (rw e refl))
  | inr e ↦
      let same : max_votes ((t, s) ∷ v) ≡ max_votes v = rw e refl in
      with_votes-found (max_votes ((t, s) ∷ v)) t s v (
        inr (
          subst (λ x. 1 ≤ length (with_votes x v)) (sym same)
            (with_votes-max v (subst (λ x. 0 < x) same h))))
]

alone :
    (v : Votes) (all : ℕ)
    → total_votes v ≤ all
    → all / 2 < max_votes v
    → length (with_votes (max_votes v) v) ≡ 1
alone v all h e =
    let most = max_votes v in
    let n = length (with_votes most v) in
    let below : most * n ≤ total_votes v = with_votes-total most v in
    let found : 1 ≤ n = with_votes-max v (omega arith) in
    elim (Bool-cases (leb 2 n)) [
      | inl t ↦ let two : most * 2 ≤ most * n = mul-le-mul_left most (leb→le 2 n t) in omega arith
      | inr t ↦ ground arith
    ]

-- Where no more votes are given than there are users, check_for_vote1_end says yes exactly when some target
-- has more than half of the users' votes or all have voted: that a single target has most is no further test.
pub check_for_vote1_end_lem :
    (v : Votes) (all : ℕ)
    → total_votes v ≤ all
    → check_for_vote1_end v all ≡ (ltb (all / 2) (max_votes v) || leb all (total_votes v))
unfolding check_for_vote1_end
check_for_vote1_end_lem v all h = elim (Bool-cases (ltb (all / 2) (max_votes v))) [
  | inl e ↦ rw (e, alone v all h (ltb→lt (all / 2) (max_votes v) e)) refl
  | inr e ↦ rw e refl
]

-- While no user has the id 1000000, a vote for the night, which is process_day with that id, changes
-- nothing.
pub process_day-night_id :
    (now uid : ℕ) (g : Game)
    → has_key night_id g.gamers_by_id ≡ false
    → process_day now uid night_id g ≡ g
unfolding process_day
process_day-night_id now uid g h = rw h (elim (Bool-cases (has_key uid g.gamers_by_id)) [
  | inl e ↦ rw e (elim (Bool-cases g.vote1) [ inl d ↦ rw d refl | inr d ↦ rw d refl ])
  | inr e ↦ rw e (elim (Bool-cases g.vote1) [ inl d ↦ rw d refl | inr d ↦ rw d refl ])
])
