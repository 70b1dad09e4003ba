-- ===== src/Bot/Antiflood/Repeats.antt =====
-- The repeated words that check_for_flood of bot/bot-shared/antiflood.cpp looks for.
use tusa.Common.{
  ℕ, zero, suc, ◌+◌, ◌≤◌, ◌<◌, ◌≡◌, refl, ◌∙◌, ap, List, [], ◌∷◌, Bool, true, false, ◌&&◌, ◌||◌,
}
use tusa.Common.{ltb, arith, if-false, Bool-cases, inl, inr}
use tusa.Common.Dicts.{same_string, same_string_eq}
use tusa.Bot.Antiflood.{rep_loop, has_repeats}

-- The list begins with `n` words that are `w`.
unfoldable pub starts_run : ℕ → List ℕ → List (List ℕ) → Bool
starts_run zero w v = true
starts_run (suc n) w [] = false
starts_run (suc n) w (x ∷ v) = same_string x w && starts_run n w v

-- Somewhere a word is followed by `n` that are the same.
unfoldable pub has_run : ℕ → List (List ℕ) → Bool
unfolding starts_run
has_run n [] = false
has_run n (w ∷ v) = starts_run n w v || has_run n v

starts_run-fewer :
    (k n : ℕ) (w : List ℕ) (v : List (List ℕ))
    → k ≤ n
    → starts_run n w v ≡ true
    → starts_run k w v ≡ true
unfolding starts_run
starts_run-fewer zero n w v e h = refl
starts_run-fewer (suc k) zero w v e h = absurd (omega arith)
starts_run-fewer (suc k) (suc n) w [] e h = cc
starts_run-fewer (suc k) (suc n) w (x ∷ v) e h = ground (arith, starts_run-fewer k n w v)

absorbed :
    (k n : ℕ) (w : List ℕ) (v : List (List ℕ))
    → k ≤ n
    → (starts_run k w v || has_run n v) ≡ (starts_run k w v || (starts_run n w v || has_run n v))
absorbed k n w v e = ground (arith, starts_run-fewer k n w v)

rep_loop-next :
    (w prev : List ℕ) (rep : ℕ) (v : List (List ℕ))
    → same_string w prev ≡ true
    → rep < 4
    → rep_loop prev rep (w ∷ v) ≡ rep_loop w (rep + 1) v
unfolding rep_loop
rep_loop-next w prev rep v e h =
    rw (rep_loop, e) (if-false (ltb 4 (rep + 1)) true (rep_loop w (rep + 1) v) (ground arith))

rep_loop-other :
    (w prev : List ℕ) (rep : ℕ) (v : List (List ℕ))
    → same_string w prev ≡ false
    → rep_loop prev rep (w ∷ v) ≡ rep_loop w 0 v
unfolding rep_loop
rep_loop-other w prev rep v e = rw (rep_loop, e) refl

rep_loop-last :
    (w prev : List ℕ) (v : List (List ℕ))
    → same_string w prev ≡ true
    → rep_loop prev 4 (w ∷ v) ≡ true
unfolding rep_loop
rep_loop-last w prev v e = rw (rep_loop, e) refl

rep_loop-nil : (prev : List ℕ) (rep : ℕ) → rep_loop prev rep [] ≡ false
unfolding rep_loop
rep_loop-nil prev rep = refl

-- One more word that is the same
same_word :
    (k rep : ℕ) (prev w : List ℕ) (v : List (List ℕ))
    → rep + suc k ≡ 5
    → same_string w prev ≡ true
    → ((j : ℕ)
        → (rep + 1) + suc j ≡ 5
        → rep_loop w (rep + 1) v ≡ (starts_run (suc j) w v || has_run 5 v))
    → rep_loop prev rep (w ∷ v) ≡ (starts_run (suc k) prev (w ∷ v) || has_run 5 (w ∷ v))
unfolding has_run starts_run
same_word zero rep prev w v e d f =
    let r : rep ≡ 4 = omega arith in rw (r, rep_loop-last w prev v d, d) refl
same_word (suc k) rep prev w v e d f =
    let q : w ≡ prev = same_string_eq w prev d in
    let g : rep_loop w (rep + 1) v ≡ (starts_run (suc k) w v || has_run 5 v) = f k (omega arith) in
    rep_loop-next w prev rep v d (omega arith)
    ∙ g
    ∙ absorbed (suc k) 5 w v (omega arith)
    ∙ rw d (ap (λ p. starts_run (suc k) p v || (starts_run 5 w v || has_run 5 v)) q)

rep_loop-run :
    (k rep : ℕ) (prev : List ℕ) (v : List (List ℕ))
    → rep + suc k ≡ 5
    → rep_loop prev rep v ≡ (starts_run (suc k) prev v || has_run 5 v)
unfolding has_run starts_run
rep_loop-run k rep prev [] e = rep_loop-nil prev rep
rep_loop-run k rep prev (w ∷ v) e = elim (Bool-cases (same_string w prev)) [
  | inl d ↦ same_word k rep prev w v e d (λ j. rep_loop-run j (rep + 1) w v)
  | inr d ↦ rw (rep_loop-other w prev rep v d, d) (rep_loop-run 4 0 w v (omega arith))
]

-- The loop of check_for_flood over the words of a message says yes exactly if somewhere a word is followed by five that
-- are the same.
pub has_repeats-run : (v : List (List ℕ)) → has_repeats v ≡ has_run 5 v
unfolding has_repeats has_run
has_repeats-run [] = refl
has_repeats-run (w ∷ v) = rep_loop-run 4 0 w v (omega arith)
