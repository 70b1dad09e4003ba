-- ===== src/Bot/Roulette/Bets/Numbers.antt =====
-- The numbers that do_num_stawka of bot/bot-roulette/game.cpp reads from a bet.
use tusa.Common.{
  ℕ, zero, suc, ◌+◌, ◌-◌, ◌^◌, ◌≤◌, ◌<◌, ◌≡◌, ◌⊎◌, ◌∙◌, List, [], ◌∷◌, false, ◌&&◌, ◌||◌,
}
use tusa.Common.{ltb, leb, ◌==◌, if◌then◌else◌, if-both, if-cases, inl, All, arith}
use tusa.Common.Maps.{member, set_insert, member-set_insert}
use mathlib.Core.Path.{subst}
use tusa.Bot.Texts.{signed_digits, atoi, split_tok}
use tusa.Bot.Roulette.State.{above_36, not_positive, bad_order}
use tusa.Bot.Roulette.Bets.{Parsed, wrong, numbers, signed_ltb, insert_run, range, token, read_nums}

-- A pocket, or an int below zero.
abbrev pub IsNumber : ℕ → Type 0
IsNumber n = (n ≤ 36) ⊎ (2 ^ 31 ≤ n)

set_insert-All : (x : ℕ) (s : List ℕ) → All IsNumber s → IsNumber x → All IsNumber (set_insert x s)
unfolding set_insert
set_insert-All x [] h e = (e, tt)
set_insert-All x (y ∷ s) (d, h) e =
    if-both (All IsNumber) (ltb x y) (x ∷ y ∷ s) (if x == y then y ∷ s else y ∷ set_insert x s)
      (e, (d, h))
      (if-both (All IsNumber) (x == y) (y ∷ s) (y ∷ set_insert x s) (d, h)
        (d, set_insert-All x s h e))

insert_run-All :
    (start n : ℕ) (s : List ℕ)
    → start + n ≤ 37
    → All IsNumber s
    → All IsNumber (insert_run start n s)
unfolding insert_run
insert_run-All start zero s e h = h
insert_run-All start (suc n) s e h =
    insert_run-All (start + 1) n (set_insert start s) (omega arith)
      (set_insert-All start s h (inl (omega arith)))

signed_digits-lt : (s : List ℕ) → signed_digits s < 2 ^ 32
unfolding signed_digits
signed_digits-lt [] = omega arith
signed_digits-lt (c ∷ s) = ground arith

pub atoi-lt : (s : List ℕ) → atoi s < 2 ^ 32
unfolding atoi
atoi-lt [] = omega arith
atoi-lt (c ∷ s) = ground (arith, atoi-lt s, signed_digits-lt (c ∷ s))

member-insert_run :
    (j start n : ℕ) (s : List ℕ)
    → member j (insert_run start n s) ≡ (leb start j && ltb j (start + n) || member j s)
unfolding insert_run
member-insert_run j start zero s = ground arith
member-insert_run j start (suc n) s =
    member-insert_run j (start + 1) n (set_insert start s)
    ∙ rw (member-set_insert j start s) (ground arith)

-- The outcome is a notice, or a set with a property.
abbrev Result : (List ℕ → Type 0) → Parsed → Type 0
Result P (wrong n) = Unit
Result P (numbers s) = P s

range-All :
    (start end : ℕ) (s : List ℕ)
    → start < 2 ^ 32
    → end < 2 ^ 32
    → All IsNumber s
    → Result (All IsNumber) (range start end s)
unfolding range
range-All start end s a b h =
    if-cases (Result (All IsNumber)) (signed_ltb 36 end) (wrong above_36) _ (λ e. tt)
      (λ e.
        if-cases (Result (All IsNumber)) (signed_ltb start 0) (wrong not_positive) _ (λ e. tt)
          (λ f.
            if-cases (Result (All IsNumber)) (signed_ltb end start) (wrong bad_order)
              (numbers (insert_run start (end + 1 - start) s)) (λ e. tt)
              (λ g. insert_run-All start (end + 1 - start) s (ground arith) h)))

in_range : (n : ℕ) → n < 2 ^ 32 → signed_ltb 36 n ≡ false → IsNumber n
in_range n b e = ground arith

token_one-All :
    (a : List ℕ) (s : List ℕ) → All IsNumber s → Result (All IsNumber) (token (a ∷ []) s)
unfolding token
token_one-All a s h =
    if-cases (All IsNumber) (signed_ltb 36 (atoi a)) s (set_insert (atoi a) s) (λ e. h)
      (λ e. set_insert-All (atoi a) s h (in_range (atoi a) (atoi-lt a) e))

token-All : (vm : List (List ℕ)) (s : List ℕ) → All IsNumber s → Result (All IsNumber) (token vm s)
unfolding token
token-All [] s h = tt
token-All (a ∷ []) s h = token_one-All a s h
token-All (a ∷ b ∷ []) s h = range-All (atoi a) (atoi b) s (atoi-lt a) (atoi-lt b) h
token-All (a ∷ b ∷ c ∷ vm) s h = tt

next-All :
    (p : Parsed) (vz : List (List ℕ))
    → Result (All IsNumber) p
    → ((r : List ℕ) → All IsNumber r → Result (All IsNumber) (read_nums vz r))
    → Result (All IsNumber) (elim p [ wrong n ↦ wrong n | numbers r ↦ read_nums vz r ])
next-All (wrong n) vz k f = tt
next-All (numbers r) vz k f = f r k

read_nums-All :
    (vz : List (List ℕ)) (s : List ℕ) → All IsNumber s → Result (All IsNumber) (read_nums vz s)
unfolding read_nums
read_nums-All [] s h = h
read_nums-All (z ∷ vz) s h =
    next-All (token (split_tok (45 ∷ []) z) s) vz (token-All (split_tok (45 ∷ []) z) s h)
      (λ r k. read_nums-All vz r k)

-- Whatever the tokens of a bet are, each number that is read from them is a pocket of the wheel, 0 to 36, or
-- the bit pattern of an int below zero.
pub read_nums-IsNumber :
    (vz : List (List ℕ)) (s : List ℕ) → read_nums vz [] ≡ numbers s → All IsNumber s
read_nums-IsNumber vz s e = subst (Result (All IsNumber)) e (read_nums-All vz [] tt)

-- What a token of two ints does to a set of numbers.
pub IsRange : ℕ → ℕ → List ℕ → Parsed → Type 0
IsRange start end s (wrong n) = (36 < end) ⊎ (end < start)
IsRange start end s (numbers r) =
    (start ≤ end) × (end ≤ 36) × ((j : ℕ) → member j r ≡ (leb start j && leb j end || member j s))

run-IsRange :
    (start end : ℕ) (s : List ℕ)
    → start ≤ end
    → end ≤ 36
    → IsRange start end s (numbers (insert_run start (end + 1 - start) s))
unfolding IsRange
run-IsRange start end s a b =
    (a, b, λ j. rw (member-insert_run j start (end + 1 - start) s) (ground arith))

-- A token of two 32-bit ints is refused if its first number is above the second or the second above
-- 36, an int below zero being a large number here; else the numbers from the first to the second join the set, with
-- both of them, and no other.
pub range-IsRange :
    (start end : ℕ) (s : List ℕ)
    → start < 2 ^ 32
    → end < 2 ^ 32
    → IsRange start end s (range start end s)
unfolding range IsRange
range-IsRange start end s a b =
    if-cases (IsRange start end s) (signed_ltb 36 end) (wrong above_36) _ (λ e. ground arith)
      (λ e.
        if-cases (IsRange start end s) (signed_ltb start 0) (wrong not_positive) _
          (λ f. ground arith)
          (λ f.
            if-cases (IsRange start end s) (signed_ltb end start) (wrong bad_order)
              (numbers (insert_run start (end + 1 - start) s)) (λ g. ground arith)
              (λ g. run-IsRange start end s (ground arith) (ground arith))))
