-- ===== src/Chat/Credits/Transfers.antt =====
-- What buy_thing of chatserver/user_credits.cpp does to the accounts.
use tusa.Common.{ℕ, ◌≡◌, ◌≢◌, refl, List, false, ◌||◌}
use tusa.Common.{◌==◌, if◌then◌else◌, Bool-cases, inl, inr, arith}
use tusa.Chat.Credits.{Bank, Credits, thrown, refused, bought, move, buy_thing}

-- An update of a row that is there changes its sum, and no other row's; and the rows stay.
pub record BankLaws {A S : Type 0} (b : Bank A S) (HasRow : ℕ → S → Type 0) : Type 0 where
  pub summa_increase :
      (i j : ℕ) (x : A) (s : S)
      → HasRow i s
      → b.summa j (b.increase x i s) ≡ (if j == i then b.add (b.summa i s) x else b.summa j s)
  pub summa_decrease :
      (i j : ℕ) (x : A) (s : S)
      → HasRow i s
      → b.summa j (b.decrease x i s) ≡ (if j == i then b.sub (b.summa i s) x else b.summa j s)
  pub has_row_decrease : (i j : ℕ) (x : A) (s : S) → HasRow j s → HasRow j (b.decrease x i s)

thrown_other : thrown ≢ bought
thrown_other p = cc

refused_other : refused ≢ bought
refused_other p = cc

module _ {A S : Type 0} (b : Bank A S) (HasRow : ℕ → S → Type 0) (l : BankLaws b HasRow) where
  -- The sum of an account after x has gone from one to another
  abbrev pub moved : ℕ → ℕ → A → ℕ → S → A
  moved from to x j s =
      if j == to
      then b.add (b.summa to s) x
      else if j == from
      then b.sub (b.summa from s) x
      else b.summa j s

  summa-move :
      (from to j : ℕ) (x : A) (s : S)
      → (from == to) ≡ false
      → HasRow from s
      → HasRow to s
      → b.summa j (move b from to x s) ≡ moved from to x j s
  unfolding move
  summa-move from to j x s n h k =
      let u = b.decrease x from s in
      let e : (to == from) ≡ false = ground arith in
      let p = l.summa_increase to j x u (l.has_row_decrease from to x s k) in
      let q : b.summa to u ≡ b.summa to s = rw e at (l.summa_decrease from to x s h) in
      rw (p, q, l.summa_decrease from j x s h) refl

  -- buy_thing says bought exactly if the sum is not negative, the users are not the same and the buyer has the
  -- sum; then the sum has gone from the one account to the other, and every other account is as it was. In every
  -- other case all accounts and the transactions are as they were.
  pub buy_thing-moves :
      (from to : ℕ) (x : A) (opcode : List ℕ) (now : ℕ) (c : Credits A S)
      → HasRow from c.accounts
      → HasRow to c.accounts
      → (if b.is_negative x || from == to || b.is_below (b.summa from c.accounts) x
          then (((buy_thing b from to x opcode now c).0 ≢ bought)
              × ((buy_thing b from to x opcode now c).1 ≡ c))
          else (((buy_thing b from to x opcode now c).0 ≡ bought)
              × ((j : ℕ)
                  → b.summa j (buy_thing b from to x opcode now c).1.accounts
                    ≡ moved from to x j c.accounts)))
  unfolding buy_thing
  buy_thing-moves from to x opcode now c h k = elim (Bool-cases (b.is_negative x)) [
    | inl e ↦ rw e (thrown_other, refl)
    | inr e ↦ elim (Bool-cases (from == to)) [
      | inl f ↦ rw (e, f) (refused_other, refl)
      | inr f ↦ elim (Bool-cases (b.is_below (b.summa from c.accounts) x)) [
        | inl g ↦ rw (e, f, g) (refused_other, refl)
        | inr g ↦ rw (e, f, g) (refl, λ j. summa-move from to j x c.accounts f h k)
      ]
    ]
  ]
