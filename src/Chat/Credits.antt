-- ===== src/Chat/Credits.antt =====
-- inc_credit_summa and buy_thing of chatserver/user_credits.cpp. The table tbl_users is a parameter: Bank has the
-- queries of it and the operations on doubles. What is logged, and the logins for it, are left out.
pub mod Transfers
use tusa.Common.{ℕ, List, [], ◌∷◌, ◌++◌, Bool, ◌||◌}
use tusa.Common.{◌==◌, if◌then◌else◌}

-- credit_summa of an id, and the updates credit_summa=credit_summa+x and -x of one id
pub record Bank (A S : Type 0) : Type 0 where
  pub add : A → A → A
  pub sub : A → A → A
  pub is_negative : A → Bool
  pub is_below : A → A → Bool
  pub summa : ℕ → S → A
  pub increase : A → ℕ → S → S
  pub decrease : A → ℕ → S → S

pub record CreditTransaction (A : Type 0) : Type 0 where
  pub from_user_id : ℕ
  pub to_user_id : ℕ
  pub summa : A
  pub operation_code : List ℕ
  pub t : ℕ

-- The table and the deque credit_transactions
pub record Credits (A S : Type 0) : Type 0 where
  pub accounts : S
  pub transactions : List (CreditTransaction A)

-- An exception, false or true
pub data Outcome : Type 0 where
  thrown refused bought : Outcome

module _ {A S : Type 0} (b : Bank A S) where
  unfoldable pub inc_credit_summa : ℕ → A → List ℕ → ℕ → Credits A S → Outcome × Credits A S
  inc_credit_summa to x opcode now c = if b.is_negative x then (thrown, c) else (
    bought,
    record {
      accounts = b.increase x to c.accounts;
      transactions =
          c.transactions
          ++ record {
            from_user_id = 0;
            to_user_id = to;
            summa = x;
            operation_code = opcode;
            t = now;
          }
            ∷ [];
    },
  )

  -- The two updates, one after the other
  unfoldable pub move : ℕ → ℕ → A → S → S
  move from to x s = b.increase x to (b.decrease x from s)

  unfoldable pub buy_thing : ℕ → ℕ → A → List ℕ → ℕ → Credits A S → Outcome × Credits A S
  unfolding move
  buy_thing from to x opcode now c =
      if b.is_negative x
      then (thrown, c)
      else if from == to
      then (refused, c)
      else if b.is_below (b.summa from c.accounts) x
      then (refused, c)
      else (
        bought,
        record {
          accounts = move from to x c.accounts;
          transactions =
              c.transactions
              ++ record {
                from_user_id = from;
                to_user_id = to;
                summa = x;
                operation_code = opcode;
                t = now;
              }
                ∷ [];
        },
      )
