-- ===== src/Coins/StepExamples.antt =====
-- Concrete sequences of operations of `CoinDatabase`: a stored block, and 70 stored transactions.
use crypt_bank.Prelude.{ℕ, zero, suc, ◌≡◌, refl, Option, none, some, [], ◌∷◌}
use crypt_bank.Primitives.{Transaction}
use crypt_bank.Examples.{test_env, test_transaction}
use crypt_bank.Coins.{CoinDatabase, empty, store_block, store_transaction}
use crypt_bank.Coins.Bounds.{IsBounded}
use crypt_bank.Coins.Reachable.{
  Steps, here, after, on_store_block, on_store_transaction, Steps-IsBounded, store_transaction-full,
}

-- It has no inputs, and one output.
abbrev coinbase : Transaction
coinbase = record test_transaction { transaction_inputs = [] }

abbrev database_or : Option CoinDatabase → CoinDatabase
database_or none = empty
database_or (some c) = c

abbrev after_block : CoinDatabase
after_block = database_or (store_block test_env empty (coinbase ∷ []))

block_stored : store_block test_env empty (coinbase ∷ []) ≡ some after_block
unfolding store_block
block_stored = refl

Steps-IsBounded_example : IsBounded (store_transaction test_env after_block test_transaction)
Steps-IsBounded_example =
    Steps-IsBounded test_env (store_transaction test_env after_block test_transaction) (
      after (after here (on_store_block (coinbase ∷ []) block_stored))
        (on_store_transaction test_transaction))

abbrev store_times : ℕ → CoinDatabase
store_times zero = empty
store_times (suc n) = store_transaction test_env (store_times n) test_transaction

Steps-store_times : (n : ℕ) → Steps test_env empty (store_times n)
Steps-store_times zero = here
Steps-store_times (suc n) = after (Steps-store_times n) (on_store_transaction test_transaction)

full_after_70 : (store_times 70).mempool_size ≡ 70
unfolding store_transaction
full_after_70 = refl

store_transaction-full_example :
    store_transaction test_env (store_times 71) coinbase ≡ store_times 71
store_transaction-full_example =
    store_transaction-full test_env (store_times 70) (store_times 71) coinbase
      (Steps-store_times 70) full_after_70 (after here (on_store_transaction test_transaction))
