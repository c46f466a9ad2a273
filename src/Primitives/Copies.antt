-- ===== src/Primitives/Copies.antt =====
-- `Block::get_transactions` against the transactions of the block.
use crypt_bank.Prelude.{◌≡◌, refl, List, [], ◌∷◌, map}
use crypt_bank.Primitives.{
  TransactionInput, TransactionOutput, Transaction, Block, new_transaction, copy_input, copy_output,
  copy_transactions, get_transactions,
}

-- A transaction without its version and lock time.
abbrev pub stripped : Transaction → Transaction
stripped t = record t { version = 0; lock_time = 0 }

copy_inputs_id : (xs : List TransactionInput) → map copy_input xs ≡ xs
unfolding copy_input
copy_inputs_id [] = refl
copy_inputs_id (x ∷ xs) = rw (copy_inputs_id xs)

copy_outputs_id : (xs : List TransactionOutput) → map copy_output xs ≡ xs
unfolding copy_output
copy_outputs_id [] = refl
copy_outputs_id (x ∷ xs) = rw (copy_outputs_id xs)

copy_transactions-stripped : (ts : List Transaction) → copy_transactions [] [] ts ≡ map stripped ts
unfolding copy_transactions new_transaction
copy_transactions-stripped [] = refl
copy_transactions-stripped (t ∷ ts) = cc (
  copy_inputs_id t.transaction_inputs,
  copy_outputs_id t.transaction_outputs,
  copy_transactions-stripped ts,
)

-- `get_transactions` copies every transaction, in order and with all its inputs and outputs, but
-- with version and lock time 0, whatever they were.
pub get_transactions-stripped : (b : Block) → get_transactions b ≡ map stripped b.transactions
unfolding get_transactions
get_transactions-stripped b = copy_transactions-stripped b.transactions
