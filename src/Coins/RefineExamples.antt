-- ===== src/Coins/RefineExamples.antt =====
-- Concrete runs of the theorems on a `CoinDatabase` as a set of coins: a transaction that makes two
-- coins, and one that spends the first of them.
use crypt_bank.Prelude.{ℕ, ◌^◌, ◌<◌, ◌≡◌, refl, true, false, Option, none, some, [], ◌∷◌, arith}
use crypt_bank.Proto.Instance.{word_proto}
use crypt_bank.Crypto
use crypt_bank.Crypto.Constants.{constants}
use crypt_bank.Primitives.{
  TransactionInput, Transaction, serialize_transaction, transaction_message, input_message,
  output_message,
}
use crypt_bank.Env.{transaction_hash}
use crypt_bank.Coins
use crypt_bank.Coins.{
  CoinDatabase, validate_transaction, validate_block, flush_main_cache, spend_input, add_output,
  validate_and_store_block,
}
use crypt_bank.Coins.View.{has_coin, SameCoins}
use crypt_bank.Coins.Validate.{CoinSet, covers_block, validate_block-covers_block}
use crypt_bank.Coins.Flush.{flush_main_cache-SameCoins}
use crypt_bank.Coins.Represents.{Represents, with_coin, without}
use crypt_bank.Coins.Spend.{spend_input-Represents}
use crypt_bank.Coins.Apply.{CanApply, spend_all, add_all, apply_block, store_block-Represents}
use crypt_bank.Coins.Start.{no_coins, empty-Represents}
use crypt_bank.Examples.{test_env}

abbrev mint : Transaction
mint = record {
  transaction_inputs = [];
  transaction_outputs =
      record { amount = 100; public_key = 5 } ∷ record { amount = 50; public_key = 6 } ∷ [];
  version = 1;
  lock_time = 0;
}

abbrev mint_hash : ℕ
mint_hash = transaction_hash test_env mint

abbrev first_coin : TransactionInput
first_coin = record { reference_transaction_hash = mint_hash; utxo_index = 0; signature = 7 }

abbrev payment : Transaction
payment = record mint {
  transaction_inputs = first_coin ∷ [];
  transaction_outputs = record { amount = 100; public_key = 9 } ∷ [];
}

abbrev minted_coins : CoinSet
minted_coins = apply_block test_env no_coins (mint ∷ [])

mint-CanApply : CanApply test_env no_coins (mint ∷ [])
unfolding apply_block spend_all add_all with_coin without transaction_hash Crypto.hash
    serialize_transaction transaction_message input_message output_message word_proto constants
mint-CanApply = (tt, (omega arith, refl, (omega arith, refl, tt)), tt)

abbrev coins_or : Option CoinDatabase → CoinDatabase
coins_or none = Coins.empty
coins_or (some c) = c

abbrev minted : CoinDatabase
minted = coins_or (Coins.store_block test_env Coins.empty (mint ∷ []))

minted-Represents : Represents test_env minted minted_coins
minted-Represents =
    let (c, e, r) =
      store_block-Represents test_env Coins.empty no_coins (mint ∷ []) (empty-Represents test_env)
        mint-CanApply in
    rw e r

first_held : minted_coins mint_hash 0 ≡ true
unfolding apply_block spend_all add_all with_coin without transaction_hash Crypto.hash
    serialize_transaction transaction_message input_message output_message word_proto constants
first_held = refl

third_absent : minted_coins mint_hash 2 ≡ false
unfolding apply_block spend_all add_all with_coin without transaction_hash Crypto.hash
    serialize_transaction transaction_message input_message output_message word_proto constants
third_absent = refl

payment-CanApply : CanApply test_env minted_coins (payment ∷ [])
unfolding apply_block spend_all add_all with_coin without transaction_hash Crypto.hash
    serialize_transaction transaction_message input_message output_message word_proto constants
payment-CanApply = ((refl, tt), (omega arith, refl, tt), tt)

mint_hash_range : mint_hash < 2 ^ 32
unfolding transaction_hash Crypto.hash serialize_transaction transaction_message input_message
    output_message word_proto constants
mint_hash_range = omega arith

validate_block-covers_block_example :
    (c : CoinDatabase) × (validate_block test_env minted (payment ∷ payment ∷ [])
      ≡ some (covers_block (has_coin test_env minted) (payment ∷ payment ∷ []), c))
    × SameCoins test_env minted c
validate_block-covers_block_example =
    validate_block-covers_block test_env minted (payment ∷ payment ∷ []) minted-Represents.sound

flush_main_cache-SameCoins_example :
    (c : CoinDatabase) × (flush_main_cache test_env minted ≡ some c)
    × SameCoins test_env minted c
    × (c.main_cache ≡ [])
    × (c.main_cache_size ≡ 0)
flush_main_cache-SameCoins_example =
    flush_main_cache-SameCoins test_env minted minted-Represents.sound

spend_input-Represents_example :
    (c : CoinDatabase) × (spend_input test_env minted first_coin ≡ some c)
    × Represents test_env c (without minted_coins mint_hash 0)
spend_input-Represents_example =
    spend_input-Represents test_env minted minted_coins minted-Represents first_coin first_held

store_block-Represents_example :
    (c : CoinDatabase) × (Coins.store_block test_env minted (payment ∷ []) ≡ some c)
    × Represents test_env c (apply_block test_env minted_coins (payment ∷ []))
store_block-Represents_example =
    store_block-Represents test_env minted minted_coins (payment ∷ []) minted-Represents
      payment-CanApply
