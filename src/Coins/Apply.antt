-- ===== src/Coins/Apply.antt =====
-- Storing blocks of transactions, against the set of coins.
use crypt_bank.Prelude.{
  ℕ, ◌+◌, ◌%◌, ◌^◌, ◌≡◌, refl, ◌∙◌, true, false, some, List, [], ◌∷◌, arith, nat_eq, bytes_eq,
}
use crypt_bank.Prelude.Map.{erase}
use mathlib.Core.Path.{fun_ext}
use crypt_bank.Primitives.{TransactionInput, TransactionOutput, Transaction}
use crypt_bank.Primitives.InRange.{IsOutput}
use crypt_bank.Proto.{IsU32}
use crypt_bank.Crypto.Bounds.{hash-lt}
use crypt_bank.Env.{Env, transaction_hash}
use crypt_bank.Coins.{
  CoinDatabase, spend_inputs, add_outputs, store_transactions_to_main_cache,
  remove_transactions_from_mempool, store_block, validate_block, validate_and_store_block,
}
use crypt_bank.Coins.View.{copies, has_coin}
use crypt_bank.Coins.Validate.{CoinSet, covers_block, validate_block-covers_block}
use crypt_bank.Coins.Represents.{Represents, SameCoins-Represents, without, with_coin}
use crypt_bank.Coins.Spend.{spend_input-Represents}
use crypt_bank.Coins.Add.{add_output-Represents}

unfoldable pub spend_all : CoinSet → List TransactionInput → CoinSet
spend_all s [] = s
spend_all s (i ∷ is) = spend_all (without s i.reference_transaction_hash i.utxo_index) is

unfoldable pub add_all : CoinSet → ℕ → ℕ → List TransactionOutput → CoinSet
add_all s hash n [] = s
add_all s hash n (o ∷ os) = add_all (with_coin s hash (n % 2 ^ 8)) hash (n + 1) os

-- Each input names a coin that the ones before it left.
abbrev pub CanSpend : CoinSet → List TransactionInput → Type 0
CanSpend s [] = Unit
CanSpend s (i ∷ is) =
    (s i.reference_transaction_hash i.utxo_index ≡ true)
    × CanSpend (without s i.reference_transaction_hash i.utxo_index) is

-- Each output is in range and makes a coin that is not there.
abbrev pub CanAdd : CoinSet → ℕ → ℕ → List TransactionOutput → Type 0
CanAdd s hash n [] = Unit
CanAdd s hash n (o ∷ os) =
    IsOutput o
    × (s hash (n % 2 ^ 8) ≡ false)
    × CanAdd (with_coin s hash (n % 2 ^ 8)) hash (n + 1) os

module _ (env : Env) where
  -- The transactions in their order: each spends its inputs, then adds its outputs.
  unfoldable pub apply_block : CoinSet → List Transaction → CoinSet
  apply_block s [] = s
  apply_block s (t ∷ ts) =
      apply_block
        (add_all (spend_all s t.transaction_inputs) (transaction_hash env t) 0
          t.transaction_outputs)
        ts

  abbrev pub CanApply : CoinSet → List Transaction → Type 0
  CanApply s [] = Unit
  CanApply s (t ∷ ts) =
      CanSpend s t.transaction_inputs
      × CanAdd (spend_all s t.transaction_inputs) (transaction_hash env t) 0 t.transaction_outputs
      × CanApply
          (add_all (spend_all s t.transaction_inputs) (transaction_hash env t) 0
            t.transaction_outputs)
          ts

  pub transaction_hash-IsU32 : (t : Transaction) → IsU32 (transaction_hash env t)
  unfolding transaction_hash
  transaction_hash-IsU32 t = hash-lt env.stack_bytes env.stack_word _

  spend_inputs-Represents :
      (c : CoinDatabase) (s : CoinSet) (is : List TransactionInput)
      → Represents env c s
      → CanSpend s is
      → (c' : CoinDatabase) × (spend_inputs env c is ≡ some c') × Represents env c' (spend_all s is)
  unfolding spend_inputs spend_all
  spend_inputs-Represents c s [] r can = (c, refl, r)
  spend_inputs-Represents c s (i ∷ is) r (held, can) =
      let (c1, e, r1) = spend_input-Represents env c s r i held in
      let (c2, e2, r2) = spend_inputs-Represents c1 _ is r1 can in (c2, rw e e2, r2)

  add_outputs-Represents :
      (c : CoinDatabase) (s : CoinSet) (hash n : ℕ) (os : List TransactionOutput)
      → IsU32 hash
      → Represents env c s
      → CanAdd s hash n os
      → (c' : CoinDatabase) × (add_outputs env c hash n os ≡ some c')
        × Represents env c' (add_all s hash n os)
  unfolding add_outputs add_all
  add_outputs-Represents c s hash n [] h r can = (c, refl, r)
  add_outputs-Represents c s hash n (o ∷ os) h r (ho, fresh, can) =
      let (c1, e, r1) = add_output-Represents env c s hash n o r h ho fresh in
      let (c2, e2, r2) = add_outputs-Represents c1 _ hash (n + 1) os h r1 can in (c2, rw e e2, r2)

  store_transactions-Represents :
      (c : CoinDatabase) (s : CoinSet) (ts : List Transaction)
      → Represents env c s
      → CanApply s ts
      → (c' : CoinDatabase) × (store_transactions_to_main_cache env c ts ≡ some c')
        × Represents env c' (apply_block s ts)
  unfolding store_transactions_to_main_cache apply_block
  store_transactions-Represents c s [] r can = (c, refl, r)
  store_transactions-Represents c s (t ∷ ts) r (spends, adds, can) =
      let (c1, e1, r1) = spend_inputs-Represents c s t.transaction_inputs r spends in
      let (c2, e2, r2) =
        add_outputs-Represents c1 _ (transaction_hash env t) 0 t.transaction_outputs
          (transaction_hash-IsU32 t) r1 adds in
      let (c3, e3, r3) = store_transactions-Represents c2 _ ts r2 can in (c3, rw e1 (rw e2 e3), r3)

  -- The mempool is no part of the set.
  remove_transactions-Represents :
      (c : CoinDatabase) (s : CoinSet) (ts : List Transaction)
      → Represents env c s
      → Represents env (remove_transactions_from_mempool env c ts) s
  unfolding remove_transactions_from_mempool
  remove_transactions-Represents c s [] r = r
  remove_transactions-Represents c s (t ∷ ts) r =
      remove_transactions-Represents
        (record c { mempool_cache = erase (transaction_hash env t) c.mempool_cache }) s ts
        (record {
          sound = record { records = r.sound.records; cached = r.sound.cached };
          copies = λ h i. unfold copies in r.copies h i;
        })

  -- Where a coin database represents a set of coins, and each transaction of a block in its turn
  -- spends coins of the set and makes coins in range that are not in it, `store_block` does not
  -- fault, flushes included, and represents the set after these spendings and additions.
  pub store_block-Represents :
      (c : CoinDatabase) (s : CoinSet) (ts : List Transaction)
      → Represents env c s
      → CanApply s ts
      → (c' : CoinDatabase) × (store_block env c ts ≡ some c')
        × Represents env c' (apply_block s ts)
  unfolding store_block
  store_block-Represents c s ts r can =
      store_transactions-Represents (remove_transactions_from_mempool env c ts) s ts
        (remove_transactions-Represents c s ts r) can

  -- What validation finds held is what is in the set.
  pub has_coin-Represents :
      (c : CoinDatabase) (s : CoinSet) → Represents env c s → has_coin env c ≡ s
  unfolding has_coin
  has_coin-Represents c s r = fun_ext λ h. fun_ext λ i. rw (r.copies h i) (ground arith)

  pub validate_block-Represents :
      (c : CoinDatabase) (s : CoinSet) (ts : List Transaction)
      → Represents env c s
      → (c' : CoinDatabase) × (validate_block env c ts ≡ some (covers_block s ts, c'))
        × Represents env c' s
  validate_block-Represents c s ts r =
      let (c', e, same) = validate_block-covers_block env c ts r.sound in
      (c', e ∙ rw (has_coin-Represents c s r) refl, SameCoins-Represents env same r)

  -- A block with an input that names no coin of the set is rejected without a fault, and the set
  -- stays.
  pub validate_and_store_block-rejected :
      (c : CoinDatabase) (s : CoinSet) (ts : List Transaction)
      → Represents env c s
      → covers_block s ts ≡ false
      → (c' : CoinDatabase) × (validate_and_store_block env c ts ≡ some (false, c'))
        × Represents env c' s
  unfolding validate_and_store_block
  validate_and_store_block-rejected c s ts r not_covered =
      let (c', e, r') = validate_block-Represents c s ts r in (c', rw e (rw not_covered refl), r')
