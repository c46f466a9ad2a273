-- ===== src/Coins/Validate.antt =====
-- `validate_transaction` and `validate_block` against the set of coins that is held.
use crypt_bank.Prelude.{
  ℕ, ◌≡◌, refl, ap, ◌∙◌, inl, inr, Bool, true, ◌&&◌, some, List, [], ◌∷◌, leb, Bool-cases,
}
use mathlib.Core.Path.{fun_ext}
use crypt_bank.Primitives.{TransactionInput, Transaction}
use crypt_bank.Env.{Env}
use crypt_bank.Coins.{CoinDatabase, validate_inputs, validate_transaction, validate_block}
use crypt_bank.Coins.View.{has_coin, IsSound, SameCoins, SameCoins-trans, validate_input-has_coin}

-- A set of coins: the coin `i` of transaction `h` is in it.
abbrev pub CoinSet : Type 0
CoinSet = ℕ → ℕ → Bool

-- Every input names a coin of the set, each on its own.
unfoldable pub covers : CoinSet → List TransactionInput → Bool
covers s [] = true
covers s (i ∷ is) = s i.reference_transaction_hash i.utxo_index && covers s is

unfoldable pub covers_block : CoinSet → List Transaction → Bool
covers_block s [] = true
covers_block s (t ∷ ts) = covers s t.transaction_inputs && covers_block s ts

module _ (env : Env) where
  pub SameCoins-refl : (c : CoinDatabase) → IsSound env c → SameCoins env c c
  SameCoins-refl c s = record {
    sound = s;
    copies = λ h i. refl;
    mempool = refl;
    mempool_size = refl;
  }

  pub has_coin-SameCoins :
      {c c' : CoinDatabase} → SameCoins env c c' → has_coin env c' ≡ has_coin env c
  unfolding has_coin
  has_coin-SameCoins same = fun_ext λ h. fun_ext λ i. ap (leb 1) (same.copies h i)

  validate_inputs-covers :
      (c : CoinDatabase) (is : List TransactionInput)
      → IsSound env c
      → (c' : CoinDatabase) × (validate_inputs env c is ≡ some (covers (has_coin env c) is, c'))
        × SameCoins env c c'
  unfolding validate_inputs covers
  validate_inputs-covers c [] s = (c, refl, SameCoins-refl c s)
  validate_inputs-covers c (i ∷ is) s =
      let (c1, e, same) = validate_input-has_coin env c s i in
      let (c2, e2, same2) = validate_inputs-covers c1 is same.sound in
      elim (Bool-cases (has_coin env c i.reference_transaction_hash i.utxo_index)) [
        | inl held ↦ (
          c2,
          rw e (rw held (e2 ∙ rw (has_coin-SameCoins same) refl)),
          SameCoins-trans env same same2,
        )
        | inr unknown ↦ (c1, rw e (rw unknown refl), same)
      ]

  -- Where the database has a record in range under every hash and the cache only unspent coins,
  -- `validate_transaction` does not fault, and answers whether each input on its own names a coin
  -- that is held. It leaves the coins that are held and the mempool.
  pub validate_transaction-covers :
      (c : CoinDatabase) (t : Transaction)
      → IsSound env c
      → (c' : CoinDatabase) × (validate_transaction env c t
          ≡ some (covers (has_coin env c) t.transaction_inputs, c'))
        × SameCoins env c c'
  unfolding validate_transaction
  validate_transaction-covers c t s = validate_inputs-covers c t.transaction_inputs s

  -- Where the database has a record in range under every hash and the cache only unspent coins in
  -- range, `validate_block` does not fault, and answers whether every input of every transaction
  -- names a coin that is held before the block: no coin of an earlier transaction of the block
  -- counts, and one that an earlier one spends still does. It leaves the coins that are held and
  -- the mempool.
  pub validate_block-covers_block :
      (c : CoinDatabase) (ts : List Transaction)
      → IsSound env c
      → (c' : CoinDatabase) × (validate_block env c ts
          ≡ some (covers_block (has_coin env c) ts, c'))
        × SameCoins env c c'
  unfolding validate_block covers_block
  validate_block-covers_block c [] s = (c, refl, SameCoins-refl c s)
  validate_block-covers_block c (t ∷ ts) s =
      let (c1, e, same) = validate_transaction-covers c t s in
      let (c2, e2, same2) = validate_block-covers_block c1 ts same.sound in
      elim (Bool-cases (covers (has_coin env c) t.transaction_inputs)) [
        | inl held ↦ (
          c2,
          rw e (rw held (e2 ∙ rw (has_coin-SameCoins same) refl)),
          SameCoins-trans env same same2,
        )
        | inr unknown ↦ (c1, rw e (rw unknown refl), same)
      ]
