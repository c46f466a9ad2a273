-- ===== src/Coins/Undo.antt =====
-- `CoinDatabase::undo_coins` of core/src/coin_database/coin_database.cpp, both loops as they are
-- written: a body runs only where its index equals the size.
use crypt_bank.Prelude.{
  ℕ, zero, suc, ◌+◌, ◌%◌, ◌^◌, ◌≡◌, refl, Bool, true, false, ◌||◌, Option, none, some, List, [],
  ◌∷◌, arith, ltb, nat_beq, if◌then◌else◌, length, get_elem?, Bytes, bytes_eq, ◌>>=◌,
}
use crypt_bank.Prelude.Map.{contains}
use crypt_bank.Text.{to_string}
use crypt_bank.Db
use crypt_bank.Records.{new_coin_record, UndoCoinRecord, UndoBlock}
use crypt_bank.Locator
use crypt_bank.Locator.{serialize_from_construct}
use crypt_bank.Env.{Env}
use crypt_bank.Coins.{CoinDatabase, position, erase_coin, push_coin, load_record, save_record}

-- A fault ends a loop that still has fuel.
abbrev or_fault {ℓ κ} :
    {A : Type ℓ} {B : Type κ} → Option A → (A → Option (Option B)) → Option (Option B)
or_fault none rest = some none
or_fault (some a) rest = rest a

module _ (env : Env) where
  -- The branch for a coin whose text the cache has: the database record is replaced or created.
  pub restore_record : CoinDatabase → Bytes → ℕ → ℕ → ℕ → ℕ → Option CoinDatabase
  restore_record c hash index output_index amount public_key =
      if Db.has c.database hash
      then (do
        (r, db) ← load_record env c.database hash
        (r', db') ←
            (if ltb (position index r.utxo) (length r.utxo)
              then (do
                erased ← erase_coin index r
                saved ← save_record env db hash erased
                some (erased, saved))
              else some (r, db))
        db'' ← save_record env db' hash (push_coin output_index amount public_key r')
        some (record c { database = db'' }))
      else do
        db ←
            save_record env c.database hash
              (new_coin_record 0 (output_index ∷ []) (amount ∷ []) (public_key ∷ []))
        some (record c { database = db })

  -- The body of the inner loop at index `j`. Where the cache lacks the text, `operator[]` makes a
  -- null pointer and the body writes through it.
  pub undo_coin : CoinDatabase → ℕ → UndoCoinRecord → ℕ → Option CoinDatabase
  undo_coin c transaction_hash r j = do
    index ← get_elem? r.utxo j
    let key = serialize_from_construct transaction_hash (index % 2 ^ 8)
    locator ← Locator.deserialize key
    if contains key c.main_cache
        then (do
          amount ← get_elem? r.amounts j
          public_key ← get_elem? r.public_keys j
          restore_record c (to_string transaction_hash) index locator.output_index amount
              public_key)
        else none

  -- `for (int j = 0; j == size; j++)`, with fuel for the rounds. The outer option is the fuel, the inner
  -- one a fault, which ends the loop.
  pub undo_record : ℕ → CoinDatabase → ℕ → UndoCoinRecord → ℕ → Option (Option CoinDatabase)
  undo_record zero c transaction_hash r j = none
  undo_record (suc fuel) c transaction_hash r j = elim (nat_beq j (length r.utxo)) [
    | true ↦
        or_fault (undo_coin c transaction_hash r j)
          (λ c'. undo_record fuel c' transaction_hash r (j + 1))
    | false ↦ some (some c)
  ]

  -- `for (int i = 0; i == size; i++)`, with fuel for the rounds, and the options as above. The loops
  -- end at the second test at the latest, so that fuel 2 is enough.
  pub undo_transactions : ℕ → CoinDatabase → UndoBlock → ℕ → Option (Option CoinDatabase)
  undo_transactions zero c u i = none
  undo_transactions (suc fuel) c u i = elim (nat_beq i (length u.transaction_hashes)) [
    | true ↦ or_fault (get_elem? u.transaction_hashes i) λ transaction_hash.
        or_fault (get_elem? u.undo_coin_records i) λ r. do
          ended ← undo_record 2 c transaction_hash r 0
          or_fault ended (λ c'. undo_transactions fuel c' u (i + 1))
    | false ↦ some (some c)
  ]

  unfoldable pub undo_coins : CoinDatabase → List UndoBlock → Option CoinDatabase
  unfolding undo_transactions
  undo_coins c [] = some c
  undo_coins c (u ∷ us) = do ended ← undo_transactions 2 c u 0; c' ← ended; undo_coins c' us

  -- Whether an undo block names no transaction.
  abbrev pub is_empty : UndoBlock → Bool
  is_empty u = nat_beq (length u.transaction_hashes) 0

  abbrev pub any_empty : List UndoBlock → Bool
  any_empty [] = false
  any_empty (u ∷ us) = is_empty u || any_empty us

  undo_record-ends :
      (n : ℕ) (c : CoinDatabase) (transaction_hash : ℕ) (r : UndoCoinRecord) (indices : List ℕ)
      → r.utxo ≡ indices
      → undo_record (suc (suc n)) c transaction_hash r 0
        ≡ some (if nat_beq (length indices) 0 then none else some c)
  unfolding undo_record undo_coin
  undo_record-ends n c transaction_hash r [] e = rw e refl
  undo_record-ends n c transaction_hash r (x ∷ xs) e = rw e (ground arith)

  undo_transactions-ends :
      (n : ℕ) (c : CoinDatabase) (u : UndoBlock) (hashes : List ℕ)
      → u.transaction_hashes ≡ hashes
      → undo_transactions (suc (suc n)) c u 0
        ≡ some (if nat_beq (length hashes) 0 then none else some c)
  unfolding undo_transactions
  undo_transactions-ends n c u [] e = rw e refl
  undo_transactions-ends n c u (x ∷ xs) e = rw e (ground arith)

  -- The two loops of `undo_coins` end: with fuel for two rounds or more, neither runs out of it, for
  -- any coin database, undo block, hash and record. From its first index on, each ends with the coin
  -- database as it was where its vector, the hashes or the indices, is not empty, and else with a
  -- fault.
  pub undo_loops-end :
      (n : ℕ) (c : CoinDatabase) (u : UndoBlock) (transaction_hash : ℕ) (r : UndoCoinRecord)
      → (undo_transactions (suc (suc n)) c u 0
          ≡ some (if nat_beq (length u.transaction_hashes) 0 then none else some c))
        × (undo_record (suc (suc n)) c transaction_hash r 0
            ≡ some (if nat_beq (length r.utxo) 0 then none else some c))
  undo_loops-end n c u transaction_hash r = (
    undo_transactions-ends n c u u.transaction_hashes refl,
    undo_record-ends n c transaction_hash r r.utxo refl,
  )

  -- `undo_coins` restores nothing. Where every undo block names a transaction it returns the coin
  -- database as it was; where one names none it reads behind the end of a vector.
  pub undo_coins-no_effect :
      (c : CoinDatabase) (us : List UndoBlock)
      → undo_coins c us ≡ (if any_empty us then none else some c)
  unfolding undo_coins
  undo_coins-no_effect c [] = refl
  undo_coins-no_effect c (u ∷ us) =
      ground
        (arith, undo_transactions-ends 0 c u u.transaction_hashes refl, undo_coins-no_effect c us)
