-- ===== src/Coins.antt =====
-- core/src/coin_database/coin_database.cpp, class `CoinDatabase`: validation of transactions, the
-- cache of coins over the database of coin records, and the mempool. `none` is a fault.
pub mod Undo
pub mod Bounds
pub mod Records
pub mod View
pub mod Validate
pub mod Flush
pub mod Erase
pub mod Represents
pub mod Spend
pub mod Add
pub mod Apply
pub mod Start
pub mod Growth
pub mod Reachable
pub mod StepExamples
pub mod RefineExamples
use crypt_bank.Prelude.{
  ℕ, zero, suc, ◌+◌, ◌-◌, ◌%◌, ◌^◌, Bool, true, false, not, Option, none, some, List, [], ◌∷◌, ◌++◌,
  leb, nat_beq, if◌then◌else◌, Bytes, nat_eq, bytes_eq, ◌>>=◌,
}
use crypt_bank.Prelude.Map.{Map, find, contains, insert, erase}
use crypt_bank.Text.{to_string}
use crypt_bank.Db
use crypt_bank.Db.{Database}
use crypt_bank.Primitives.{TransactionInput, TransactionOutput, Transaction}
use crypt_bank.Records.{CoinRecord, new_coin_record, serialize_coin_record, deserialize_coin_record}
use crypt_bank.Locator
use crypt_bank.Locator.{CoinLocator, serialize_from_construct}
use crypt_bank.Env.{Env, transaction_hash}

pub record Coin : Type 0 where
  pub transaction_output : TransactionOutput
  pub is_spent : Bool

-- `Coin::Coin`
abbrev pub new_coin : TransactionOutput → Bool → Coin
new_coin transaction_output is_spent = record {
  transaction_output = transaction_output;
  is_spent = is_spent;
}

-- Both capacities are constants of the constructor.
pub record CoinDatabase : Type 0 where
  pub database : Database
  pub main_cache : Map Bytes Coin
  pub main_cache_size : ℕ
  pub mempool_cache : Map ℕ Transaction
  pub mempool_size : ℕ

abbrev pub main_cache_capacity : ℕ
main_cache_capacity = 70

abbrev pub mempool_capacity : ℕ
mempool_capacity = 70

abbrev pub empty : CoinDatabase
empty = record {
  database = Db.empty;
  main_cache = [];
  main_cache_size = 0;
  mempool_cache = [];
  mempool_size = 0;
}

-- `std::find(xs.begin(), xs.end(), x) - xs.begin()`
unfoldable pub position : ℕ → List ℕ → ℕ
position x [] = 0
position x (y ∷ ys) = let rest = position x ys in if nat_beq y x then 0 else suc rest

-- `xs.erase(xs.begin() + i)`, which must not stand at the end.
unfoldable pub erase_at : ℕ → List ℕ → Option (List ℕ)
erase_at i [] = none
erase_at zero (x ∷ xs) = some xs
erase_at (suc i) (x ∷ xs) = do rest ← erase_at i xs; some (x ∷ rest)

unfoldable pub contains_index : ℕ → List ℕ → Bool
contains_index x [] = false
contains_index x (y ∷ ys) = if nat_beq x y then true else contains_index x ys

-- The three `erase` calls on a record, at the position of `index` in `utxo`.
unfoldable pub erase_coin : ℕ → CoinRecord → Option CoinRecord
unfolding position erase_at
erase_coin index r = do
  utxo ← erase_at (position index r.utxo) r.utxo
  amounts ← erase_at (position index r.utxo) r.amounts
  public_keys ← erase_at (position index r.utxo) r.public_keys
  some (record r { utxo = utxo; amounts = amounts; public_keys = public_keys })

-- The three `push_back` calls on a record.
unfoldable pub push_coin : ℕ → ℕ → ℕ → CoinRecord → CoinRecord
push_coin index amount public_key r = record r {
  utxo = r.utxo ++ (index ∷ []);
  amounts = r.amounts ++ (amount ∷ []);
  public_keys = r.public_keys ++ (public_key ∷ []);
}

module _ (env : Env) where
  -- `CoinRecord::deserialize(_database->get_safely(key))`
  unfoldable pub load_record : Database → Bytes → Option (CoinRecord × Database)
  load_record db key = do
    let (s, db') = Db.get_safely db key
    r ← deserialize_coin_record env.proto s
    some (r, db')

  -- `_database->put_safely(key, CoinRecord::serialize(r))`
  unfoldable pub save_record : Database → Bytes → CoinRecord → Option Database
  save_record db key r = do s ← serialize_coin_record env.proto r; some (Db.put_safely db key s)

  -- One round of the loop of `validate_transaction`: whether it goes on.
  unfoldable pub validate_input : CoinDatabase → TransactionInput → Option (Bool × CoinDatabase)
  unfolding load_record
  validate_input c i =
      elim (find (serialize_from_construct i.reference_transaction_hash i.utxo_index)
        c.main_cache) [
          | none ↦ do
            (r, db) ← load_record c.database (to_string i.reference_transaction_hash)
            some (contains_index i.utxo_index r.utxo, record c { database = db })
          | some coin ↦ some (not coin.is_spent, c)
        ]

  unfoldable pub validate_inputs :
      CoinDatabase → List TransactionInput → Option (Bool × CoinDatabase)
  unfolding validate_input
  validate_inputs c [] = some (true, c)
  validate_inputs c (i ∷ is) = do
    (ok, c') ← validate_input c i
    if ok then validate_inputs c' is else some (false, c')

  unfoldable pub validate_transaction : CoinDatabase → Transaction → Option (Bool × CoinDatabase)
  unfolding validate_inputs
  validate_transaction c t = validate_inputs c t.transaction_inputs

  unfoldable pub validate_block : CoinDatabase → List Transaction → Option (Bool × CoinDatabase)
  unfolding validate_transaction
  validate_block c [] = some (true, c)
  validate_block c (t ∷ ts) = do
    (ok, c') ← validate_transaction c t
    if ok then validate_block c' ts else some (false, c')

  -- `_mempool_size` stays as it is.
  unfoldable pub remove_transactions_from_mempool : CoinDatabase → List Transaction → CoinDatabase
  remove_transactions_from_mempool c [] = c
  remove_transactions_from_mempool c (t ∷ ts) =
      remove_transactions_from_mempool
        (record c { mempool_cache = erase (transaction_hash env t) c.mempool_cache }) ts

  -- One round of the loop of `flush_main_cache`.
  unfoldable pub flush_coin : Database → Bytes → Coin → Option Database
  unfolding load_record save_record erase_coin push_coin
  flush_coin db key coin = do
    locator ← Locator.deserialize key
    let hash = to_string locator.transaction_hash
    if coin.is_spent
        then (if Db.has db hash
            then (do
              (r, db') ← load_record db hash
              r' ← erase_coin locator.output_index r
              save_record db' hash r')
            else some db)
        else if Db.has db hash
        then (do
          (r, db') ← load_record db hash
          save_record db' hash (
              push_coin locator.output_index coin.transaction_output.amount
                coin.transaction_output.public_key r))
        else save_record db hash (
            new_coin_record 0 (locator.output_index ∷ []) (coin.transaction_output.amount ∷ [])
              (coin.transaction_output.public_key ∷ []))

  unfoldable pub flush_coins : Database → Map Bytes Coin → Option Database
  unfolding flush_coin
  flush_coins db [] = some db
  flush_coins db ((key, coin) ∷ rest) = do db' ← flush_coin db key coin; flush_coins db' rest

  unfoldable pub flush_main_cache : CoinDatabase → Option CoinDatabase
  unfolding flush_coins
  flush_main_cache c = do
    db ← flush_coins c.database c.main_cache
    some (record c { database = db; main_cache = []; main_cache_size = 0 })

  -- The loop over the inputs of a transaction in `store_transactions_to_main_cache`.
  unfoldable pub spend_input : CoinDatabase → TransactionInput → Option CoinDatabase
  unfolding load_record save_record erase_coin
  spend_input c i =
      let key = serialize_from_construct i.reference_transaction_hash i.utxo_index in
      let hash = to_string i.reference_transaction_hash in
      if contains key c.main_cache
      then some (record c {
        main_cache = erase key c.main_cache;
        main_cache_size = (c.main_cache_size + 2 ^ 16 - 1) % 2 ^ 16;
      })
      else if Db.has c.database hash
      then (do
        (r, db) ← load_record c.database hash
        r' ← erase_coin i.utxo_index r
        db' ← save_record db hash r'
        some (record c { database = db' }))
      else some c

  unfoldable pub spend_inputs : CoinDatabase → List TransactionInput → Option CoinDatabase
  unfolding spend_input
  spend_inputs c [] = some c
  spend_inputs c (i ∷ is) = do c' ← spend_input c i; spend_inputs c' is

  -- One round of the loop over the outputs; the index is cut to `uint8_t`.
  unfoldable pub add_output : CoinDatabase → ℕ → ℕ → TransactionOutput → Option CoinDatabase
  unfolding flush_main_cache
  add_output c hash count output = do
    c' ← (if leb main_cache_capacity c.main_cache_size then flush_main_cache c else some c)
    some (record c' {
      main_cache =
          insert (serialize_from_construct hash (count % 2 ^ 8)) (new_coin output false)
            c'.main_cache;
      main_cache_size = (c'.main_cache_size + 1) % 2 ^ 16;
    })

  unfoldable pub add_outputs : CoinDatabase → ℕ → ℕ → List TransactionOutput → Option CoinDatabase
  unfolding add_output
  add_outputs c hash count [] = some c
  add_outputs c hash count (o ∷ os) = do
    c' ← add_output c hash count o
    add_outputs c' hash (count + 1) os

  unfoldable pub store_transactions_to_main_cache :
      CoinDatabase → List Transaction → Option CoinDatabase
  unfolding spend_inputs add_outputs
  store_transactions_to_main_cache c [] = some c
  store_transactions_to_main_cache c (t ∷ ts) = do
    c' ← spend_inputs c t.transaction_inputs
    c'' ← add_outputs c' (transaction_hash env t) 0 t.transaction_outputs
    store_transactions_to_main_cache c'' ts

  unfoldable pub store_block : CoinDatabase → List Transaction → Option CoinDatabase
  unfolding remove_transactions_from_mempool store_transactions_to_main_cache
  store_block c ts = store_transactions_to_main_cache (remove_transactions_from_mempool c ts) ts

  unfoldable pub store_transaction_in_mempool : CoinDatabase → Transaction → CoinDatabase
  store_transaction_in_mempool c t =
      if nat_beq mempool_capacity c.mempool_size then c else record c {
        mempool_cache = insert (transaction_hash env t) t c.mempool_cache;
        mempool_size = (c.mempool_size + 1) % 2 ^ 16;
      }

  unfoldable pub store_transaction : CoinDatabase → Transaction → CoinDatabase
  unfolding store_transaction_in_mempool
  store_transaction c t = store_transaction_in_mempool c t

  unfoldable pub validate_and_store_block :
      CoinDatabase → List Transaction → Option (Bool × CoinDatabase)
  unfolding validate_block store_block
  validate_and_store_block c ts = do
    (ok, c') ← validate_block c ts
    if ok then (do c'' ← store_block c' ts; some (true, c'')) else some (false, c')

  unfoldable pub validate_and_store_transaction :
      CoinDatabase → Transaction → Option (Bool × CoinDatabase)
  unfolding validate_transaction store_transaction
  validate_and_store_transaction c t = do
    (ok, c') ← validate_transaction c t
    if ok then some (true, store_transaction c' t) else some (false, c')
