-- ===== src/Coins/View.antt =====
-- The coins that a `CoinDatabase` holds, in its cache and its database together, and what
-- `validate_transaction` and `validate_block` answer about them.
use crypt_bank.Prelude.{
  ℕ, ◌+◌, ◌≤◌, ◌≡◌, refl, ap, ◌∙◌, inl, inr, Bool, false, not, none, some, List, [], ◌∷◌, arith,
  leb, nat_beq, if◌then◌else◌, Option-cases, All, ◌==◌, Bytes, nat_eq, bytes_eq,
}
use crypt_bank.Prelude.Map.{Map, find}
use crypt_bank.Text.{to_string}
use crypt_bank.Db
use crypt_bank.Primitives.{TransactionInput}
use crypt_bank.Primitives.InRange.{IsOutput}
use crypt_bank.Proto.{IsU8, IsU32}
use crypt_bank.Locator.{serialize_from_construct}
use crypt_bank.Env.{Env}
use crypt_bank.Coins.{Coin, CoinDatabase, contains_index, validate_input}
use crypt_bank.Coins.Growth.{validate_input-missing, validate_input-cached}
use crypt_bank.Coins.Records.{
  HasRecords, load_record-HasRecords, after_load, utxo_of, utxo_of-at, utxo_of-get_safely,
}

-- How often a number stands in a list, and a key in a cache.
unfoldable pub count : ℕ → List ℕ → ℕ
count x [] = 0
count x (y ∷ ys) = (if nat_beq x y then 1 else 0) + count x ys

unfoldable pub entries : Bytes → Map Bytes Coin → ℕ
entries key [] = 0
entries key ((k, coin) ∷ m) = (if k == key then 1 else 0) + entries key m

-- A cache entry: its key is the text of a locator in range, and its coin is unspent.
pub record IsCached (entry : Bytes × Coin) : Type 0 where
  pub hash : ℕ
  pub index : ℕ
  pub key : entry.0 ≡ serialize_from_construct hash index
  pub hash_range : IsU32 hash
  pub index_range : IsU8 index
  pub output : IsOutput entry.1.transaction_output
  pub unspent : entry.1.is_spent ≡ false

contains_index-count : (i : ℕ) (us : List ℕ) → contains_index i us ≡ leb 1 (count i us)
unfolding contains_index count
contains_index-count i [] = refl
contains_index-count i (u ∷ us) = ground (arith, contains_index-count i us)

pub entries-none : (key : Bytes) (m : Map Bytes Coin) → find key m ≡ none → entries key m ≡ 0
unfolding find entries
entries-none key [] e = refl
entries-none key ((k, coin) ∷ m) e = ground (arith, entries-none key m)

entries-some :
    (key : Bytes) (m : Map Bytes Coin) (coin : Coin)
    → All IsCached m
    → find key m ≡ some coin
    → (1 ≤ entries key m) × (coin.is_spent ≡ false)
unfolding find entries
entries-some key [] coin h e = cc
entries-some key ((k, c) ∷ m) coin (hc, h) e = ground (arith, hc.unspent, entries-some key m coin h)

module _ (env : Env) where
  -- How many copies of the coin `i` of transaction `h` there are.
  unfoldable pub copies : CoinDatabase → ℕ → ℕ → ℕ
  copies c h i =
      count i (utxo_of env c.database h) + entries (serialize_from_construct h i) c.main_cache

  unfoldable pub has_coin : CoinDatabase → ℕ → ℕ → Bool
  has_coin c h i = leb 1 (copies c h i)

  pub record IsSound (c : CoinDatabase) : Type 0 where
    pub records : HasRecords env c.database
    pub cached : All IsCached c.main_cache

  -- `c'` holds the same coins as `c`, and the same transactions in its mempool.
  pub record SameCoins (c c' : CoinDatabase) : Type 0 where
    pub sound : IsSound c'
    pub copies : (h i : ℕ) → copies c' h i ≡ copies c h i
    pub mempool : c'.mempool_cache ≡ c.mempool_cache
    pub mempool_size : c'.mempool_size ≡ c.mempool_size

  pub SameCoins-trans : {a b c : CoinDatabase} → SameCoins a b → SameCoins b c → SameCoins a c
  SameCoins-trans p q = record {
    sound = q.sound;
    copies = λ h i. q.copies h i ∙ p.copies h i;
    mempool = q.mempool ∙ p.mempool;
    mempool_size = q.mempool_size ∙ p.mempool_size;
  }

  module _ (c : CoinDatabase) (s : IsSound c) (i : TransactionInput) where
    abbrev key : Bytes
    key = serialize_from_construct i.reference_transaction_hash i.utxo_index

    -- The state after the record of the transaction was read.
    abbrev read_state : CoinDatabase
    read_state = record c {
      database = (Db.get_safely c.database (to_string i.reference_transaction_hash)).1;
    }

    read_state-SameCoins : SameCoins c read_state
    unfolding copies
    read_state-SameCoins = record {
      sound = record {
        records = after_load env c.database s.records i.reference_transaction_hash;
        cached = s.cached;
      };
      copies = λ h j. rw (utxo_of-get_safely env c.database i.reference_transaction_hash h) refl;
      mempool = refl;
      mempool_size = refl;
    }

    has_coin-missing :
        find key c.main_cache ≡ none
        → contains_index i.utxo_index (s.records.at i.reference_transaction_hash).utxo
          ≡ has_coin c i.reference_transaction_hash i.utxo_index
    unfolding has_coin copies
    has_coin-missing missing =
        contains_index-count i.utxo_index (s.records.at i.reference_transaction_hash).utxo
        ∙ ap (leb 1) (
            omega (
              arith,
              entries-none key c.main_cache missing,
              ap (count i.utxo_index)
                  (utxo_of-at env c.database s.records i.reference_transaction_hash),
            ))

    has_coin-cached :
        (coin : Coin)
        → find key c.main_cache ≡ some coin
        → not coin.is_spent ≡ has_coin c i.reference_transaction_hash i.utxo_index
    unfolding has_coin copies
    has_coin-cached coin found = ground (arith, entries-some key c.main_cache coin s.cached found)

    pub validate_input-has_coin :
        (c' : CoinDatabase) × (validate_input env c i
          ≡ some (has_coin c i.reference_transaction_hash i.utxo_index, c'))
        × SameCoins c c'
    validate_input-has_coin = elim (Option-cases (find key c.main_cache)) [
      | inl missing ↦ (
        read_state,
        validate_input-missing env c i missing
            ∙ rw (load_record-HasRecords env c.database s.records i.reference_transaction_hash)
                (ap (λ ok. some (ok, read_state)) (has_coin-missing missing)),
        read_state-SameCoins,
      )
      | inr (coin, found) ↦ (
        c,
        validate_input-cached env c i coin found
            ∙ ap (λ ok. some (ok, c)) (has_coin-cached coin found),
        record { sound = s; copies = λ h j. refl; mempool = refl; mempool_size = refl },
      )
    ]
