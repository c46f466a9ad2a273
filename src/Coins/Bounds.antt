-- ===== src/Coins/Bounds.antt =====
-- The counters of `CoinDatabase` against the maps that they count, through every operation.
use crypt_bank.Prelude.{
  ℕ, ◌%◌, ◌^◌, ◌≤◌, ◌<◌, ◌≡◌, ◌∙◌, inl, inr, false, some, arith, leb, if◌then◌else◌, Bool-cases,
  length, nat_eq, bytes_eq, ◌>>=◌, >>=-eq-some,
}
use crypt_bank.Prelude.Map.{contains, length-erase, length-insert}
use crypt_bank.Text.{to_string}
use crypt_bank.Db
use crypt_bank.Db.{Database}
use crypt_bank.Primitives.{TransactionInput, TransactionOutput}
use crypt_bank.Locator.{serialize_from_construct}
use crypt_bank.Env.{Env}
use crypt_bank.Coins.{
  CoinDatabase, load_record, save_record, erase_coin, flush_coins, flush_main_cache, spend_input,
  add_output,
}

-- Both maps hold no more than their counters say, and both counters stay within the capacity.
pub record IsBounded (c : CoinDatabase) : Type 0 where
  pub cached : length c.main_cache ≤ c.main_cache_size
  pub cache_capacity : c.main_cache_size ≤ 70
  pub pending : length c.mempool_cache ≤ c.mempool_size
  pub mempool_capacity : c.mempool_size ≤ 70

-- The cache parts of `c'` fit and the mempool is that of `c`.
pub record Keeps (c c' : CoinDatabase) : Type 0 where
  pub cached : length c'.main_cache ≤ c'.main_cache_size
  pub cache_capacity : c'.main_cache_size ≤ 70
  pub mempool : c'.mempool_cache ≡ c.mempool_cache
  pub mempool_size : c'.mempool_size ≡ c.mempool_size

pub Keeps-trans : {a b c : CoinDatabase} → Keeps a b → Keeps b c → Keeps a c
Keeps-trans h k = record {
  cached = k.cached;
  cache_capacity = k.cache_capacity;
  mempool = k.mempool ∙ h.mempool;
  mempool_size = k.mempool_size ∙ h.mempool_size;
}

module _ (env : Env) where
  pub flush_main_cache-Keeps : (c c' : CoinDatabase) → flush_main_cache env c ≡ some c' → Keeps c c'
  unfolding flush_main_cache
  flush_main_cache-Keeps c c' e =
      let (db, e1, e2) = >>=-eq-some (flush_coins env c.database c.main_cache) _ e in
      record {
        cached = ground arith;
        cache_capacity = ground arith;
        mempool = ground arith;
        mempool_size = ground arith;
      }

  -- The branches of `spend_input` for a coin that the cache lacks.
  spend_saved-Keeps :
      (c c' : CoinDatabase) (i : TransactionInput)
      → length c.main_cache ≤ c.main_cache_size
      → c.main_cache_size ≤ 70
      → (if Db.has c.database (to_string i.reference_transaction_hash)
          then (do
            (r, db) ← load_record env c.database (to_string i.reference_transaction_hash)
            r' ← erase_coin i.utxo_index r
            db' ← save_record env db (to_string i.reference_transaction_hash) r'
            some (record c { database = db' }))
          else some c)
        ≡ some c'
      → Keeps c c'
  spend_saved-Keeps c c' i cached room e =
      elim (Bool-cases (Db.has c.database (to_string i.reference_transaction_hash))) [
        | inl saved ↦
            let (p, e1, e2) =
              >>=-eq-some (load_record env c.database (to_string i.reference_transaction_hash)) _
                (rw saved at e) in
            let (r', e3, e4) = >>=-eq-some (erase_coin i.utxo_index p.0) _ e2 in
            let (db', e5, e6) =
              >>=-eq-some (save_record env p.1 (to_string i.reference_transaction_hash) r') _ e4 in
            record {
              cached = ground (arith, e6);
              cache_capacity = ground (arith, e6);
              mempool = ground (arith, e6);
              mempool_size = ground (arith, e6);
            }
        | inr unknown ↦
            let e1 = rw unknown at e in
            record {
              cached = ground (arith, e1);
              cache_capacity = ground (arith, e1);
              mempool = ground (arith, e1);
              mempool_size = ground (arith, e1);
            }
      ]

  -- Before an output is added there is room.
  room_made :
      (c c' : CoinDatabase)
      → length c.main_cache ≤ c.main_cache_size
      → c.main_cache_size ≤ 70
      → (if leb 70 c.main_cache_size then flush_main_cache env c else some c) ≡ some c'
      → (length c'.main_cache ≤ c'.main_cache_size)
        × (c'.main_cache_size < 70)
        × (c'.mempool_cache ≡ c.mempool_cache)
        × (c'.mempool_size ≡ c.mempool_size)
  unfolding flush_main_cache
  room_made c c' cached room e = elim (Bool-cases (leb 70 c.main_cache_size)) [
    | inl full ↦
        let (db, e1, e2) = >>=-eq-some (flush_coins env c.database c.main_cache) _ (rw full at e) in
        (ground (arith, e2), ground (arith, e2), ground (arith, e2), ground (arith, e2))
    | inr space ↦
        let e1 = rw space at e in
        (ground (arith, e1), ground (arith, e1, space), ground (arith, e1), ground (arith, e1))
  ]

  pub spend_input-Keeps :
      (c c' : CoinDatabase) (i : TransactionInput)
      → length c.main_cache ≤ c.main_cache_size
      → c.main_cache_size ≤ 70
      → spend_input env c i ≡ some c'
      → Keeps c c'
  unfolding spend_input
  spend_input-Keeps c c' i cached room e =
      let key = serialize_from_construct i.reference_transaction_hash i.utxo_index in
      elim (Bool-cases (contains key c.main_cache)) [
        | inl there ↦
            let fewer = length-erase key c.main_cache there in
            let e1 = rw there at e in
            record {
              cached = ground (arith, fewer, e1);
              cache_capacity = ground (arith, fewer, e1);
              mempool = ground (arith, e1);
              mempool_size = ground (arith, e1);
            }
        | inr absent ↦ spend_saved-Keeps c c' i cached room (rw absent at e)
      ]

  pub add_output-Keeps :
      (c c' : CoinDatabase) (hash count : ℕ) (o : TransactionOutput)
      → length c.main_cache ≤ c.main_cache_size
      → c.main_cache_size ≤ 70
      → add_output env c hash count o ≡ some c'
      → Keeps c c'
  unfolding add_output
  add_output-Keeps c c' hash count o cached room e =
      let (c1, e1, e2) =
        >>=-eq-some (if leb 70 c.main_cache_size then flush_main_cache env c else some c) _ e in
      let kept = room_made c c1 cached room e1 in
      let more =
        length-insert (serialize_from_construct hash (count % 2 ^ 8))
          (record { transaction_output = o; is_spent = false }) c1.main_cache in
      record {
        cached = ground (arith, more, kept, e2);
        cache_capacity = ground (arith, kept, e2);
        mempool = ground (arith, kept, e2);
        mempool_size = ground (arith, kept, e2);
      }
