-- ===== src/Coins/Flush.antt =====
-- `flush_main_cache` moves the coins of the cache to the records, and loses and makes none.
use crypt_bank.Prelude.{
  ℕ, ◌+◌, ◌≡◌, refl, sym, ap, ◌∙◌, inl, inr, ◌&&◌, some, List, [], ◌∷◌, ◌++◌, arith, nat_beq,
  if◌then◌else◌, nat_beq_iff, Bool-cases, All, length-append, All-append, ◌==◌, ==_iff, Bytes,
  bytes_eq,
}
use crypt_bank.Prelude.Map.{Map}
use crypt_bank.Text.{to_string}
use crypt_bank.Db
use crypt_bank.Db.{Database}
use crypt_bank.Db.Laws.{get_safely-present}
use crypt_bank.Records.{CoinRecord}
use crypt_bank.Records.InRange.{IsCoinRecord}
use crypt_bank.Proto.{IsU8, IsU32}
use crypt_bank.Locator
use crypt_bank.Locator.{CoinLocator, serialize_from_construct}
use crypt_bank.Locator.RoundTrip.{deserialize-serialize, serialize_from_construct_injective}
use crypt_bank.Env.{Env}
use crypt_bank.Coins.{
  Coin, CoinDatabase, push_coin, save_record, flush_coin, flush_coins, flush_main_cache,
}
use crypt_bank.Coins.Records.{
  HasRecords, load_record-HasRecords, save_record-saved, saved, after_save, absent-empty,
  empty_record, utxo_of, utxo_of-at, utxo_of-saved,
}
use crypt_bank.Coins.View.{count, entries, copies, IsCached, IsSound, SameCoins}

deserialize-serialize_from_construct :
    (h i : ℕ)
    → IsU32 h
    → IsU8 i
    → Locator.deserialize (serialize_from_construct h i)
      ≡ some (record { transaction_hash = h; output_index = i })
deserialize-serialize_from_construct h i hr ir =
    let l : CoinLocator = record { transaction_hash = h; output_index = i } in
    let (read, same) = deserialize-serialize l hr ir in ap Locator.deserialize (sym same) ∙ read

pub push_coin-IsCoinRecord :
    (i amount key : ℕ) (r : CoinRecord)
    → IsCoinRecord r
    → IsU32 i
    → IsU32 amount
    → IsU32 key
    → IsCoinRecord (push_coin i amount key r)
unfolding push_coin
push_coin-IsCoinRecord i amount key r h hi ha hk = record {
  version = h.version;
  aligned = omega (
    arith,
    length-append r.utxo (i ∷ []),
    length-append r.amounts (amount ∷ []),
    length-append r.public_keys (key ∷ []),
    h.aligned,
  );
  utxo = All-append IsU32 r.utxo (i ∷ []) h.utxo (hi, tt);
  amounts = All-append IsU32 r.amounts (amount ∷ []) h.amounts (ha, tt);
  public_keys = All-append IsU32 r.public_keys (key ∷ []) h.public_keys (hk, tt);
}

pub count-append_end :
    (x y : ℕ) (us : List ℕ) → count x (us ++ (y ∷ [])) ≡ count x us + (if nat_beq x y then 1 else 0)
unfolding count
count-append_end x y [] = omega arith
count-append_end x y (u ∷ us) = omega (arith, count-append_end x y us)

module _ (env : Env) where
  -- The record of `h` with the coin put at its end.
  abbrev pushed :
      (db : Database) → HasRecords env db → (entry : Bytes × Coin) → IsCached entry → CoinRecord
  pushed db rs entry w =
      push_coin w.index entry.1.transaction_output.amount entry.1.transaction_output.public_key
        (rs.at w.hash)

  pushed-IsCoinRecord :
      (db : Database) (rs : HasRecords env db) (entry : Bytes × Coin) (w : IsCached entry)
      → IsCoinRecord (pushed db rs entry w)
  pushed-IsCoinRecord db rs entry w =
      push_coin-IsCoinRecord w.index entry.1.transaction_output.amount
        entry.1.transaction_output.public_key (rs.at w.hash) (rs.in_range w.hash)
        (omega (arith, w.index_range)) w.output.amount w.output.public_key

  pushed-absent :
      (db : Database) (rs : HasRecords env db) (entry : Bytes × Coin) (w : IsCached entry)
      → rs.at w.hash ≡ empty_record
      → pushed db rs entry w ≡ record {
        version = 0;
        utxo = w.index ∷ [];
        amounts = entry.1.transaction_output.amount ∷ [];
        public_keys = entry.1.transaction_output.public_key ∷ [];
      }
  unfolding push_coin
  pushed-absent db rs entry w e = rw e refl

  flush_coin-saved :
      (db : Database) (rs : HasRecords env db) (entry : Bytes × Coin) (w : IsCached entry)
      → flush_coin env db entry.0 entry.1 ≡ some (saved env db w.hash (pushed db rs entry w))
  unfolding flush_coin
  flush_coin-saved db rs entry w = rw w.key (
      rw (deserialize-serialize_from_construct w.hash w.index w.hash_range w.index_range) (
        rw w.unspent (elim (Bool-cases (Db.has db (to_string w.hash))) [
          | inl there ↦ rw there rw (load_record-HasRecords env db rs w.hash) (
              rw (get_safely-present db (to_string w.hash) there) (
                save_record-saved env db w.hash (pushed db rs entry w)
                  (pushed-IsCoinRecord db rs entry w)))
          | inr absent ↦ rw absent (
              ap (save_record env db (to_string w.hash))
                (sym (pushed-absent db rs entry w (absent-empty env db rs w.hash absent)))
              ∙ save_record-saved env db w.hash (pushed db rs entry w)
                  (pushed-IsCoinRecord db rs entry w))
        ])))

  -- Whether an entry is that of a coin.
  same_coin :
      (entry : Bytes × Coin) (w : IsCached entry) (h i : ℕ)
      → (entry.0 == serialize_from_construct h i) ≡ nat_beq w.hash h && nat_beq i w.index
  same_coin entry w h i = ground (
    arith,
    w.key,
    ==_iff entry.0 (serialize_from_construct h i),
    serialize_from_construct_injective w.hash w.index h i,
    nat_beq_iff w.hash h,
    nat_beq_iff i w.index,
  )

  count-pushed :
      (db : Database) (rs : HasRecords env db) (entry : Bytes × Coin) (w : IsCached entry) (h i : ℕ)
      → count i (utxo_of env (saved env db w.hash (pushed db rs entry w)) h)
        ≡ count i (utxo_of env db h) + (if entry.0 == serialize_from_construct h i then 1 else 0)
  unfolding push_coin
  count-pushed db rs entry w h i = ground (
    arith,
    utxo_of-saved env db rs w.hash (pushed db rs entry w) (pushed-IsCoinRecord db rs entry w) h,
    count-append_end i w.index (rs.at w.hash).utxo,
    utxo_of-at env db rs h,
    nat_beq_iff w.hash h,
    same_coin entry w h i,
  )

  flush_coins-count :
      (db : Database) (m : Map Bytes Coin)
      → HasRecords env db
      → All IsCached m
      → (db' : Database) × (flush_coins env db m ≡ some db')
        × HasRecords env db'
        × ((h i : ℕ)
            → count i (utxo_of env db' h)
              ≡ count i (utxo_of env db h) + entries (serialize_from_construct h i) m)
  unfolding flush_coins entries
  flush_coins-count db [] rs w = (db, refl, rs, λ h i. omega arith)
  flush_coins-count db (e ∷ m) rs (we, w) =
      let db1 = saved env db we.hash (pushed db rs e we) in
      let rs1 = after_save env db rs we.hash (pushed db rs e we) (pushed-IsCoinRecord db rs e we) in
      let (db2, made, rs2, counted) = flush_coins-count db1 m rs1 w in
      (
        db2,
        rw (flush_coin-saved db rs e we) made,
        rs2,
        λ h i. omega (arith, counted h i, count-pushed db rs e we h i),
      )

  -- Where the database has a record in range under every hash and the cache only unspent coins in
  -- range, `flush_main_cache` does not fault: the cache is empty, its counter 0, and every coin is
  -- held as often as before.
  pub flush_main_cache-SameCoins :
      (c : CoinDatabase)
      → IsSound env c
      → (c' : CoinDatabase) × (flush_main_cache env c ≡ some c')
        × SameCoins env c c'
        × (c'.main_cache ≡ [])
        × (c'.main_cache_size ≡ 0)
  unfolding flush_main_cache copies entries
  flush_main_cache-SameCoins c s =
      let (db, made, rs, counted) = flush_coins-count c.database c.main_cache s.records s.cached in
      (
        record c { database = db; main_cache = []; main_cache_size = 0 },
        rw made refl,
        record {
          sound = record { records = rs; cached = tt };
          copies = λ h i. omega (arith, counted h i);
          mempool = refl;
          mempool_size = refl;
        },
        refl,
        refl,
      )
