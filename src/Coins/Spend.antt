-- ===== src/Coins/Spend.antt =====
-- The inputs of a transaction against the set of coins: `spend_input` takes a coin out.
use crypt_bank.Prelude.{
  ℕ, ◌+◌, ◌-◌, ◌%◌, ◌^◌, ◌≤◌, ◌≡◌, refl, ap, inl, inr, true, false, some, arith, nat_beq,
  if◌then◌else◌, nat_beq_iff, Bool-cases, Bytes, bytes_eq,
}
use crypt_bank.Prelude.Map.{contains, erase}
use crypt_bank.Text.{to_string}
use crypt_bank.Db
use crypt_bank.Db.Laws.{get_safely-present}
use crypt_bank.Primitives.{TransactionInput}
use crypt_bank.Locator.{serialize_from_construct}
use crypt_bank.Records.{CoinRecord}
use crypt_bank.Records.InRange.{IsCoinRecord}
use crypt_bank.Env.{Env}
use crypt_bank.Coins.{CoinDatabase, spend_input}
use crypt_bank.Coins.Records.{
  load_record-HasRecords, save_record-saved, saved, after_save, absent-empty, utxo_of-at,
  utxo_of-saved,
}
use crypt_bank.Coins.View.{count, copies}
use crypt_bank.Coins.Validate.{CoinSet}
use crypt_bank.Coins.Erase.{entries-contains, entries-erase, erase-IsCached, erase_coin-count}
use crypt_bank.Coins.Represents.{without, same_key, Represents}

module _ (env : Env) where
  module _ (c : CoinDatabase) (s : CoinSet) (r : Represents env c s) (i : TransactionInput)
      (held : s i.reference_transaction_hash i.utxo_index ≡ true) where
    abbrev h : ℕ
    h = i.reference_transaction_hash

    abbrev key : Bytes
    key = serialize_from_construct i.reference_transaction_hash i.utxo_index

    -- The state without the cache entry.
    abbrev without_entry : CoinDatabase
    without_entry = record c {
      main_cache = erase key c.main_cache;
      main_cache_size = (c.main_cache_size + 2 ^ 16 - 1) % 2 ^ 16;
    }

    copies-without_entry :
        contains key c.main_cache ≡ true
        → (h' i' : ℕ)
        → copies env without_entry h' i' ≡ (if without s h i.utxo_index h' i' then 1 else 0)
    unfolding copies without
    copies-without_entry there h' i' = ground (
      arith,
      held,
      r.copies h' i',
      r.copies h i.utxo_index,
      (entries-contains key c.main_cache).0 there,
      entries-erase key (serialize_from_construct h' i') c.main_cache,
      same_key h i.utxo_index h' i',
      nat_beq_iff h h',
      nat_beq_iff i.utxo_index i',
    )

    spend_cached :
        contains key c.main_cache ≡ true
        → (spend_input env c i ≡ some without_entry)
          × Represents env without_entry (without s i.reference_transaction_hash i.utxo_index)
    unfolding spend_input
    spend_cached there = (
      rw there refl,
      record {
        sound = record {
          records = r.sound.records;
          cached = erase-IsCached key c.main_cache r.sound.cached;
        };
        copies = copies-without_entry there;
      },
    )

    in_record :
        contains key c.main_cache ≡ false → 1 ≤ count i.utxo_index (r.sound.records.at h).utxo
    unfolding copies
    in_record absent = ground (
      arith,
      held,
      r.copies h i.utxo_index,
      (entries-contains key c.main_cache).1 absent,
      utxo_of-at env c.database r.sound.records h,
    )

    has_record : contains key c.main_cache ≡ false → Db.has c.database (to_string h) ≡ true
    unfolding count
    has_record absent = elim (Bool-cases (Db.has c.database (to_string h))) [
      | inl there ↦ there
      | inr missing ↦ absurd (
          omega (
            arith,
            in_record absent,
            ap (λ x. count i.utxo_index x.utxo)
                (absent-empty env c.database r.sound.records h missing),
          ))
    ]

    copies-saved :
        contains key c.main_cache ≡ false
        → (r' : CoinRecord) (w : IsCoinRecord r')
        → ((j : ℕ)
            → count j r'.utxo + (if nat_beq i.utxo_index j then 1 else 0)
              ≡ count j (r.sound.records.at h).utxo)
        → (h' i' : ℕ)
        → copies env (record c { database = saved env c.database h r' }) h' i'
          ≡ (if without s h i.utxo_index h' i' then 1 else 0)
    unfolding copies without
    copies-saved absent r' w counted h' i' = ground (
      arith,
      held,
      r.copies h' i',
      r.copies h i.utxo_index,
      counted i',
      (entries-contains key c.main_cache).1 absent,
      utxo_of-saved env c.database r.sound.records h r' w h',
      utxo_of-at env c.database r.sound.records h,
      nat_beq_iff h h',
      nat_beq_iff i.utxo_index i',
    )

    spend_saved :
        contains key c.main_cache ≡ false
        → (c' : CoinDatabase) × (spend_input env c i ≡ some c')
          × Represents env c' (without s i.reference_transaction_hash i.utxo_index)
    unfolding spend_input
    spend_saved absent =
        let rs = r.sound.records in
        let there = has_record absent in
        let (r', e, w, counted) =
          erase_coin-count i.utxo_index (rs.at h) (rs.in_range h) (in_record absent) in
        (
          record c { database = saved env c.database h r' },
          rw absent (
              rw there (
                rw (load_record-HasRecords env c.database rs h) (
                  rw e (
                    rw (get_safely-present c.database (to_string h) there)
                      (rw (save_record-saved env c.database h r' w) refl))))),
          record {
            sound = record {
              records = after_save env c.database rs h r' w;
              cached = r.sound.cached;
            };
            copies = copies-saved absent r' w counted;
          },
        )

    -- Where a coin database represents a set of coins, an input that names one of them is spent
    -- without a fault, from the cache or from its record, and the set without it is represented.
    pub spend_input-Represents :
        (c' : CoinDatabase) × (spend_input env c i ≡ some c')
        × Represents env c' (without s i.reference_transaction_hash i.utxo_index)
    spend_input-Represents = elim (Bool-cases (contains key c.main_cache)) [
      | inl there ↦ (without_entry, (spend_cached there).0, (spend_cached there).1)
      | inr absent ↦ spend_saved absent
    ]
