-- ===== src/BlockInfo.antt =====
-- core/src/block_info_database/block_info_database.cpp: block records under the decimal text of the
-- block's hash.
pub mod Lookup
use crypt_bank.Prelude.{ℕ}
use crypt_bank.Text.{to_string}
use crypt_bank.Db
use crypt_bank.Db.{Database}
use crypt_bank.Proto.{Proto}
use crypt_bank.Records.{BlockRecord, serialize_block_record, deserialize_block_record}

pub record BlockInfoDatabase : Type 0 where
  pub database : Database

abbrev pub empty : BlockInfoDatabase
empty = record { database = Db.empty }

module _ (proto : Proto) where
  unfoldable pub store_block_record : BlockInfoDatabase → ℕ → BlockRecord → BlockInfoDatabase
  store_block_record b hash r = record {
    database = Db.put_safely b.database (to_string hash) (serialize_block_record proto r);
  }

  -- The record is never null: an absent hash reads as the record of the empty string.
  unfoldable pub get_block_record : BlockInfoDatabase → ℕ → BlockRecord × BlockInfoDatabase
  get_block_record b block_hash =
      let (s, database) = Db.get_safely b.database (to_string block_hash) in
      (deserialize_block_record proto s, record { database = database })
