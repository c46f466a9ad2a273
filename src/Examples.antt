-- ===== src/Examples.antt =====
-- Concrete data, and runs of the parts below `Chain` on it.
use crypt_bank.Prelude.{◌≤◌, ◌≡◌, refl, true, some, [], ◌∷◌, map, arith, replicate, Bytes, ◌>>=◌}
use crypt_bank.Proto.Instance.{word_proto}
use crypt_bank.Primitives.{
  Transaction, BlockHeader, Block, serialize_block, deserialize_block, set_block_header,
  set_transactions, serialize_block, get_transactions,
}
use crypt_bank.Primitives.InRange.{IsBlock}
use crypt_bank.Primitives.RoundTrip.{deserialize_block-serialize_block}
use crypt_bank.Primitives.Copies.{get_transactions-stripped}
use crypt_bank.Records.{
  CoinRecord, UndoBlock, UndoCoinRecord, BlockRecord, serialize_coin_record,
  deserialize_coin_record, serialize_undo_block, deserialize_undo_block, serialize_block_record,
  deserialize_block_record,
}
use crypt_bank.Records.InRange.{IsCoinRecord, IsUndoBlock, IsBlockRecord}
use crypt_bank.Records.RoundTrip.{
  deserialize_coin_record-serialize_coin_record, deserialize_undo_block-serialize_undo_block,
  deserialize_block_record-serialize_block_record,
}
use crypt_bank.Crypto.{hash}
use crypt_bank.Crypto.Bounds.{hash-le}
use crypt_bank.BlockInfo
use crypt_bank.BlockInfo.{store_block_record, get_block_record}
use crypt_bank.BlockInfo.Lookup.{get_block_record-store_block_record}
use crypt_bank.Locator.{CoinLocator, serialize, deserialize, serialize_from_construct}
use crypt_bank.Locator.RoundTrip.{deserialize-serialize, serialize_from_construct_injective}
use crypt_bank.Db
use crypt_bank.Db.{
  Database, Batch, batch_put, batch_delete, batch_write_safely, batch_read, batch_read_safely,
}
use crypt_bank.Db.Laws.{value_at}
use crypt_bank.Db.Batches.{last_write, batch_write_safely-last_write, batch_read_safely-map}
use crypt_bank.Env.{Env}
use crypt_bank.Coins
use crypt_bank.Coins.{CoinDatabase}
use crypt_bank.Coins.Undo.{
  undo_coins, undo_coins-no_effect, undo_transactions, undo_record, undo_loops-end,
}

abbrev pub test_env : Env
test_env = record {
  proto = word_proto;
  stack_bytes = replicate 64 0;
  stack_word = 0;
  may_append = λ path. true;
}

-- It spends the first output of the genesis block's transaction.
abbrev pub test_transaction : Transaction
test_transaction = record {
  transaction_inputs =
      record { reference_transaction_hash = 4282; utxo_index = 0; signature = 7 } ∷ [];
  transaction_outputs = record { amount = 100; public_key = 5 } ∷ [];
  version = 1;
  lock_time = 0;
}

-- 4077 is the hash of the genesis block.
abbrev pub test_header : BlockHeader
test_header = record {
  version = 1;
  previous_block_hash = 4077;
  merkle_root = 0;
  difficulty_target = 0;
  nonce = 9;
  timestamp = 1;
}

abbrev pub test_block : Block
test_block = record { block_header = test_header; transactions = test_transaction ∷ [] }

-- The setters of a block, which no other code calls.
setters_run :
    set_transactions (set_block_header test_block (record test_header { nonce = 3 })) []
    ≡ record { block_header = record test_header { nonce = 3 }; transactions = [] }
unfolding set_transactions set_block_header
setters_run = refl

pub test_in_range : IsBlock test_block
test_in_range = omega arith

abbrev test_record : BlockRecord
test_record = record {
  block_header = test_header;
  height = 2;
  num_transactions = 1;
  block_file_stored = b'b' ∷ [];
  undo_file_stored = b'u' ∷ [];
  block_offset_start = 0;
  block_offset_end = 22;
  undo_offset_start = 0;
  undo_offset_end = 14;
}

test_record_in_range : IsBlockRecord test_record
test_record_in_range = omega arith

abbrev test_coin_record : CoinRecord
test_coin_record = record {
  version = 0;
  utxo = 3 ∷ 0 ∷ [];
  amounts = 10 ∷ 20 ∷ [];
  public_keys = 7 ∷ 8 ∷ [];
}

test_coin_record_in_range : IsCoinRecord test_coin_record
test_coin_record_in_range = omega arith

abbrev test_undo_block : UndoBlock
test_undo_block = record {
  transaction_hashes = 4282 ∷ [];
  undo_coin_records =
      record { version = 1; utxo = 0 ∷ []; amounts = 100 ∷ []; public_keys = 5 ∷ [] } ∷ [];
}

test_undo_block_in_range : IsUndoBlock test_undo_block
test_undo_block_in_range = omega arith

deserialize_block-serialize_block_example :
    deserialize_block word_proto (serialize_block word_proto test_block) ≡ some test_block
deserialize_block-serialize_block_example =
    deserialize_block-serialize_block word_proto test_block test_in_range

get_transactions-stripped_example :
    get_transactions test_block ≡ record test_transaction { version = 0; lock_time = 0 } ∷ []
get_transactions-stripped_example = get_transactions-stripped test_block

deserialize_coin_record-serialize_coin_record_example :
    (serialize_coin_record word_proto test_coin_record >>= deserialize_coin_record word_proto)
    ≡ some test_coin_record
deserialize_coin_record-serialize_coin_record_example =
    deserialize_coin_record-serialize_coin_record word_proto test_coin_record
      test_coin_record_in_range

deserialize_undo_block-serialize_undo_block_example :
    (serialize_undo_block word_proto test_undo_block >>= deserialize_undo_block word_proto)
    ≡ some test_undo_block
deserialize_undo_block-serialize_undo_block_example =
    deserialize_undo_block-serialize_undo_block word_proto test_undo_block test_undo_block_in_range

deserialize_block_record-serialize_block_record_example :
    deserialize_block_record word_proto (serialize_block_record word_proto test_record)
    ≡ test_record
deserialize_block_record-serialize_block_record_example =
    deserialize_block_record-serialize_block_record word_proto test_record test_record_in_range

get_block_record-store_block_record_example :
    ((get_block_record word_proto (store_block_record word_proto BlockInfo.empty 5 test_record) 5).0
      ≡ test_record)
    × ((get_block_record word_proto (get_block_record word_proto BlockInfo.empty 5).1 5).0
        ≡ (get_block_record word_proto BlockInfo.empty 5).0)
get_block_record-store_block_record_example =
    get_block_record-store_block_record word_proto BlockInfo.empty 5 5 test_record
      test_record_in_range

abbrev test_locator : CoinLocator
test_locator = record { transaction_hash = 4282; output_index = 3 }

deserialize-serialize_example :
    (deserialize (serialize test_locator) ≡ some test_locator)
    × (serialize test_locator ≡ serialize_from_construct 4282 3)
deserialize-serialize_example = deserialize-serialize test_locator (omega arith) (omega arith)

serialize_from_construct_injective_example :
    (test_locator.transaction_hash ≡ 4282) × (test_locator.output_index ≡ 3)
serialize_from_construct_injective_example = serialize_from_construct_injective 4282 3 4282 3 refl

abbrev one_key : Bytes
one_key = b'k' ∷ []

abbrev test_database : Database
test_database = record { store = (one_key, 1 ∷ []) ∷ [] }

-- A put and a deletion of one key.
abbrev test_batch : Batch
test_batch = record {
  batch =
      record { operation = Db.put; key = one_key; value = 9 ∷ [] }
      ∷ record { operation = Db.delete; key = one_key; value = [] }
      ∷ [];
}

batch_write_safely-last_write_example :
    value_at (batch_write_safely test_database test_batch) one_key
    ≡ last_write one_key (value_at test_database one_key) test_batch.batch
batch_write_safely-last_write_example =
    batch_write_safely-last_write test_database test_batch one_key

batch_read_safely-map_example :
    ((batch_read_safely test_database (one_key ∷ [] ∷ [])).0
      ≡ map (value_at test_database) (one_key ∷ [] ∷ []))
    × (value_at (batch_read_safely test_database (one_key ∷ [] ∷ [])).1 one_key
        ≡ value_at test_database one_key)
    × (batch_read test_database (one_key ∷ [] ∷ [])
        ≡ batch_read_safely test_database (one_key ∷ [] ∷ []))
batch_read_safely-map_example = batch_read_safely-map test_database (one_key ∷ [] ∷ []) one_key

undo_coins-no_effect_example :
    undo_coins test_env Coins.empty (test_undo_block ∷ []) ≡ some Coins.empty
undo_coins-no_effect_example = undo_coins-no_effect test_env Coins.empty (test_undo_block ∷ [])

abbrev test_undo_record : UndoCoinRecord
test_undo_record = record { version = 1; utxo = 0 ∷ []; amounts = 5 ∷ []; public_keys = 6 ∷ [] }

undo_loops-end_example :
    (undo_transactions test_env 7 Coins.empty test_undo_block 0 ≡ some (some Coins.empty))
    × (undo_record test_env 7 Coins.empty 4282 test_undo_record 0 ≡ some (some Coins.empty))
undo_loops-end_example = undo_loops-end test_env 5 Coins.empty test_undo_block 4282 test_undo_record

hash-le_example : hash (replicate 64 0) 0 (b'a' ∷ []) ≤ 8160
hash-le_example = hash-le (replicate 64 0) 0 (b'a' ∷ [])
