-- ===== src/Records.antt =====
-- The records that are stored as messages: core/src/coin_database/coin_record.cpp and
-- undo_coin_record.cpp, core/src/chain_writer/undo_block.cpp and file_info.cpp, and
-- core/src/block_info_database/block_record.cpp.
-- `none` is an access behind the end of a vector or of a repeated field.
pub mod InRange
pub mod RoundTrip
pub mod Truncated
use crypt_bank.Prelude.{ℕ, ◌%◌, ◌^◌, false, Option, none, some, List, [], ◌∷◌, Bytes, ◌>>=◌}
use crypt_bank.Proto.{Proto, PBlockRecord, PCoinRecord, PUndoBlock, header_or_default}
use crypt_bank.Primitives.{BlockHeader, header_message, header_of_message}

-- One entry of `utxo`, `amounts` and `public_keys` at each index.
pub record CoinRecord : Type 0 where
  pub version : ℕ
  pub utxo : List ℕ
  pub amounts : List ℕ
  pub public_keys : List ℕ

-- `CoinRecord::CoinRecord`
abbrev pub new_coin_record : ℕ → List ℕ → List ℕ → List ℕ → CoinRecord
new_coin_record version utxo amounts public_keys = record {
  version = version;
  utxo = utxo;
  amounts = amounts;
  public_keys = public_keys;
}

pub record UndoCoinRecord : Type 0 where
  pub version : ℕ
  pub utxo : List ℕ
  pub amounts : List ℕ
  pub public_keys : List ℕ

-- `UndoCoinRecord::UndoCoinRecord`
abbrev pub new_undo_coin_record : ℕ → List ℕ → List ℕ → List ℕ → UndoCoinRecord
new_undo_coin_record version utxo amounts public_keys = record {
  version = version;
  utxo = utxo;
  amounts = amounts;
  public_keys = public_keys;
}

pub record UndoBlock : Type 0 where
  pub transaction_hashes : List ℕ
  pub undo_coin_records : List UndoCoinRecord

-- `UndoBlock::UndoBlock`
abbrev pub new_undo_block : List ℕ → List UndoCoinRecord → UndoBlock
new_undo_block transaction_hashes undo_coin_records = record {
  transaction_hashes = transaction_hashes;
  undo_coin_records = undo_coin_records;
}

pub record FileInfo : Type 0 where
  pub file_name : Bytes
  pub start : ℕ
  pub end : ℕ

-- `FileInfo::FileInfo`
abbrev pub new_file_info : Bytes → ℕ → ℕ → FileInfo
new_file_info file_name start end = record { file_name = file_name; start = start; end = end }

pub record BlockRecord : Type 0 where
  pub block_header : BlockHeader
  pub height : ℕ
  pub num_transactions : ℕ
  pub block_file_stored : Bytes
  pub undo_file_stored : Bytes
  pub block_offset_start : ℕ
  pub block_offset_end : ℕ
  pub undo_offset_start : ℕ
  pub undo_offset_end : ℕ

-- `BlockRecord::BlockRecord`
unfoldable pub new_block_record : BlockHeader → ℕ → ℕ → FileInfo → FileInfo → BlockRecord
new_block_record block_header num_transactions height block_info undo_info = record {
  block_header = block_header;
  height = height;
  num_transactions = num_transactions;
  block_file_stored = block_info.file_name;
  undo_file_stored = undo_info.file_name;
  block_offset_start = block_info.start;
  block_offset_end = block_info.end;
  undo_offset_start = undo_info.start;
  undo_offset_end = undo_info.end;
}

-- The copying loops of both records, in both directions: index `i` runs over `utxo`, and the other
-- two vectors are read at `i`.
unfoldable pub rows : List ℕ → List ℕ → List ℕ → Option (List ℕ × List ℕ × List ℕ)
rows [] amounts keys = some ([], [], [])
rows (u ∷ us) [] keys = none
rows (u ∷ us) (a ∷ amounts) [] = none
rows (u ∷ us) (a ∷ amounts) (k ∷ keys) = do
  (us', amounts', keys') ← rows us amounts keys
  some (u ∷ us', a ∷ amounts', k ∷ keys')

unfoldable pub coin_message : ℕ → List ℕ × List ℕ × List ℕ → PCoinRecord
coin_message version (utxo, amounts, public_keys) = record {
  version = version;
  is_coin_base = false;
  height = 0;
  utxo = utxo;
  amounts = amounts;
  public_keys = public_keys;
}

unfoldable pub undo_coin_message : UndoCoinRecord → Option PCoinRecord
undo_coin_message r = do
  copied ← rows r.utxo r.amounts r.public_keys
  some (coin_message r.version copied)

undo_coin_of_message : PCoinRecord → Option UndoCoinRecord
undo_coin_of_message m = do
  (utxo, amounts, public_keys) ← rows m.utxo m.amounts m.public_keys
  some (new_undo_coin_record (m.version % 2 ^ 8) utxo amounts public_keys)

-- The loop of `UndoBlock::serialize`: index `i` runs over the hashes.
unfoldable pub undo_messages : List ℕ → List UndoCoinRecord → Option (List ℕ × List PCoinRecord)
undo_messages [] records = some ([], [])
undo_messages (h ∷ hashes) [] = none
undo_messages (h ∷ hashes) (r ∷ records) = do
  m ← undo_coin_message r
  (hashes', messages) ← undo_messages hashes records
  some (h ∷ hashes', m ∷ messages)

-- The loop of `UndoBlock::deserialize`.
undo_of_messages : List ℕ → List PCoinRecord → Option (List ℕ × List UndoCoinRecord)
undo_of_messages [] messages = some ([], [])
undo_of_messages (h ∷ hashes) [] = none
undo_of_messages (h ∷ hashes) (m ∷ messages) = do
  r ← undo_coin_of_message m
  (hashes', records) ← undo_of_messages hashes messages
  some (h ∷ hashes', r ∷ records)

unfoldable pub block_record_message : BlockRecord → PBlockRecord
block_record_message r = record {
  block_header = some (header_message r.block_header);
  height = r.height;
  num_transactions = r.num_transactions;
  block_file_stored = r.block_file_stored;
  block_offset_start = r.block_offset_start;
  block_offset_end = r.block_offset_end;
  undo_file_stored = r.undo_file_stored;
  undo_offset_start = r.undo_offset_start;
  undo_offset_end = r.undo_offset_end;
}

unfoldable pub block_record_of_message : PBlockRecord → BlockRecord
unfolding header_of_message new_block_record
block_record_of_message m =
    new_block_record (header_of_message (header_or_default m.block_header)) m.num_transactions
      m.height
      (new_file_info m.block_file_stored (m.block_offset_start % 2 ^ 16)
        (m.block_offset_end % 2 ^ 16))
      (new_file_info m.undo_file_stored (m.undo_offset_start % 2 ^ 16) (m.undo_offset_end % 2 ^ 16))

module _ (proto : Proto) where
  unfoldable pub serialize_coin_record : CoinRecord → Option Bytes
  unfolding rows coin_message
  serialize_coin_record r = do
    copied ← rows r.utxo r.amounts r.public_keys
    some (proto.coin_record.encode (coin_message r.version copied))

  unfoldable pub deserialize_coin_record : Bytes → Option CoinRecord
  unfolding rows
  deserialize_coin_record s = do
    let m = proto.coin_record.decode s
    (utxo, amounts, public_keys) ← rows m.utxo m.amounts m.public_keys
    some (new_coin_record (m.version % 2 ^ 8) utxo amounts public_keys)

  unfoldable pub serialize_undo_block : UndoBlock → Option Bytes
  unfolding undo_messages undo_coin_message
  serialize_undo_block u = do
    (hashes, messages) ← undo_messages u.transaction_hashes u.undo_coin_records
    some (
        proto.undo_block.encode
          (record { transaction_hashes = hashes; undo_coin_records = messages }))

  unfoldable pub deserialize_undo_block : Bytes → Option UndoBlock
  unfolding undo_of_messages undo_coin_of_message
  deserialize_undo_block s = do
    let m = proto.undo_block.decode s
    (hashes, records) ← undo_of_messages m.transaction_hashes m.undo_coin_records
    some (new_undo_block hashes records)

  unfoldable pub serialize_block_record : BlockRecord → Bytes
  unfolding block_record_message
  serialize_block_record r = proto.block_record.encode (block_record_message r)

  unfoldable pub deserialize_block_record : Bytes → BlockRecord
  unfolding block_record_of_message
  deserialize_block_record s = block_record_of_message (proto.block_record.decode s)
