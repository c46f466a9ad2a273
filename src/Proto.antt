-- ===== src/Proto.antt =====
-- core/include/proto/crypt.proto and the message classes generated from it (core/include/proto/
-- crypt.pb.h): the fields of each message, and what the sources rely on of its serialisation.
-- A `repeated` field is a list, and a message field that may be unset an option. A message has its
-- defaults, 0 and empty, in the fields that are not set.
pub mod Instance
use crypt_bank.Prelude.{
  ℕ, ◌^◌, ◌<◌, ◌≡◌, ◌≢◌, Bool, false, Option, none, some, List, [], All, Bytes,
}

pub record PBlockHeader : Type 0 where
  pub version : ℕ
  pub previous_block_hash : ℕ
  pub merkle_root : ℕ
  pub difficulty_target : ℕ
  pub nonce : ℕ
  pub timestamp : ℕ

pub record PTransactionInput : Type 0 where
  pub reference_transaction_hash : ℕ
  pub utxo_index : ℕ
  pub signature : ℕ

pub record PTransactionOutput : Type 0 where
  pub amount : ℕ
  pub public_key : ℕ

pub record PTransaction : Type 0 where
  pub version : ℕ
  pub transaction_inputs : List PTransactionInput
  pub transaction_outputs : List PTransactionOutput
  pub lock_time : ℕ

-- The sources leave `hash`, `calculate_fees` and `obtain_merkle_root` at 0.
pub record PBlock : Type 0 where
  pub block_header : Option PBlockHeader
  pub transactions : List PTransaction
  pub hash : ℕ
  pub calculate_fees : ℕ
  pub obtain_merkle_root : ℕ

pub record PBlockRecord : Type 0 where
  pub block_header : Option PBlockHeader
  pub height : ℕ
  pub num_transactions : ℕ
  pub block_file_stored : Bytes
  pub block_offset_start : ℕ
  pub block_offset_end : ℕ
  pub undo_file_stored : Bytes
  pub undo_offset_start : ℕ
  pub undo_offset_end : ℕ

-- `PCoinRecord`, and with the same fields `PUndoCoinRecord`.
pub record PCoinRecord : Type 0 where
  pub version : ℕ
  pub is_coin_base : Bool
  pub height : ℕ
  pub utxo : List ℕ
  pub amounts : List ℕ
  pub public_keys : List ℕ

pub record PUndoBlock : Type 0 where
  pub transaction_hashes : List ℕ
  pub undo_coin_records : List PCoinRecord

abbrev pub empty_header : PBlockHeader
empty_header = record {
  version = 0;
  previous_block_hash = 0;
  merkle_root = 0;
  difficulty_target = 0;
  nonce = 0;
  timestamp = 0;
}

abbrev pub empty_transaction : PTransaction
empty_transaction = record {
  version = 0;
  transaction_inputs = [];
  transaction_outputs = [];
  lock_time = 0;
}

abbrev pub empty_block : PBlock
empty_block = record {
  block_header = none;
  transactions = [];
  hash = 0;
  calculate_fees = 0;
  obtain_merkle_root = 0;
}

abbrev pub empty_block_record : PBlockRecord
empty_block_record = record {
  block_header = none;
  height = 0;
  num_transactions = 0;
  block_file_stored = [];
  block_offset_start = 0;
  block_offset_end = 0;
  undo_file_stored = [];
  undo_offset_start = 0;
  undo_offset_end = 0;
}

abbrev pub empty_coin_record : PCoinRecord
empty_coin_record = record {
  version = 0;
  is_coin_base = false;
  height = 0;
  utxo = [];
  amounts = [];
  public_keys = [];
}

abbrev pub empty_undo_block : PUndoBlock
empty_undo_block = record { transaction_hashes = []; undo_coin_records = [] }

-- `block_header()` of a message: the default instance where the field is not set.
abbrev pub header_or_default : Option PBlockHeader → PBlockHeader
header_or_default none = empty_header
header_or_default (some h) = h

-- Values of type `uint8_t`, `uint16_t` and `uint32_t`.
abbrev pub IsU8 : ℕ → Type 0
IsU8 n = n < 2 ^ 8

abbrev pub IsU16 : ℕ → Type 0
IsU16 n = n < 2 ^ 16

abbrev pub IsU32 : ℕ → Type 0
IsU32 n = n < 2 ^ 32

-- A proto3 `string` is UTF-8; the paths of the program are ASCII.
abbrev pub IsAscii : Bytes → Type 0
IsAscii s = All (λ c. c < 128) s

-- The messages whose fields are in the range of their types.
pub record FitsHeader (m : PBlockHeader) : Type 0 where
  pub version : IsU32 m.version
  pub previous_block_hash : IsU32 m.previous_block_hash
  pub merkle_root : IsU32 m.merkle_root
  pub difficulty_target : IsU32 m.difficulty_target
  pub nonce : IsU32 m.nonce
  pub timestamp : IsU32 m.timestamp

pub record FitsInput (m : PTransactionInput) : Type 0 where
  pub reference_transaction_hash : IsU32 m.reference_transaction_hash
  pub utxo_index : IsU32 m.utxo_index
  pub signature : IsU32 m.signature

pub record FitsOutput (m : PTransactionOutput) : Type 0 where
  pub amount : IsU32 m.amount
  pub public_key : IsU32 m.public_key

pub record FitsTransaction (m : PTransaction) : Type 0 where
  pub version : IsU32 m.version
  pub transaction_inputs : All FitsInput m.transaction_inputs
  pub transaction_outputs : All FitsOutput m.transaction_outputs
  pub lock_time : IsU32 m.lock_time

abbrev pub FitsHeader? : Option PBlockHeader → Type 0
FitsHeader? none = Unit {0}
FitsHeader? (some h) = FitsHeader h

pub record FitsBlock (m : PBlock) : Type 0 where
  pub block_header : FitsHeader? m.block_header
  pub transactions : All FitsTransaction m.transactions
  pub hash : IsU32 m.hash
  pub calculate_fees : IsU32 m.calculate_fees
  pub obtain_merkle_root : IsU32 m.obtain_merkle_root

pub record FitsBlockRecord (m : PBlockRecord) : Type 0 where
  pub block_header : FitsHeader? m.block_header
  pub height : IsU32 m.height
  pub num_transactions : IsU32 m.num_transactions
  pub block_file_stored : IsAscii m.block_file_stored
  pub block_offset_start : IsU32 m.block_offset_start
  pub block_offset_end : IsU32 m.block_offset_end
  pub undo_file_stored : IsAscii m.undo_file_stored
  pub undo_offset_start : IsU32 m.undo_offset_start
  pub undo_offset_end : IsU32 m.undo_offset_end

pub record FitsCoinRecord (m : PCoinRecord) : Type 0 where
  pub version : IsU32 m.version
  pub height : IsU32 m.height
  pub utxo : All IsU32 m.utxo
  pub amounts : All IsU32 m.amounts
  pub public_keys : All IsU32 m.public_keys

pub record FitsUndoBlock (m : PUndoBlock) : Type 0 where
  pub transaction_hashes : All IsU32 m.transaction_hashes
  pub undo_coin_records : All FitsCoinRecord m.undo_coin_records

-- `SerializeToString` of a message class, and `ParseFromString` into a message just constructed:
-- parsing gives back each message that fits, and the empty string is the message with no field set.
pub record Codec {M : Type 0} (Fits : M → Type 0) (empty : M) : Type 0 where
  pub encode : M → Bytes
  pub decode : Bytes → M
  pub decode-encode : (m : M) → Fits m → decode (encode m) ≡ m
  pub decode-nil : decode [] ≡ empty

-- The codecs of the message classes. A field that is set is written, so that a block with a header
-- is not the empty string.
pub record Proto : Type 0 where
  pub header : Codec FitsHeader empty_header
  pub input :
      Codec FitsInput (record { reference_transaction_hash = 0; utxo_index = 0; signature = 0 })
  pub output : Codec FitsOutput (record { amount = 0; public_key = 0 })
  pub transaction : Codec FitsTransaction empty_transaction
  pub block : Codec FitsBlock empty_block
  pub block_record : Codec FitsBlockRecord empty_block_record
  pub coin_record : Codec FitsCoinRecord empty_coin_record
  pub undo_block : Codec FitsUndoBlock empty_undo_block
  pub encode-block-ne-nil :
      (m : PBlock) (h : PBlockHeader) → m.block_header ≡ some h → block.encode m ≢ []
