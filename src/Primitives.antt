-- ===== src/Primitives.antt =====
-- core/src/primitives: transaction_input.cpp, transaction_output.cpp, transaction.cpp,
-- block_header.cpp and block.cpp. Serialising fills a message and encodes it; deserialising reads
-- the fields back at their C++ types, so that a `uint8_t` is cut to its low byte.
pub mod InRange
pub mod RoundTrip
pub mod Copies
use crypt_bank.Prelude.{ℕ, ◌%◌, ◌^◌, Option, none, some, List, [], ◌∷◌, ◌++◌, map, Bytes}
use crypt_bank.Proto.{
  Proto, PBlockHeader, PTransactionInput, PTransactionOutput, PTransaction, PBlock,
  header_or_default,
}

pub record TransactionInput : Type 0 where
  pub reference_transaction_hash : ℕ
  pub utxo_index : ℕ
  pub signature : ℕ

-- `TransactionInput::TransactionInput`
abbrev pub new_input : ℕ → ℕ → ℕ → TransactionInput
new_input reference_transaction_hash utxo_index signature = record {
  reference_transaction_hash = reference_transaction_hash;
  utxo_index = utxo_index;
  signature = signature;
}

pub record TransactionOutput : Type 0 where
  pub amount : ℕ
  pub public_key : ℕ

-- `TransactionOutput::TransactionOutput`
abbrev pub new_output : ℕ → ℕ → TransactionOutput
new_output amount public_key = record { amount = amount; public_key = public_key }

pub record Transaction : Type 0 where
  pub transaction_inputs : List TransactionInput
  pub transaction_outputs : List TransactionOutput
  pub version : ℕ
  pub lock_time : ℕ

pub record BlockHeader : Type 0 where
  pub version : ℕ
  pub previous_block_hash : ℕ
  pub merkle_root : ℕ
  pub difficulty_target : ℕ
  pub nonce : ℕ
  pub timestamp : ℕ

pub record Block : Type 0 where
  pub block_header : BlockHeader
  pub transactions : List Transaction

-- `Block::Block`
abbrev pub new_block : BlockHeader → List Transaction → Block
new_block block_header transactions = record {
  block_header = block_header;
  transactions = transactions;
}

unfoldable pub set_block_header : Block → BlockHeader → Block
set_block_header b block_header = record b { block_header = block_header }

unfoldable pub set_transactions : Block → List Transaction → Block
set_transactions b transactions = record b { transactions = transactions }

-- `Transaction(inputs, outputs)`, with the default version and lock time.
unfoldable pub new_transaction : List TransactionInput → List TransactionOutput → Transaction
new_transaction inputs outputs = record {
  transaction_inputs = inputs;
  transaction_outputs = outputs;
  version = 0;
  lock_time = 0;
}

unfoldable pub input_message : TransactionInput → PTransactionInput
input_message i = record {
  reference_transaction_hash = i.reference_transaction_hash;
  utxo_index = i.utxo_index;
  signature = i.signature;
}

unfoldable pub input_of_message : PTransactionInput → TransactionInput
input_of_message m = new_input m.reference_transaction_hash (m.utxo_index % 2 ^ 8) m.signature

unfoldable pub output_message : TransactionOutput → PTransactionOutput
output_message o = record { amount = o.amount; public_key = o.public_key }

unfoldable pub output_of_message : PTransactionOutput → TransactionOutput
output_of_message m = new_output m.amount m.public_key

-- The loop over the transactions of `Block::serialize` fills the same message.
unfoldable pub transaction_message : Transaction → PTransaction
unfolding input_message output_message
transaction_message t = record {
  version = t.version;
  transaction_inputs = map input_message t.transaction_inputs;
  transaction_outputs = map output_message t.transaction_outputs;
  lock_time = t.lock_time;
}

unfoldable pub transaction_of_message : PTransaction → Transaction
unfolding input_of_message output_of_message
transaction_of_message m = record {
  transaction_inputs = map input_of_message m.transaction_inputs;
  transaction_outputs = map output_of_message m.transaction_outputs;
  version = m.version % 2 ^ 8;
  lock_time = m.lock_time;
}

unfoldable pub header_message : BlockHeader → PBlockHeader
header_message h = record {
  version = h.version;
  previous_block_hash = h.previous_block_hash;
  merkle_root = h.merkle_root;
  difficulty_target = h.difficulty_target;
  nonce = h.nonce;
  timestamp = h.timestamp;
}

new_header : ℕ → ℕ → ℕ → ℕ → ℕ → ℕ → BlockHeader
new_header version previous_block_hash merkle_root difficulty_target nonce timestamp = record {
  version = version;
  previous_block_hash = previous_block_hash;
  merkle_root = merkle_root;
  difficulty_target = difficulty_target;
  nonce = nonce;
  timestamp = timestamp;
}

set_version : BlockHeader → ℕ → BlockHeader
set_version h version = record h { version = version }

set_previous_block_hash : BlockHeader → ℕ → BlockHeader
set_previous_block_hash h previous_block_hash = record h {
  previous_block_hash = previous_block_hash;
}

set_merkle_root : BlockHeader → ℕ → BlockHeader
set_merkle_root h merkle_root = record h { merkle_root = merkle_root }

set_difficulty_target : BlockHeader → ℕ → BlockHeader
set_difficulty_target h difficulty_target = record h { difficulty_target = difficulty_target }

set_nonce : BlockHeader → ℕ → BlockHeader
set_nonce h nonce = record h { nonce = nonce }

set_timestamp : BlockHeader → ℕ → BlockHeader
set_timestamp h timestamp = record h { timestamp = timestamp }

-- A header of zeros, and the setters in the order of `BlockHeader::deserialize`.
unfoldable pub header_of_message : PBlockHeader → BlockHeader
unfolding new_header set_version set_nonce set_merkle_root set_difficulty_target
    set_previous_block_hash set_timestamp
header_of_message m =
    let h0 = new_header 0 0 0 0 0 0 in
    let h1 = set_version h0 (m.version % 2 ^ 8) in
    let h2 = set_nonce h1 m.nonce in
    let h3 = set_merkle_root h2 m.merkle_root in
    let h4 = set_difficulty_target h3 m.difficulty_target in
    let h5 = set_previous_block_hash h4 m.previous_block_hash in set_timestamp h5 m.timestamp

unfoldable pub block_message : Block → PBlock
unfolding header_message transaction_message
block_message b = record {
  block_header = some (header_message b.block_header);
  transactions = map transaction_message b.transactions;
  hash = 0;
  calculate_fees = 0;
  obtain_merkle_root = 0;
}

unfoldable pub block_of_message : PBlock → Block
unfolding header_of_message transaction_of_message
block_of_message m =
    new_block (header_of_message (header_or_default m.block_header))
      (map transaction_of_message m.transactions)

module _ (proto : Proto) where
  pub serialize_input : TransactionInput → Bytes
  serialize_input i = proto.input.encode (input_message i)

  pub deserialize_input : Bytes → TransactionInput
  deserialize_input s = input_of_message (proto.input.decode s)

  pub serialize_output : TransactionOutput → Bytes
  serialize_output o = proto.output.encode (output_message o)

  pub deserialize_output : Bytes → TransactionOutput
  deserialize_output s = output_of_message (proto.output.decode s)

  unfoldable pub serialize_transaction : Transaction → Bytes
  unfolding transaction_message
  serialize_transaction t = proto.transaction.encode (transaction_message t)

  pub deserialize_transaction : Bytes → Transaction
  deserialize_transaction s = transaction_of_message (proto.transaction.decode s)

  pub serialize_header : BlockHeader → Bytes
  serialize_header h = proto.header.encode (header_message h)

  pub deserialize_header : Bytes → BlockHeader
  deserialize_header s = header_of_message (proto.header.decode s)

  unfoldable pub serialize_block : Block → Bytes
  unfolding block_message
  serialize_block b = proto.block.encode (block_message b)

  -- `none` is the null pointer.
  unfoldable pub deserialize_block : Bytes → Option Block
  unfolding block_of_message
  deserialize_block [] = none
  deserialize_block (c ∷ cs) = some (block_of_message (proto.block.decode (c ∷ cs)))

-- The loop body of `Block::get_transactions`. The two vectors stand outside the loop; a moved-from
-- vector is empty, so that each round begins with empty ones.
copy_input : TransactionInput → TransactionInput
copy_input i = new_input i.reference_transaction_hash i.utxo_index i.signature

copy_output : TransactionOutput → TransactionOutput
copy_output o = new_output o.amount o.public_key

copy_transactions :
    List TransactionInput → List TransactionOutput → List Transaction → List Transaction
copy_transactions inputs outputs [] = []
copy_transactions inputs outputs (t ∷ ts) =
    new_transaction (inputs ++ map copy_input t.transaction_inputs)
      (outputs ++ map copy_output t.transaction_outputs)
    ∷ copy_transactions [] [] ts

unfoldable pub get_transactions : Block → List Transaction
unfolding copy_transactions copy_input copy_output new_transaction
get_transactions b = copy_transactions [] [] b.transactions
