-- ===== src/Primitives/InRange.antt =====
-- The values of the C++ types: each field in the range of its integer type. Their messages fit.
use crypt_bank.Prelude.{arith, All, All-map}
use crypt_bank.Proto.{FitsHeader, FitsInput, FitsOutput, FitsTransaction, FitsBlock, IsU8, IsU32}
use crypt_bank.Primitives.{
  TransactionInput, TransactionOutput, Transaction, BlockHeader, Block, input_message,
  output_message, transaction_message, header_message, block_message,
}

pub record IsInput (i : TransactionInput) : Type 0 where
  pub reference_transaction_hash : IsU32 i.reference_transaction_hash
  pub utxo_index : IsU8 i.utxo_index
  pub signature : IsU32 i.signature

pub record IsOutput (o : TransactionOutput) : Type 0 where
  pub amount : IsU32 o.amount
  pub public_key : IsU32 o.public_key

pub record IsTransaction (t : Transaction) : Type 0 where
  pub transaction_inputs : All IsInput t.transaction_inputs
  pub transaction_outputs : All IsOutput t.transaction_outputs
  pub version : IsU8 t.version
  pub lock_time : IsU32 t.lock_time

pub record IsHeader (h : BlockHeader) : Type 0 where
  pub version : IsU8 h.version
  pub previous_block_hash : IsU32 h.previous_block_hash
  pub merkle_root : IsU32 h.merkle_root
  pub difficulty_target : IsU32 h.difficulty_target
  pub nonce : IsU32 h.nonce
  pub timestamp : IsU32 h.timestamp

pub record IsBlock (b : Block) : Type 0 where
  pub block_header : IsHeader b.block_header
  pub transactions : All IsTransaction b.transactions

pub input_message-Fits : (i : TransactionInput) → IsInput i → FitsInput (input_message i)
unfolding input_message
input_message-Fits i h = omega arith

pub output_message-Fits : (o : TransactionOutput) → IsOutput o → FitsOutput (output_message o)
unfolding output_message
output_message-Fits o h = omega arith

pub header_message-Fits : (h : BlockHeader) → IsHeader h → FitsHeader (header_message h)
unfolding header_message
header_message-Fits h w = omega arith

pub transaction_message-Fits :
    (t : Transaction) → IsTransaction t → FitsTransaction (transaction_message t)
unfolding transaction_message
transaction_message-Fits t h = record {
  version = omega arith;
  transaction_inputs = All-map _ _ input_message-Fits t.transaction_inputs h.transaction_inputs;
  transaction_outputs = All-map _ _ output_message-Fits t.transaction_outputs h.transaction_outputs;
  lock_time = h.lock_time;
}

pub block_message-Fits : (b : Block) → IsBlock b → FitsBlock (block_message b)
unfolding block_message
block_message-Fits b h = record {
  block_header = header_message-Fits b.block_header h.block_header;
  transactions = All-map _ _ transaction_message-Fits b.transactions h.transactions;
  hash = omega arith;
  calculate_fees = omega arith;
  obtain_merkle_root = omega arith;
}
