-- ===== src/Primitives/RoundTrip.antt =====
-- Deserialising what was serialised gives the value back, for every value of the C++ types.
use crypt_bank.Prelude.{◌≡◌, refl, ap, ◌∙◌, ◌≢◌, some, [], ◌∷◌, arith, map-map_inverse, Bytes}
use crypt_bank.Proto.{Proto}
use crypt_bank.Primitives.{
  TransactionInput, TransactionOutput, Transaction, BlockHeader, Block, input_message,
  output_message, transaction_message, header_message, block_message, input_of_message,
  output_of_message, transaction_of_message, header_of_message, block_of_message, serialize_input,
  deserialize_input, serialize_output, deserialize_output, serialize_transaction,
  deserialize_transaction, serialize_header, deserialize_header, serialize_block, deserialize_block,
}
use crypt_bank.Primitives.InRange.{
  IsInput, IsOutput, IsTransaction, IsHeader, IsBlock, input_message-Fits, output_message-Fits,
  header_message-Fits, transaction_message-Fits, block_message-Fits,
}

input_inverse : (i : TransactionInput) → IsInput i → input_of_message (input_message i) ≡ i
unfolding input_of_message input_message
input_inverse i h = ground arith

output_inverse : (o : TransactionOutput) → IsOutput o → output_of_message (output_message o) ≡ o
unfolding output_of_message output_message
output_inverse o h = refl

pub header_inverse : (h : BlockHeader) → IsHeader h → header_of_message (header_message h) ≡ h
unfolding header_of_message header_message
header_inverse h w = ground arith

transaction_inverse :
    (t : Transaction) → IsTransaction t → transaction_of_message (transaction_message t) ≡ t
transaction_inverse t h =
    unfold transaction_of_message transaction_message in
    ground (
      arith,
      map-map_inverse input_message input_of_message input_inverse t.transaction_inputs
          h.transaction_inputs,
      map-map_inverse output_message output_of_message output_inverse t.transaction_outputs
          h.transaction_outputs,
    )

block_inverse : (b : Block) → IsBlock b → block_of_message (block_message b) ≡ b
block_inverse b h =
    unfold block_of_message block_message in
    cc (
      header_inverse b.block_header h.block_header,
      map-map_inverse transaction_message transaction_of_message transaction_inverse b.transactions
          h.transactions,
    )

module _ (proto : Proto) where
  -- A serialised block is never the empty string, which stands for no block.
  pub serialize_block-ne-nil : (b : Block) → serialize_block proto b ≢ []
  unfolding serialize_block
  serialize_block-ne-nil b = proto.encode-block-ne-nil _ _ refl

  deserialize_block-ne :
      (s : Bytes)
      → s ≢ []
      → deserialize_block proto s ≡ some (block_of_message (proto.block.decode s))
  unfolding deserialize_block
  deserialize_block-ne [] h = absurd (h refl)
  deserialize_block-ne (c ∷ cs) h = refl

  decode-serialize_block :
      (b : Block) → IsBlock b → proto.block.decode (serialize_block proto b) ≡ block_message b
  unfolding serialize_block
  decode-serialize_block b h = proto.block.decode-encode (block_message b) (block_message-Fits b h)

  -- For every block whose fields are in range, `Block::deserialize` of `Block::serialize` is not
  -- null and is that block: header, transactions, their inputs and outputs in order.
  pub deserialize_block-serialize_block :
      (b : Block) → IsBlock b → deserialize_block proto (serialize_block proto b) ≡ some b
  deserialize_block-serialize_block b h =
      deserialize_block-ne (serialize_block proto b) (serialize_block-ne-nil b)
      ∙ ap some (ap block_of_message (decode-serialize_block b h) ∙ block_inverse b h)

  -- For every transaction whose fields are in range, deserialising what was serialised gives it
  -- back.
  pub deserialize_transaction-serialize_transaction :
      (t : Transaction)
      → IsTransaction t
      → deserialize_transaction proto (serialize_transaction proto t) ≡ t
  unfolding deserialize_transaction serialize_transaction
  deserialize_transaction-serialize_transaction t h =
      ap transaction_of_message
        (proto.transaction.decode-encode (transaction_message t) (transaction_message-Fits t h))
      ∙ transaction_inverse t h

  pub deserialize_input-serialize_input :
      (i : TransactionInput) → IsInput i → deserialize_input proto (serialize_input proto i) ≡ i
  unfolding deserialize_input serialize_input
  deserialize_input-serialize_input i h =
      ap input_of_message (proto.input.decode-encode (input_message i) (input_message-Fits i h))
      ∙ input_inverse i h

  pub deserialize_output-serialize_output :
      (o : TransactionOutput) → IsOutput o → deserialize_output proto (serialize_output proto o) ≡ o
  unfolding deserialize_output serialize_output
  deserialize_output-serialize_output o h =
      ap output_of_message (proto.output.decode-encode (output_message o) (output_message-Fits o h))
      ∙ output_inverse o h

  pub deserialize_header-serialize_header :
      (h : BlockHeader) → IsHeader h → deserialize_header proto (serialize_header proto h) ≡ h
  unfolding deserialize_header serialize_header
  deserialize_header-serialize_header h w =
      ap header_of_message (proto.header.decode-encode (header_message h) (header_message-Fits h w))
      ∙ header_inverse h w
