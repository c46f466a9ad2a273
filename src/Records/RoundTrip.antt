-- ===== src/Records/RoundTrip.antt =====
-- Coin records, undo blocks and block records survive serialisation.
use crypt_bank.Prelude.{
  ℕ, ◌≡◌, refl, ap, ◌∙◌, some, List, [], ◌∷◌, map, arith, length, All, All-map, ◌>>=◌,
}
use crypt_bank.Proto.{Proto}
use crypt_bank.Primitives.RoundTrip.{header_inverse}
use crypt_bank.Records.{
  CoinRecord, UndoCoinRecord, UndoBlock, BlockRecord, coin_message, undo_coin_of_message,
  undo_of_messages, block_record_message, block_record_of_message, serialize_coin_record,
  deserialize_coin_record, serialize_undo_block, deserialize_undo_block, serialize_block_record,
  deserialize_block_record,
}
use crypt_bank.Records.InRange.{
  Aligned, IsCoinRecord, IsUndoCoinRecord, IsUndoBlock, IsBlockRecord, rows-Aligned,
  coin_message-Fits, undo_message, undo_message-Fits, undo_messages-some, block_record_message-Fits,
}

undo_coin_of_message-some :
    (r : UndoCoinRecord) → IsUndoCoinRecord r → undo_coin_of_message (undo_message r) ≡ some r
unfolding undo_coin_of_message coin_message
undo_coin_of_message-some r h =
    rw (rows-Aligned r.utxo r.amounts r.public_keys h.aligned) (ground arith)

undo_of_messages-some :
    (hashes : List ℕ) (records : List UndoCoinRecord)
    → length records ≡ length hashes
    → All IsUndoCoinRecord records
    → undo_of_messages hashes (map undo_message records) ≡ some (hashes, records)
unfolding undo_of_messages
undo_of_messages-some [] [] h w = refl
undo_of_messages-some [] (r ∷ records) h w = absurd (omega arith)
undo_of_messages-some (x ∷ hashes) [] h w = absurd (omega arith)
undo_of_messages-some (x ∷ hashes) (r ∷ records) h (hr, w) =
    rw (undo_coin_of_message-some r hr) (rw (undo_of_messages-some hashes records (omega arith) w))

block_record_inverse :
    (r : BlockRecord) → IsBlockRecord r → block_record_of_message (block_record_message r) ≡ r
unfolding block_record_of_message block_record_message
block_record_inverse r h = ground (arith, header_inverse r.block_header h.block_header)

module _ (proto : Proto) where
  -- The text of a record whose vectors are aligned.
  pub serialize_coin_record-Aligned :
      (r : CoinRecord)
      → Aligned r.utxo r.amounts r.public_keys
      → serialize_coin_record proto r
        ≡ some
            (proto.coin_record.encode (coin_message r.version (r.utxo, r.amounts, r.public_keys)))
  unfolding serialize_coin_record
  serialize_coin_record-Aligned r h = rw (rows-Aligned r.utxo r.amounts r.public_keys h)

  pub deserialize_coin_record-encode :
      (r : CoinRecord)
      → IsCoinRecord r
      → deserialize_coin_record proto
          (proto.coin_record.encode (coin_message r.version (r.utxo, r.amounts, r.public_keys)))
        ≡ some r
  unfolding deserialize_coin_record
  deserialize_coin_record-encode r h =
      rw (proto.coin_record.decode-encode _ (coin_message-Fits r h)) (
        unfold coin_message in
        rw (rows-Aligned r.utxo r.amounts r.public_keys h.aligned) (ground arith))

  -- A coin record in range whose three vectors have one length is written, and read back as it was.
  pub deserialize_coin_record-serialize_coin_record :
      (r : CoinRecord)
      → IsCoinRecord r
      → (serialize_coin_record proto r >>= deserialize_coin_record proto) ≡ some r
  deserialize_coin_record-serialize_coin_record r h =
      rw (serialize_coin_record-Aligned r h.aligned) (deserialize_coin_record-encode r h)

  -- The empty string, which the database returns for an absent key, is the record with no coins.
  pub deserialize_coin_record-nil :
      deserialize_coin_record proto []
      ≡ some (record { version = 0; utxo = []; amounts = []; public_keys = [] })
  unfolding deserialize_coin_record
  deserialize_coin_record-nil = rw proto.coin_record.decode-nil

  -- An undo block in range, with a record for each hash and the vectors of each record of one
  -- length, is written, and read back as it was.
  pub deserialize_undo_block-serialize_undo_block :
      (u : UndoBlock)
      → IsUndoBlock u
      → (serialize_undo_block proto u >>= deserialize_undo_block proto) ≡ some u
  unfolding serialize_undo_block deserialize_undo_block
  deserialize_undo_block-serialize_undo_block u h =
      rw (undo_messages-some u.transaction_hashes u.undo_coin_records h.aligned h.undo_coin_records)
        (rw
          (proto.undo_block.decode-encode _ (record {
            transaction_hashes = h.transaction_hashes;
            undo_coin_records =
                All-map _ undo_message undo_message-Fits u.undo_coin_records h.undo_coin_records;
          }))
          (rw (
            undo_of_messages-some u.transaction_hashes u.undo_coin_records h.aligned
              h.undo_coin_records)))

  pub deserialize_undo_block-nil :
      deserialize_undo_block proto []
      ≡ some (record { transaction_hashes = []; undo_coin_records = [] })
  unfolding deserialize_undo_block
  deserialize_undo_block-nil = rw proto.undo_block.decode-nil

  -- A block record in range is read back as it was written.
  pub deserialize_block_record-serialize_block_record :
      (r : BlockRecord)
      → IsBlockRecord r
      → deserialize_block_record proto (serialize_block_record proto r) ≡ r
  unfolding deserialize_block_record serialize_block_record
  deserialize_block_record-serialize_block_record r h =
      ap block_record_of_message
        (proto.block_record.decode-encode (block_record_message r) (block_record_message-Fits r h))
      ∙ block_record_inverse r h
