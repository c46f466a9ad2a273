-- ===== src/Records/InRange.antt =====
-- Records whose fields are in the range of their types and whose parallel vectors fit together.
use crypt_bank.Prelude.{ℕ, ◌≡◌, refl, some, List, [], ◌∷◌, map, arith, length, All, >>=-eq-some}
use crypt_bank.Proto.{PCoinRecord, FitsCoinRecord, FitsBlockRecord, IsU8, IsU16, IsU32, IsAscii}
use crypt_bank.Primitives.InRange.{IsHeader, header_message-Fits}
use crypt_bank.Records.{
  CoinRecord, UndoCoinRecord, UndoBlock, BlockRecord, rows, coin_message, undo_coin_message,
  undo_messages, block_record_message,
}

-- `rows` copies vectors of one length, and faults exactly where another one is shorter than `utxo`.
abbrev pub Aligned : List ℕ → List ℕ → List ℕ → Type 0
Aligned utxo amounts keys = (length amounts ≡ length utxo) × (length keys ≡ length utxo)

pub record IsCoinRecord (r : CoinRecord) : Type 0 where
  pub version : IsU8 r.version
  pub aligned : Aligned r.utxo r.amounts r.public_keys
  pub utxo : All IsU32 r.utxo
  pub amounts : All IsU32 r.amounts
  pub public_keys : All IsU32 r.public_keys

pub record IsUndoCoinRecord (r : UndoCoinRecord) : Type 0 where
  pub version : IsU8 r.version
  pub aligned : Aligned r.utxo r.amounts r.public_keys
  pub utxo : All IsU32 r.utxo
  pub amounts : All IsU32 r.amounts
  pub public_keys : All IsU32 r.public_keys

pub record IsUndoBlock (u : UndoBlock) : Type 0 where
  pub aligned : length u.undo_coin_records ≡ length u.transaction_hashes
  pub transaction_hashes : All IsU32 u.transaction_hashes
  pub undo_coin_records : All IsUndoCoinRecord u.undo_coin_records

pub record IsBlockRecord (r : BlockRecord) : Type 0 where
  pub block_header : IsHeader r.block_header
  pub height : IsU32 r.height
  pub num_transactions : IsU32 r.num_transactions
  pub block_file_stored : IsAscii r.block_file_stored
  pub undo_file_stored : IsAscii r.undo_file_stored
  pub block_offset_start : IsU16 r.block_offset_start
  pub block_offset_end : IsU16 r.block_offset_end
  pub undo_offset_start : IsU16 r.undo_offset_start
  pub undo_offset_end : IsU16 r.undo_offset_end

pub rows-Aligned :
    (utxo amounts keys : List ℕ)
    → Aligned utxo amounts keys
    → rows utxo amounts keys ≡ some (utxo, amounts, keys)
unfolding rows
rows-Aligned [] [] [] h = refl
rows-Aligned [] [] (k ∷ keys) h = absurd (omega (arith, h.1))
rows-Aligned [] (a ∷ amounts) keys h = absurd (omega (arith, h.0))
rows-Aligned (u ∷ us) [] keys h = absurd (omega (arith, h.0))
rows-Aligned (u ∷ us) (a ∷ amounts) [] h = absurd (omega (arith, h.1))
rows-Aligned (u ∷ us) (a ∷ amounts) (k ∷ keys) h = rw (rows-Aligned us amounts keys (omega arith))

-- What `rows` returns is aligned, whatever it was given.
pub rows-some :
    (utxo amounts keys : List ℕ) {r : List ℕ × List ℕ × List ℕ}
    → rows utxo amounts keys ≡ some r
    → Aligned r.0 r.1 r.2 × (r.0 ≡ utxo)
unfolding rows
rows-some [] amounts keys h = ground arith
rows-some (u ∷ us) [] keys h = cc
rows-some (u ∷ us) (a ∷ amounts) [] h = cc
rows-some (u ∷ us) (a ∷ amounts) (k ∷ keys) h =
    let (r, e, e') = >>=-eq-some (rows us amounts keys) _ h in
    ground (arith, rows-some us amounts keys e)

pub coin_message-Fits :
    (r : CoinRecord)
    → IsCoinRecord r
    → FitsCoinRecord (coin_message r.version (r.utxo, r.amounts, r.public_keys))
unfolding coin_message
coin_message-Fits r h = record {
  version = omega arith;
  height = omega arith;
  utxo = h.utxo;
  amounts = h.amounts;
  public_keys = h.public_keys;
}

pub undo_coin_message-some :
    (r : UndoCoinRecord)
    → IsUndoCoinRecord r
    → undo_coin_message r ≡ some (coin_message r.version (r.utxo, r.amounts, r.public_keys))
unfolding undo_coin_message
undo_coin_message-some r h = rw (rows-Aligned r.utxo r.amounts r.public_keys h.aligned)

abbrev pub undo_message : UndoCoinRecord → PCoinRecord
undo_message r = coin_message r.version (r.utxo, r.amounts, r.public_keys)

pub undo_message-Fits : (r : UndoCoinRecord) → IsUndoCoinRecord r → FitsCoinRecord (undo_message r)
unfolding coin_message
undo_message-Fits r h = record {
  version = omega arith;
  height = omega arith;
  utxo = h.utxo;
  amounts = h.amounts;
  public_keys = h.public_keys;
}

pub undo_messages-some :
    (hashes : List ℕ) (records : List UndoCoinRecord)
    → length records ≡ length hashes
    → All IsUndoCoinRecord records
    → undo_messages hashes records ≡ some (hashes, map undo_message records)
unfolding undo_messages
undo_messages-some [] [] h w = refl
undo_messages-some [] (r ∷ records) h w = absurd (omega arith)
undo_messages-some (x ∷ hashes) [] h w = absurd (omega arith)
undo_messages-some (x ∷ hashes) (r ∷ records) h (hr, w) =
    rw (undo_coin_message-some r hr) (rw (undo_messages-some hashes records (omega arith) w))

pub block_record_message-Fits :
    (r : BlockRecord) → IsBlockRecord r → FitsBlockRecord (block_record_message r)
unfolding block_record_message
block_record_message-Fits r h = record {
  block_header = header_message-Fits r.block_header h.block_header;
  height = h.height;
  num_transactions = h.num_transactions;
  block_file_stored = h.block_file_stored;
  block_offset_start = omega arith;
  block_offset_end = omega arith;
  undo_file_stored = h.undo_file_stored;
  undo_offset_start = omega arith;
  undo_offset_end = omega arith;
}
