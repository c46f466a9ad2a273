-- ===== src/BlockInfo/Lookup.antt =====
-- The block info database as a map from hashes to records.
use crypt_bank.Prelude.{
  ℕ, ◌≡◌, ap, ◌∙◌, ◌≢◌, arith, nat_beq, if◌then◌else◌, ==-refl, ==-eq-false, bytes_eq,
}
use crypt_bank.Text.{to_string}
use crypt_bank.Text.Decimal.{to_string_injective}
use crypt_bank.Db.Laws.{value_at, get_safely-value_at, value_at-put_safely, value_at-get_safely}
use crypt_bank.Proto.{Proto}
use crypt_bank.Records.{BlockRecord, serialize_block_record, deserialize_block_record}
use crypt_bank.Records.InRange.{IsBlockRecord}
use crypt_bank.Records.RoundTrip.{deserialize_block_record-serialize_block_record}
use crypt_bank.BlockInfo.{BlockInfoDatabase, store_block_record, get_block_record}

module _ (proto : Proto) where
  -- The record that a lookup of `hash` returns.
  unfoldable pub record_at : BlockInfoDatabase → ℕ → BlockRecord
  record_at b hash = deserialize_block_record proto (value_at b.database (to_string hash))

  pub get_block_record-record_at :
      (b : BlockInfoDatabase) (hash : ℕ) → (get_block_record proto b hash).0 ≡ record_at b hash
  unfolding get_block_record record_at
  get_block_record-record_at b hash =
      ap (deserialize_block_record proto) (get_safely-value_at b.database (to_string hash))

  -- A lookup changes no record.
  pub record_at-get_block_record :
      (b : BlockInfoDatabase) (hash j : ℕ)
      → record_at (get_block_record proto b hash).1 j ≡ record_at b j
  unfolding get_block_record record_at
  record_at-get_block_record b hash j =
      ap (deserialize_block_record proto)
        (value_at-get_safely b.database (to_string hash) (to_string j))

  pub record_at-store_block_record_ne :
      (b : BlockInfoDatabase) (hash j : ℕ) (r : BlockRecord)
      → hash ≢ j
      → record_at (store_block_record proto b hash r) j ≡ record_at b j
  unfolding store_block_record record_at
  record_at-store_block_record_ne b hash j r h = ap (deserialize_block_record proto) (
      value_at-put_safely b.database (to_string hash) (to_string j) (serialize_block_record proto r)
      ∙ rw (==-eq-false (to_string hash) (to_string j) (λ e. h (to_string_injective hash j e))))

  pub record_at-store_block_record_self :
      (b : BlockInfoDatabase) (hash : ℕ) (r : BlockRecord)
      → IsBlockRecord r
      → record_at (store_block_record proto b hash r) hash ≡ r
  unfolding store_block_record record_at
  record_at-store_block_record_self b hash r h =
      ap (deserialize_block_record proto) (
        value_at-put_safely b.database (to_string hash) (to_string hash)
          (serialize_block_record proto r)
        ∙ rw (==-refl (to_string hash)))
      ∙ deserialize_block_record-serialize_block_record proto r h

  record_at-store_block_record :
      (b : BlockInfoDatabase) (hash j : ℕ) (r : BlockRecord)
      → IsBlockRecord r
      → record_at (store_block_record proto b hash r) j
        ≡ (if nat_beq hash j then r else record_at b j)
  record_at-store_block_record b hash j r h = ground (
    arith,
    record_at-store_block_record_self b hash r h,
    λ (ne : hash ≢ j). record_at-store_block_record_ne b hash j r ne,
  )

  -- After a record in range is stored under a hash, a lookup of that hash returns it and a lookup
  -- of any other hash returns what it returned before. A lookup changes no later one.
  pub get_block_record-store_block_record :
      (b : BlockInfoDatabase) (hash j : ℕ) (r : BlockRecord)
      → IsBlockRecord r
      → ((get_block_record proto (store_block_record proto b hash r) j).0
          ≡ (if nat_beq hash j then r else (get_block_record proto b j).0))
        × ((get_block_record proto (get_block_record proto b hash).1 j).0
            ≡ (get_block_record proto b j).0)
  get_block_record-store_block_record b hash j r h =
      rw (get_block_record-record_at, get_block_record-record_at b j)
        (
          record_at-store_block_record b hash j r h,
          get_block_record-record_at (get_block_record proto b hash).1 j
              ∙ record_at-get_block_record b hash j,
        )
