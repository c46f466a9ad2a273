-- ===== src/Coins/Records.antt =====
-- The coin records in the database of a `CoinDatabase`, as the reads of the sources see them.
use crypt_bank.Prelude.{
  ℕ, ◌≡◌, ap, ◌∙◌, ◌≢◌, inl, inr, false, Option, none, some, List, [], arith, nat_beq,
  if◌then◌else◌, nat_beq_iff, Bool-cases, ==_iff, ==-eq-false, bytes_eq,
}
use crypt_bank.Text.{to_string}
use crypt_bank.Text.Decimal.{to_string_injective}
use crypt_bank.Db
use crypt_bank.Db.{Database}
use crypt_bank.Db.Laws.{
  value_at, get_safely-value_at, value_at-get_safely, value_at-put_safely, value_at-absent,
}
use crypt_bank.Records.{CoinRecord, deserialize_coin_record, coin_message}
use crypt_bank.Records.InRange.{IsCoinRecord}
use crypt_bank.Records.RoundTrip.{
  deserialize_coin_record-encode, serialize_coin_record-Aligned, deserialize_coin_record-nil,
}
use crypt_bank.Env.{Env}
use crypt_bank.Coins.{load_record, save_record}

to_string-ne : (h j : ℕ) → nat_beq h j ≡ false → to_string h ≢ to_string j
to_string-ne h j e p = ground (arith, nat_beq_iff h j, to_string_injective h j p, e)

abbrev pub empty_record : CoinRecord
empty_record = record { version = 0; utxo = []; amounts = []; public_keys = [] }

abbrev pub utxo_or : Option CoinRecord → List ℕ
utxo_or none = []
utxo_or (some r) = r.utxo

module _ (env : Env) where
  -- Under every hash is a record in range; an absent one is the record with no coins.
  pub record HasRecords (db : Database) : Type 0 where
    pub at : ℕ → CoinRecord
    pub decoded :
        (h : ℕ) → deserialize_coin_record env.proto (value_at db (to_string h)) ≡ some (at h)
    pub in_range : (h : ℕ) → IsCoinRecord (at h)

  -- A read of a record returns it, and leaves the others.
  pub load_record-HasRecords :
      (db : Database) (rs : HasRecords db) (h : ℕ)
      → load_record env db (to_string h) ≡ some (rs.at h, (Db.get_safely db (to_string h)).1)
  unfolding load_record
  load_record-HasRecords db rs h = rw (get_safely-value_at db (to_string h)) (rw (rs.decoded h))

  abbrev pub after_load :
      (db : Database) (rs : HasRecords db) (h : ℕ) → HasRecords (Db.get_safely db (to_string h)).1
  after_load db rs h = record {
    at = rs.at;
    decoded = λ j. rw (value_at-get_safely db (to_string h) (to_string j)) (rs.decoded j);
    in_range = rs.in_range;
  }

  -- A record in range is saved, in place of the one under its hash.
  pub saved : Database → ℕ → CoinRecord → Database
  saved db h r =
      Db.put_safely db (to_string h)
        (env.proto.coin_record.encode (coin_message r.version (r.utxo, r.amounts, r.public_keys)))

  pub save_record-saved :
      (db : Database) (h : ℕ) (r : CoinRecord)
      → IsCoinRecord r
      → save_record env db (to_string h) r ≡ some (saved db h r)
  unfolding save_record saved
  save_record-saved db h r w = rw (serialize_coin_record-Aligned env.proto r w.aligned)

  abbrev pub replaced : {db : Database} → HasRecords db → ℕ → CoinRecord → ℕ → CoinRecord
  replaced rs h r j = if nat_beq h j then r else rs.at j

  module _ (db : Database) (rs : HasRecords db) (h : ℕ) (r : CoinRecord) (w : IsCoinRecord r) where
    pub decoded-saved :
        (j : ℕ)
        → deserialize_coin_record env.proto (value_at (saved db h r) (to_string j))
          ≡ some (replaced rs h r j)
    unfolding saved
    decoded-saved j = elim (Bool-cases (nat_beq h j)) [
      | inl same ↦
          rw (same, value_at-put_safely db (to_string h) (to_string j))
            (rw ((==_iff (to_string h) (to_string j)).1 (ap to_string ((nat_beq_iff h j).0 same)))
              (deserialize_coin_record-encode env.proto r w))
      | inr other ↦
          rw (other, value_at-put_safely db (to_string h) (to_string j))
            (rw (==-eq-false (to_string h) (to_string j) (to_string-ne h j other)) (rs.decoded j))
    ]

    pub in_range-saved : (j : ℕ) → IsCoinRecord (replaced rs h r j)
    in_range-saved j = elim (Bool-cases (nat_beq h j)) [
      | inl same ↦ rw same w
      | inr other ↦ rw other (rs.in_range j)
    ]

    abbrev pub after_save : HasRecords (saved db h r)
    after_save = record { at = replaced rs h r; decoded = decoded-saved; in_range = in_range-saved }

  pub absent-empty :
      (db : Database) (rs : HasRecords db) (h : ℕ)
      → Db.has db (to_string h) ≡ false
      → rs.at h ≡ empty_record
  absent-empty db rs h e =
      cc (rs.decoded h, value_at-absent db (to_string h) e, deserialize_coin_record-nil env.proto)

  -- The indices of the coins that the record of a hash lists.
  unfoldable pub utxo_of : Database → ℕ → List ℕ
  utxo_of db h = utxo_or (deserialize_coin_record env.proto (value_at db (to_string h)))

  pub utxo_of-at : (db : Database) (rs : HasRecords db) (h : ℕ) → utxo_of db h ≡ (rs.at h).utxo
  unfolding utxo_of
  utxo_of-at db rs h = ap utxo_or (rs.decoded h)

  pub utxo_of-get_safely :
      (db : Database) (h j : ℕ) → utxo_of (Db.get_safely db (to_string h)).1 j ≡ utxo_of db j
  unfolding utxo_of
  utxo_of-get_safely db h j =
      ap (λ v. utxo_or (deserialize_coin_record env.proto v))
        (value_at-get_safely db (to_string h) (to_string j))

  pub utxo_of-saved :
      (db : Database) (rs : HasRecords db) (h : ℕ) (r : CoinRecord) (w : IsCoinRecord r) (j : ℕ)
      → utxo_of (saved db h r) j ≡ (if nat_beq h j then r.utxo else utxo_of db j)
  utxo_of-saved db rs h r w j =
      utxo_of-at (saved db h r) (after_save db rs h r w) j ∙ ground (arith, utxo_of-at db rs j)
