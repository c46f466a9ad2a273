-- ===== src/Records/Truncated.antt =====
-- Undo records with more amounts and keys than indices: what is written of them, and read back.
use crypt_bank.Prelude.{
  ℕ, suc, ◌≡◌, refl, sym, ap, ◌∙◌, some, List, [], ◌∷◌, map, length, All, Bytes, ◌>>=◌, >>=-eq-some,
}
use mathlib.Core.Path.{subst}
use mathlib.Core.Option.{some-injective, none-ne-some}
use crypt_bank.Proto.{Proto, PCoinRecord, IsU8, IsU32}
use crypt_bank.Records.{
  UndoCoinRecord, UndoBlock, new_undo_coin_record, new_undo_block, rows, undo_coin_message,
  undo_messages, serialize_undo_block, deserialize_undo_block,
}
use crypt_bank.Records.InRange.{IsUndoCoinRecord, rows-some, undo_message, undo_messages-some}
use crypt_bank.Records.RoundTrip.{deserialize_undo_block-serialize_undo_block}

-- The fields are in range; the vectors may have any lengths.
pub record IsRanged (r : UndoCoinRecord) : Type 0 where
  pub version : IsU8 r.version
  pub utxo : All IsU32 r.utxo
  pub amounts : All IsU32 r.amounts
  pub public_keys : All IsU32 r.public_keys

rows-All :
    (P : ℕ → Type 0) (utxo amounts keys : List ℕ) {r : List ℕ × List ℕ × List ℕ}
    → rows utxo amounts keys ≡ some r
    → All P amounts
    → All P keys
    → All P r.1 × All P r.2
unfolding rows
rows-All P [] amounts keys h pa pk = let e = some-injective _ _ h in rw (← e) (tt, tt)
rows-All P (u ∷ us) [] keys h pa pk = absurd (none-ne-some _ h)
rows-All P (u ∷ us) (a ∷ amounts) [] h pa pk = absurd (none-ne-some _ h)
rows-All P (u ∷ us) (a ∷ amounts) (k ∷ keys) {r} h (pa, pas) (pk, pks) =
    let (q, e, e') = >>=-eq-some (rows us amounts keys) _ h in
    let (qa, qk) = rows-All P us amounts keys e pas pks in
    subst (λ t. All P t.1 × All P t.2) (some-injective _ _ e') ((pa, qa), (pk, qk))

written_record :
    (r : UndoCoinRecord) (m : PCoinRecord)
    → undo_coin_message r ≡ some m
    → IsRanged r
    → (r' : UndoCoinRecord) × (m ≡ undo_message r') × IsUndoCoinRecord r'
unfolding undo_coin_message
written_record r m h ranged =
    let (q, e, e') = >>=-eq-some (rows r.utxo r.amounts r.public_keys) _ h in
    let (aligned, same) = rows-some r.utxo r.amounts r.public_keys e in
    let (pa, pk) =
      rows-All IsU32 r.utxo r.amounts r.public_keys e ranged.amounts ranged.public_keys in
    (
      new_undo_coin_record r.version q.0 q.1 q.2,
      sym (some-injective _ _ e'),
      record {
        version = ranged.version;
        aligned = aligned;
        utxo = rw same ranged.utxo;
        amounts = pa;
        public_keys = pk;
      },
    )

written_records :
    (hashes : List ℕ) (records : List UndoCoinRecord) (r : List ℕ × List PCoinRecord)
    → undo_messages hashes records ≡ some r
    → All IsRanged records
    → (records' : List UndoCoinRecord) × (r ≡ (hashes, map undo_message records'))
      × (length records' ≡ length hashes)
      × All IsUndoCoinRecord records'
unfolding undo_messages
written_records [] records r h ranged = ([], sym (some-injective _ _ h), refl, tt)
written_records (x ∷ hashes) [] r h ranged = absurd (none-ne-some _ h)
written_records (x ∷ hashes) (y ∷ records) r h (ry, ranged) =
    let (m, e, h1) = >>=-eq-some (undo_coin_message y) _ h in
    let (q, e1, h2) = >>=-eq-some (undo_messages hashes records) _ h1 in
    let (y', em, good) = written_record y m e ry in
    let (ys, eq, len, goods) = written_records hashes records q e1 ranged in
    (y' ∷ ys, sym (some-injective _ _ h2) ∙ rw (em, eq) refl, ap suc len, (good, goods))

-- An undo block whose fields are in range is read back, where it could be written, as one with the
-- same hashes.
pub deserialize_undo_block-hashes :
    (proto : Proto) (u : UndoBlock) (text : Bytes)
    → serialize_undo_block proto u ≡ some text
    → All IsU32 u.transaction_hashes
    → All IsRanged u.undo_coin_records
    → (u' : UndoBlock) × (deserialize_undo_block proto text ≡ some u')
      × (u'.transaction_hashes ≡ u.transaction_hashes)
unfolding serialize_undo_block
deserialize_undo_block-hashes proto u text made hashes ranged =
    let (q, e, e') = >>=-eq-some (undo_messages u.transaction_hashes u.undo_coin_records) _ made in
    let (records, eq, len, goods) =
      written_records u.transaction_hashes u.undo_coin_records q e ranged in
    let u' = new_undo_block u.transaction_hashes records in
    let round =
      deserialize_undo_block-serialize_undo_block proto u'
        (record { aligned = len; transaction_hashes = hashes; undo_coin_records = goods }) in
    let again : serialize_undo_block proto u' ≡ some text =
      rw (undo_messages-some u.transaction_hashes records len goods) (
        subst
          (λ t.
            some (
              proto.undo_block.encode
                (record { transaction_hashes = t.0; undo_coin_records = t.1 }))
            ≡ some text)
          eq e') in
    (u', sym (ap (λ t. t >>= deserialize_undo_block proto) again) ∙ round, refl)
