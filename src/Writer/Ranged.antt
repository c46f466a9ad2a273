-- ===== src/Writer/Ranged.antt =====
-- The undo block of a block in range: its fields are in range.
use crypt_bank.Prelude.{
  suc, ◌≡◌, refl, ap, List, [], ◌∷◌, ◌++◌, map, arith, length, All, All-append, All-map,
}
use crypt_bank.Proto.{IsU32}
use crypt_bank.Primitives.{Transaction, Block}
use crypt_bank.Primitives.InRange.{IsInput, IsOutput, IsTransaction, IsBlock}
use crypt_bank.Records.Truncated.{IsRanged}
use crypt_bank.Env.{Env}
use crypt_bank.Coins.Apply.{transaction_hash-IsU32}
use crypt_bank.Writer.{UndoVectors, make_undo_records, make_undo_block}

module _ (env : Env) where
  record AreU32 (v : UndoVectors) : Type 0 where
    utxo_index : All IsU32 v.utxo_index
    amounts : All IsU32 v.amounts
    public_keys : All IsU32 v.public_keys

  make_undo_records-IsRanged :
      (v : UndoVectors) (ts : List Transaction)
      → AreU32 v
      → All IsTransaction ts
      → All IsU32 (make_undo_records env v ts).0 × All IsRanged (make_undo_records env v ts).1
  unfolding make_undo_records
  make_undo_records-IsRanged v [] hv h = (tt, tt)
  make_undo_records-IsRanged v (t ∷ ts) hv (ht, h) =
      let more : AreU32 (record {
        utxo_index = v.utxo_index ++ map (λ i. i.utxo_index) t.transaction_inputs;
        amounts = v.amounts ++ map (λ o. o.amount) t.transaction_outputs;
        public_keys = v.public_keys ++ map (λ o. o.public_key) t.transaction_outputs;
      }) =
        record {
          utxo_index = All-append IsU32 v.utxo_index _ hv.utxo_index (
              All-map {P = IsInput} IsU32 _ (λ i k. omega (arith, k.utxo_index))
                t.transaction_inputs ht.transaction_inputs);
          amounts = All-append IsU32 v.amounts _ hv.amounts (
              All-map {P = IsOutput} IsU32 _ (λ o k. k.amount) t.transaction_outputs
                ht.transaction_outputs);
          public_keys = All-append IsU32 v.public_keys _ hv.public_keys (
              All-map {P = IsOutput} IsU32 _ (λ o k. k.public_key) t.transaction_outputs
                ht.transaction_outputs);
        } in
      let (hashes, records) = make_undo_records-IsRanged _ ts more h in
      (
        (transaction_hash-IsU32 env t, hashes),
        (
          record {
            version = ht.version;
            utxo = more.utxo_index;
            amounts = more.amounts;
            public_keys = more.public_keys;
          },
          records,
        ),
      )

  pub make_undo_block-IsRanged :
      (b : Block)
      → IsBlock b
      → All IsU32 (make_undo_block env b).transaction_hashes
        × All IsRanged (make_undo_block env b).undo_coin_records
  unfolding make_undo_block
  make_undo_block-IsRanged b h =
      make_undo_records-IsRanged (record { utxo_index = []; amounts = []; public_keys = [] })
        b.transactions (record { utxo_index = tt; amounts = tt; public_keys = tt }) h.transactions

  pub length-make_undo_records :
      (v : UndoVectors) (ts : List Transaction) → length (make_undo_records env v ts).0 ≡ length ts
  unfolding make_undo_records
  length-make_undo_records v [] = refl
  length-make_undo_records v (t ∷ ts) = ap suc (length-make_undo_records _ ts)

  -- An undo block names each transaction.
  pub length-make_undo_block :
      (b : Block) → length (make_undo_block env b).transaction_hashes ≡ length b.transactions
  unfolding make_undo_block
  length-make_undo_block b = length-make_undo_records _ b.transactions
