-- ===== src/Db/Batches.antt =====
-- A batch of writes against the single writes in order, and batch reads.
use crypt_bank.Prelude.{
  ◌≡◌, refl, ap, ◌∙◌, List, [], ◌∷◌, map, arith, if◌then◌else◌, ◌==◌, Bytes, bytes_eq,
}
use crypt_bank.Db.{
  Database, Batch, BatchOperation, HashTableWriteOperation, delete, put, get_safely, run_operation,
  run_operations, batch_write_safely, batch_read, batch_read_safely, or_empty,
}
use mathlib.Core.Path.{ap₂, fun_ext}
use crypt_bank.Prelude.Map.{find, insert, find-assign, find-erase}
use crypt_bank.Db.Laws.{value_at, value_at-get_safely}

-- What a sequence of writes leaves under a key: the last write of that key decides.
unfoldable pub last_write : Bytes → Bytes → List BatchOperation → Bytes
last_write key old [] = old
last_write key old (op ∷ ops) =
    last_write key
      (if op.key == key then (elim op.operation [ delete ↦ [] | put ↦ op.value ]) else old) ops

run_operation-value_at :
    (db : Database) (op : HashTableWriteOperation) (key value j : Bytes)
    → value_at (run_operation db op key value) j
      ≡ (if key == j then (elim op [ delete ↦ [] | put ↦ value ]) else value_at db j)
unfolding run_operation value_at
run_operation-value_at db delete key value j = ground (arith, find-erase key j db.store)
run_operation-value_at db put key value j = ground (arith, find-assign key j value db.store)

run_operations-last_write :
    (db : Database) (ops : List BatchOperation) (key : Bytes)
    → value_at (run_operations db ops) key ≡ last_write key (value_at db key) ops
unfolding run_operations last_write
run_operations-last_write db [] key = refl
run_operations-last_write db (op ∷ ops) key =
    run_operations-last_write (run_operation db op.operation op.key op.value) ops key
    ∙ ap (λ old. last_write key old ops)
        (run_operation-value_at db op.operation op.key op.value key)

-- After a batch, each key reads as the last write of that key in the batch says: the value that it
-- put, the empty string if it deleted, and what it read before if the batch does not name the key.
pub batch_write_safely-last_write :
    (db : Database) (b : Batch) (key : Bytes)
    → value_at (batch_write_safely db b) key ≡ last_write key (value_at db key) b.batch
unfolding batch_write_safely
batch_write_safely-last_write db b key = run_operations-last_write db b.batch key

-- The store after a read of `key`.
touch : Database → Bytes → Database
touch db key = record { store = insert key [] db.store }

touch-value_at : (db : Database) (key j : Bytes) → value_at (touch db key) j ≡ value_at db j
unfolding touch
touch-value_at db key j = unfold get_safely in value_at-get_safely db key j

batch_read_safely-values :
    (db : Database) (keys : List Bytes) → (batch_read_safely db keys).0 ≡ map (value_at db) keys
unfolding batch_read_safely touch
batch_read_safely-values db [] = refl
batch_read_safely-values db (key ∷ keys) =
    ap₂ (λ v vs. v ∷ vs) (unfold value_at in refl)
      (batch_read_safely-values (touch db key) keys
        ∙ ap (λ f. map f keys) (fun_ext λ j. touch-value_at db key j))

value_at-batch_read_safely :
    (db : Database) (keys : List Bytes) (j : Bytes)
    → value_at (batch_read_safely db keys).1 j ≡ value_at db j
unfolding batch_read_safely touch
value_at-batch_read_safely db [] j = refl
value_at-batch_read_safely db (key ∷ keys) j =
    value_at-batch_read_safely (touch db key) keys j ∙ touch-value_at db key j

batch_read-eq : (db : Database) (keys : List Bytes) → batch_read db keys ≡ batch_read_safely db keys
unfolding batch_read batch_read_safely
batch_read-eq db [] = refl
batch_read-eq db (key ∷ keys) =
    ap (λ (r : List Bytes × Database). (or_empty (find key db.store) ∷ r.0, r.1))
      (batch_read-eq (record { store = insert key [] db.store }) keys)

-- A batch read returns the values in the order of the keys, as many as there are keys, and leaves
-- what every key reads as; the locking and the plain variant return the same.
pub batch_read_safely-map :
    (db : Database) (keys : List Bytes) (j : Bytes)
    → ((batch_read_safely db keys).0 ≡ map (value_at db) keys)
      × (value_at (batch_read_safely db keys).1 j ≡ value_at db j)
      × (batch_read db keys ≡ batch_read_safely db keys)
batch_read_safely-map db keys j =
    (batch_read_safely-values db keys, value_at-batch_read_safely db keys j, batch_read-eq db keys)
