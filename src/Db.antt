-- ===== src/Db.antt =====
-- core/src/db/db.cpp and core/include/db/db.h: the in-memory hash table behind both databases, and
-- batches of writes. The mutex is not modelled: each call is one step. A lookup `_store[key]` adds
-- an empty entry for a key that is not there, so reads return the store too.
pub mod Laws
pub mod Batches
use crypt_bank.Prelude.{Bool, Option, none, some, List, [], ◌∷◌, ◌++◌, Bytes, bytes_eq}
use crypt_bank.Prelude.Map.{Map, find, contains, assign, insert, erase}

-- `enum HashTableWriteOperation`
pub data HashTableWriteOperation : Type 0 where
  delete put : HashTableWriteOperation

pub record BatchOperation : Type 0 where
  pub operation : HashTableWriteOperation
  pub key : Bytes
  pub value : Bytes

-- `BatchOperation::BatchOperation`
abbrev pub new_operation : HashTableWriteOperation → Bytes → Bytes → BatchOperation
new_operation operation key value = record { operation = operation; key = key; value = value }

-- `_batch`, oldest first
pub record Batch : Type 0 where
  pub batch : List BatchOperation

pub record Database : Type 0 where
  pub store : Map Bytes Bytes

abbrev pub empty_batch : Batch
empty_batch = record { batch = [] }

pub batch_delete : Batch → Bytes → Batch
batch_delete b key = record { batch = b.batch ++ (new_operation delete key [] ∷ []) }

pub batch_put : Batch → Bytes → Bytes → Batch
batch_put b key value = record { batch = b.batch ++ (new_operation put key value ∷ []) }

abbrev pub empty : Database
empty = record { store = [] }

-- `_store[key]` as a value: an absent key has the empty string.
abbrev pub or_empty : Option Bytes → Bytes
or_empty none = []
or_empty (some v) = v

unfoldable pub get : Database → Bytes → Bytes × Database
get db key = (or_empty (find key db.store), record { store = insert key [] db.store })

unfoldable pub get_safely : Database → Bytes → Bytes × Database
get_safely db key = (or_empty (find key db.store), record { store = insert key [] db.store })

unfoldable pub put_safely : Database → Bytes → Bytes → Database
put_safely db key value = record { store = assign key value db.store }

unfoldable pub delete_safely : Database → Bytes → Database
delete_safely db key = record { store = erase key db.store }

unfoldable pub has : Database → Bytes → Bool
has db key = contains key db.store

-- One round of the loop of `batch_write_safely`.
run_operation : Database → HashTableWriteOperation → Bytes → Bytes → Database
run_operation db delete key value = record { store = erase key db.store }
run_operation db put key value = record { store = assign key value db.store }

run_operations : Database → List BatchOperation → Database
run_operations db [] = db
run_operations db (op ∷ ops) = run_operations (run_operation db op.operation op.key op.value) ops

pub batch_write_safely : Database → Batch → Database
batch_write_safely db b = run_operations db b.batch

pub batch_read : Database → List Bytes → List Bytes × Database
batch_read db [] = ([], db)
batch_read db (key ∷ keys) =
    let (reads, db') = batch_read (record { store = insert key [] db.store }) keys in
    (or_empty (find key db.store) ∷ reads, db')

pub batch_read_safely : Database → List Bytes → List Bytes × Database
batch_read_safely db [] = ([], db)
batch_read_safely db (key ∷ keys) =
    let (reads, db') = batch_read_safely (record { store = insert key [] db.store }) keys in
    (or_empty (find key db.store) ∷ reads, db')
