-- ===== src/Db/Laws.antt =====
-- The database as a client sees it: the value under each key, where an absent key reads as the
-- empty string.
use crypt_bank.Prelude.{
  ◌≡◌, refl, true, false, [], arith, if◌then◌else◌, ◌==◌, ==_iff, Bytes, bytes_eq,
}
use crypt_bank.Prelude.Map.{
  find, contains, insert, find-assign, contains-assign, find-erase, find-none, find-insert,
}
use crypt_bank.Db.{Database, get_safely, put_safely, delete_safely, has, or_empty}

-- The value that a read of `key` returns.
unfoldable pub value_at : Database → Bytes → Bytes
value_at db key = or_empty (find key db.store)

pub get_safely-value_at : (db : Database) (key : Bytes) → (get_safely db key).0 ≡ value_at db key
unfolding get_safely value_at
get_safely-value_at db key = refl

pub value_at-put_safely :
    (db : Database) (key j value : Bytes)
    → value_at (put_safely db key value) j ≡ (if key == j then value else value_at db j)
unfolding value_at put_safely
value_at-put_safely db key j value = ground (arith, find-assign key j value db.store)

pub value_at-delete_safely :
    (db : Database) (key j : Bytes)
    → value_at (delete_safely db key) j ≡ (if key == j then [] else value_at db j)
unfolding value_at delete_safely
value_at-delete_safely db key j = ground (arith, find-erase key j db.store)

-- A read adds an entry at most; no key reads differently afterwards.
pub value_at-get_safely :
    (db : Database) (key j : Bytes) → value_at (get_safely db key).1 j ≡ value_at db j
unfolding value_at get_safely
value_at-get_safely db key j =
    ground (arith, find-insert key j [] db.store, find-none key db.store, ==_iff key j)

pub has-get_safely :
    (db : Database) (key j : Bytes)
    → has (get_safely db key).1 j ≡ (if key == j then true else has db j)
unfolding has get_safely insert contains
has-get_safely db key j = ground (arith, ==_iff key j)

pub has-put_safely :
    (db : Database) (key j value : Bytes)
    → has (put_safely db key value) j ≡ (if key == j then true else has db j)
unfolding has put_safely
has-put_safely db key j value = contains-assign key j value db.store

-- A key that the table does not have reads as the empty string.
pub value_at-absent : (db : Database) (key : Bytes) → has db key ≡ false → value_at db key ≡ []
unfolding has value_at
value_at-absent db key h = rw (find-none key db.store h)

-- A read of a key that is there leaves the table as it is.
pub get_safely-present :
    (db : Database) (key : Bytes) → has db key ≡ true → (get_safely db key).1 ≡ db
unfolding has get_safely insert
get_safely-present db key h = ground arith
