-- ===== src/Coins/Add.antt =====
-- The outputs of a transaction against the set of coins: `add_output` puts a coin in.
use crypt_bank.Prelude.{
  ℕ, ◌+◌, ◌%◌, ◌^◌, ◌≡◌, refl, ap, inl, inr, false, some, ◌∷◌, arith, leb, if◌then◌else◌,
  nat_beq_iff, Bool-cases, Bytes, bytes_eq,
}
use crypt_bank.Prelude.Map.{contains, insert}
use crypt_bank.Primitives.{TransactionOutput}
use crypt_bank.Primitives.InRange.{IsOutput}
use crypt_bank.Proto.{IsU32}
use crypt_bank.Locator.{serialize_from_construct}
use crypt_bank.Env.{Env}
use crypt_bank.Coins.{Coin, CoinDatabase, flush_main_cache, add_output}
use crypt_bank.Coins.View.{entries, copies, IsCached}
use crypt_bank.Coins.Validate.{CoinSet}
use crypt_bank.Coins.Flush.{flush_main_cache-SameCoins}
use crypt_bank.Coins.Erase.{entries-contains}
use crypt_bank.Coins.Represents.{with_coin, same_key, Represents, SameCoins-Represents}

module _ (env : Env) where
  -- The branch of `add_output` that makes room.
  room_made :
      (c : CoinDatabase) (s : CoinSet)
      → Represents env c s
      → (c' : CoinDatabase) × ((if leb 70 c.main_cache_size then flush_main_cache env c else some c)
          ≡ some c')
        × Represents env c' s
  room_made c s r = elim (Bool-cases (leb 70 c.main_cache_size)) [
    | inl full ↦
        let (c', e, same, cleared, zeroed) = flush_main_cache-SameCoins env c r.sound in
        (c', rw full e, SameCoins-Represents env same r)
    | inr space ↦ (c, rw space refl, r)
  ]

  module _ (c : CoinDatabase) (s : CoinSet) (r : Represents env c s) (hash n : ℕ)
      (o : TransactionOutput) (hash_range : IsU32 hash) (output_range : IsOutput o)
      (fresh : s hash (n % 2 ^ 8) ≡ false) where
    abbrev new_key : Bytes
    new_key = serialize_from_construct hash (n % 2 ^ 8)

    abbrev new_coin : Coin
    new_coin = record { transaction_output = o; is_spent = false }

    not_cached : contains new_key c.main_cache ≡ false
    unfolding copies
    not_cached = elim (Bool-cases (contains new_key c.main_cache)) [
      | inl there ↦
          ground (
            arith,
            fresh,
            r.copies hash (n % 2 ^ 8),
            (entries-contains new_key c.main_cache).0 there,
          )
      | inr absent ↦ absent
    ]

    abbrev with_entry : CoinDatabase
    with_entry = record c {
      main_cache = insert new_key new_coin c.main_cache;
      main_cache_size = (c.main_cache_size + 1) % 2 ^ 16;
    }

    inserted : insert new_key new_coin c.main_cache ≡ (new_key, new_coin) ∷ c.main_cache
    unfolding insert
    inserted = rw not_cached refl

    copies-with_entry :
        (h' i' : ℕ)
        → copies env with_entry h' i' ≡ (if with_coin s hash (n % 2 ^ 8) h' i' then 1 else 0)
    unfolding copies with_coin entries
    copies-with_entry h' i' = ground (
      arith,
      fresh,
      inserted,
      ap (entries (serialize_from_construct h' i')) inserted,
      r.copies h' i',
      same_key hash (n % 2 ^ 8) h' i',
      nat_beq_iff hash h',
      nat_beq_iff (n % 2 ^ 8) i',
    )

    entry-IsCached : IsCached (new_key, new_coin)
    entry-IsCached = record {
      hash = hash;
      index = n % 2 ^ 8;
      key = refl;
      hash_range = hash_range;
      index_range = omega arith;
      output = output_range;
      unspent = refl;
    }

    with_entry-Represents : Represents env with_entry (with_coin s hash (n % 2 ^ 8))
    with_entry-Represents = record {
      sound = record {
        records = r.sound.records;
        cached = rw inserted (entry-IsCached, r.sound.cached);
      };
      copies = copies-with_entry;
    }

  -- Where a coin database represents a set of coins, an output in range whose coin, of a 32-bit hash
  -- and the index cut to 8 bits, is not in the set is added without a fault, after a flush where the
  -- cache is full, and the set with the coin is represented.
  pub add_output-Represents :
      (c : CoinDatabase) (s : CoinSet) (hash n : ℕ) (o : TransactionOutput)
      → Represents env c s
      → IsU32 hash
      → IsOutput o
      → s hash (n % 2 ^ 8) ≡ false
      → (c' : CoinDatabase) × (add_output env c hash n o ≡ some c')
        × Represents env c' (with_coin s hash (n % 2 ^ 8))
  unfolding add_output
  add_output-Represents c s hash n o r hr ho fresh =
      let (c1, e, r1) = room_made c s r in
      (
        with_entry c1 s r1 hash n o hr ho fresh,
        rw e refl,
        with_entry-Represents c1 s r1 hash n o hr ho fresh,
      )
