-- ===== src/Locator.antt =====
-- `CoinLocator` of core/src/coin_database/coin_database.cpp: a transaction hash and an output index
-- as one text, "hash-index", the key of the coin cache.
pub mod RoundTrip
use crypt_bank.Prelude.{ℕ, ◌%◌, ◌^◌, Option, some, ◌∷◌, ◌++◌, Bytes, ◌>>=◌}
use crypt_bank.Text.{to_string, before, behind, stoul}

pub record CoinLocator : Type 0 where
  pub transaction_hash : ℕ
  pub output_index : ℕ

-- `CoinLocator::CoinLocator`
abbrev pub new_locator : ℕ → ℕ → CoinLocator
new_locator transaction_hash output_index = record {
  transaction_hash = transaction_hash;
  output_index = output_index;
}

unfoldable pub serialize_from_construct : ℕ → ℕ → Bytes
serialize_from_construct transaction_hash output_index =
    to_string transaction_hash ++ (b'-' ∷ to_string output_index)

unfoldable pub serialize : CoinLocator → Bytes
serialize l = to_string l.transaction_hash ++ (b'-' ∷ to_string l.output_index)

-- `std::stoul` throws where it reads no number; its result is cut to the type of the field.
unfoldable pub deserialize : Bytes → Option CoinLocator
deserialize s = do
  transaction_hash ← stoul (before b'-' s)
  output_index ← stoul (behind b'-' s)
  some (new_locator (transaction_hash % 2 ^ 32) (output_index % 2 ^ 8))
