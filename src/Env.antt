-- ===== src/Env.antt =====
-- What the program runs on and does not define: the message codecs of the protobuf runtime, what
-- the stack holds where `CryptCrypto::hash` reads it unset (taken to be the same at each call), and
-- for each path whether the operating system lets `fopen` open it for appending.
use crypt_bank.Prelude.{ℕ, Bool, List, Bytes}
use crypt_bank.Crypto
use crypt_bank.Proto.{Proto}
use crypt_bank.Primitives.{Transaction, Block, serialize_transaction, serialize_block}

pub record Env : Type 0 where
  pub proto : Proto
  pub stack_bytes : List ℕ
  pub stack_word : ℕ
  pub may_append : Bytes → Bool

module _ (env : Env) where
  -- `CryptCrypto::hash(Transaction::serialize(t))`
  unfoldable pub transaction_hash : Transaction → ℕ
  transaction_hash t =
      Crypto.hash env.stack_bytes env.stack_word (serialize_transaction env.proto t)

  -- `CryptCrypto::hash(Block::serialize(b))`
  unfoldable pub block_hash : Block → ℕ
  block_hash b = Crypto.hash env.stack_bytes env.stack_word (serialize_block env.proto b)
