-- ===== src/Chain/Genesis.antt =====
-- The chain that the constructor of `Chain` makes.
use crypt_bank.Prelude.{◌≡◌, refl, some, [], arith}
use crypt_bank.Primitives.{new_transaction, get_transactions}
use crypt_bank.Env.{Env}
use crypt_bank.BlockInfo
use crypt_bank.Coins
use crypt_bank.Coins.Validate.{CoinSet}
use crypt_bank.Coins.Represents.{with_coin}
use crypt_bank.Coins.Apply.{CanApply, apply_block, spend_all, store_block-Represents}
use crypt_bank.Coins.Start.{no_coins, empty-Represents}
use crypt_bank.Writer
use crypt_bank.Writer.{FileSystem}
use crypt_bank.Chain.{Chain}
use crypt_bank.Chain.Handle.{new_chain, construct_genesis_block}
use crypt_bank.Chain.Active.{Storable, stored, with_block, genesis-IsBlock}
use crypt_bank.Chain.History.{IsHistory, with_block-IsHistory}

module _ (env : Env) where
  -- The genesis block's coins.
  abbrev pub genesis_coins : CoinSet
  genesis_coins = apply_block env no_coins (get_transactions construct_genesis_block)

  genesis-CanApply : CanApply env no_coins (get_transactions construct_genesis_block)
  unfolding get_transactions construct_genesis_block new_transaction with_coin spend_all
  genesis-CanApply =
      (tt, (omega arith, refl, (omega arith, ground arith, (omega arith, ground arith, tt))), tt)

  -- Where the disk lets the writer store the genesis block, the constructor succeeds, and the chain
  -- is made of the genesis block alone, kept at height 1, with the coins that its transaction
  -- makes.
  pub new_chain-IsHistory :
      (fs : FileSystem)
      → Storable env Writer.new_writer fs construct_genesis_block
      → (c : Chain) × (new_chain env fs ≡ some c)
        × IsHistory env c construct_genesis_block [] genesis_coins
  unfolding new_chain
  new_chain-IsHistory fs storable =
      let (coins, e, r) =
        store_block-Represents env Coins.empty no_coins (get_transactions construct_genesis_block)
          (empty-Represents env) genesis-CanApply in
      let st =
        stored env construct_genesis_block 1 coins Writer.new_writer fs BlockInfo.empty
          genesis-IsBlock (omega arith) storable in
      (
        with_block env construct_genesis_block 1 coins Writer.new_writer fs BlockInfo.empty
            genesis-IsBlock (omega arith) storable,
        rw st.returned (rw e refl),
        with_block-IsHistory env construct_genesis_block 1 coins Writer.new_writer fs
            BlockInfo.empty genesis-IsBlock (omega arith) storable [] genesis_coins (omega arith) tt
            tt tt r,
      )
