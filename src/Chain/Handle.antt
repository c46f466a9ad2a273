-- ===== src/Chain/Handle.antt =====
-- core/src/chain/chain.cpp: the constructor of `Chain`, `handle_block` and `handle_transaction`.
use crypt_bank.Prelude.{
  ℕ, ◌+◌, ◌%◌, ◌^◌, not, ◌||◌, Option, some, [], ◌∷◌, ltb, nat_beq, if◌then◌else◌, length, ◌>>=◌,
}
use crypt_bank.Primitives.{
  Transaction, BlockHeader, Block, new_output, new_block, new_transaction, get_transactions,
  serialize_block, serialize_header, deserialize_header,
}
use crypt_bank.Records.{new_file_info, new_block_record}
use crypt_bank.Env.{Env, block_hash}
use crypt_bank.BlockInfo
use crypt_bank.BlockInfo.{BlockInfoDatabase, store_block_record, get_block_record}
use crypt_bank.Coins
use crypt_bank.Coins.{CoinDatabase, validate_block, validate_and_store_transaction}
use crypt_bank.Writer
use crypt_bank.Writer.{
  ChainWriter, FileSystem, new_writer, write_block, read_block, read_undo_block,
}
use crypt_bank.Chain.{Chain, look_up, get_last_block_hash}
use crypt_bank.Chain.Reorg.{take_over}

abbrev pub genesis_header : BlockHeader
genesis_header = record {
  version = 1;
  previous_block_hash = 0;
  merkle_root = 0;
  difficulty_target = 0;
  nonce = 0;
  timestamp = 0;
}

unfoldable pub construct_genesis_block : Block
construct_genesis_block = new_block genesis_header (
    new_transaction [] (new_output 100 12345 ∷ new_output 200 67891 ∷ new_output 300 23456 ∷ [])
    ∷ [])

module _ (env : Env) where
  unfoldable pub new_chain : FileSystem → Option Chain
  new_chain fs = do
    let genesis = construct_genesis_block
    (r, w, fs') ← Writer.store_block env new_writer fs genesis 1
    coins ← Coins.store_block env Coins.empty (get_transactions genesis)
    some (record {
      active_chain_length = 1;
      active_chain_last_block = genesis;
      block_info_database = store_block_record env.proto BlockInfo.empty (block_hash env genesis) r;
      chain_writer = w;
      coin_database = coins;
      file_system = fs';
    })

  -- The block goes on the active chain.
  unfoldable pub extend_chain : Chain → Block → ℕ → Option Chain
  extend_chain c b current_hash = do
    coins ← Coins.store_block env c.coin_database (get_transactions b)
    let height = (c.active_chain_length + 1) % 2 ^ 32
    (r, w, fs) ← Writer.store_block env c.chain_writer c.file_system b height
    some (record {
      active_chain_length = (c.active_chain_length + 1) % 2 ^ 32;
      active_chain_last_block = b;
      block_info_database = store_block_record env.proto c.block_info_database current_hash r;
      chain_writer = w;
      coin_database = coins;
      file_system = fs;
    })

  -- A block whose parent is not the last block: stored, and followed if it is higher.
  unfoldable pub fork_chain : Chain → Block → ℕ → Option Chain
  unfolding look_up take_over
  fork_chain c b current_hash =
      let (prev_record, c1) = look_up env c b.block_header.previous_block_hash in
      let height = (prev_record.height + 1) % 2 ^ 32 in
      let (info, w, fs) =
        write_block env c1.chain_writer c1.file_system (serialize_block env.proto b) in
      do
        block_info ← info
        let header = deserialize_header env.proto (serialize_header env.proto b.block_header)
        let r =
            new_block_record header (length b.transactions % 2 ^ 32) height block_info
              (new_file_info [] 0 0)
        let c2 = record c1 {
          chain_writer = w;
          file_system = fs;
          block_info_database = store_block_record env.proto c1.block_info_database current_hash r;
        }
        if ltb c2.active_chain_length height then take_over env c2 b current_hash else some c2

  unfoldable pub handle_block : Chain → Block → Option Chain
  handle_block c b = do
    let current_hash = block_hash env b
    (valid, coins) ← validate_block env c.coin_database (get_transactions b)
    let c1 = record c { coin_database = coins }
    last_hash ← get_last_block_hash env c1
    if valid || not (nat_beq b.block_header.previous_block_hash last_hash)
        then (if nat_beq b.block_header.previous_block_hash last_hash
            then extend_chain c1 b current_hash
            else fork_chain c1 b current_hash)
        else some c1

  unfoldable pub handle_transaction : Chain → Transaction → Option Chain
  handle_transaction c t = do
    (stored, coins) ←
        validate_and_store_transaction env c.coin_database
          (new_transaction t.transaction_inputs t.transaction_outputs)
    some (record c { coin_database = coins })
