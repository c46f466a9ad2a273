-- ===== src/Chain/Active.antt =====
-- `handle_block` where the parent is the last block, and the constructor.
use crypt_bank.Prelude.{
  ℕ, ◌+◌, ◌%◌, ◌^◌, ◌≤◌, ◌<◌, ◌≡◌, refl, true, some, arith, nat_beq_iff, length, Bytes,
}
use crypt_bank.Proto.{IsU32}
use crypt_bank.Primitives.{Block, new_transaction, get_transactions, serialize_block}
use crypt_bank.Primitives.InRange.{IsBlock}
use crypt_bank.Primitives.RoundTrip.{deserialize_block-serialize_block}
use crypt_bank.Records.{BlockRecord, new_block_record, serialize_undo_block}
use crypt_bank.Env.{Env, block_hash}
use crypt_bank.BlockInfo
use crypt_bank.BlockInfo.{BlockInfoDatabase, store_block_record}
use crypt_bank.BlockInfo.Lookup.{record_at-store_block_record_self}
use crypt_bank.Coins
use crypt_bank.Coins.{CoinDatabase}
use crypt_bank.Writer
use crypt_bank.Writer.{ChainWriter, FileSystem, make_undo_block}
use crypt_bank.Writer.Store.{IsReady, StoredBlock, store_block-StoredBlock}
use crypt_bank.Chain.{Chain, get_last_block, get_last_block_hash}
use crypt_bank.Chain.Handle.{extend_chain, handle_block, new_chain, construct_genesis_block}
use crypt_bank.Chain.Extend.{Holds, Holds-stored, record-IsBlockRecord}

-- The environment and the disk let the writer store `b`: every append opens, both texts of the
-- block fit a file, and the file numbers have room.
pub record Storable (env : Env) (w : ChainWriter) (fs : FileSystem) (b : Block) : Type 0 where
  pub may : (p : Bytes) → env.may_append p ≡ true
  pub ready : IsReady w fs
  pub block_number : w.current_block_file_number + 1 < 2 ^ 16
  pub undo_number : w.current_undo_file_number + 1 < 2 ^ 16
  pub block_small : length (serialize_block env.proto b) + 1 < 1000
  pub undo_text : Bytes
  pub undo_made : serialize_undo_block env.proto (make_undo_block env b) ≡ some undo_text
  pub undo_small : length undo_text + 1 ≤ 1000

pub Storable-stored :
    (env : Env) (w : ChainWriter) (fs : FileSystem) (b : Block) (height : ℕ)
    (h : Storable env w fs b)
    → StoredBlock env b height h.undo_text w fs (Writer.store_block env w fs b height)
Storable-stored env w fs b height h =
    store_block-StoredBlock env h.may w fs b height h.undo_text h.ready h.block_number h.undo_number
      h.block_small h.undo_made h.undo_small

-- The state after `b` came to stand at `height` as the last block.
pub record IsLast (env : Env) (b : Block) (height : ℕ) (coins : CoinDatabase) (c : Chain)
    : Type 0 where
  pub length_is : c.active_chain_length ≡ height
  pub last_is : get_last_block env c ≡ some b
  pub coins_are : c.coin_database ≡ coins
  pub holds : Holds env c (block_hash env b) b height
  pub ready : IsReady c.chain_writer c.file_system

last_block :
    (env : Env) (c : Chain) (b : Block)
    → IsBlock b
    → c.active_chain_last_block ≡ b
    → get_last_block env c ≡ some b
unfolding get_last_block
last_block env c b h e = rw e (deserialize_block-serialize_block env.proto b h)

module _ (env : Env) (b : Block) (height : ℕ) (coins : CoinDatabase) (w : ChainWriter)
    (fs : FileSystem) (info : BlockInfoDatabase) (in_range : IsBlock b)
    (height_range : IsU32 height) (storable : Storable env w fs b) where
  abbrev pub stored :
      StoredBlock env b height storable.undo_text w fs (Writer.store_block env w fs b height)
  stored = Storable-stored env w fs b height storable

  abbrev pub new_record : BlockRecord
  new_record =
      new_block_record b.block_header (length b.transactions % 2 ^ 32) height stored.info
        stored.undo_info

  -- The chain with the block's record under its hash.
  abbrev pub with_block : Chain
  with_block = record {
    active_chain_length = height;
    active_chain_last_block = b;
    block_info_database = store_block_record env.proto info (block_hash env b) new_record;
    chain_writer = stored.writer;
    coin_database = coins;
    file_system = stored.file_system;
  }

  with_block-IsLast : IsLast env b height coins with_block
  with_block-IsLast = record {
    length_is = refl;
    last_is = last_block env with_block b in_range refl;
    coins_are = refl;
    holds =
        Holds-stored env with_block (block_hash env b) b height storable.undo_text w fs _ stored
          in_range
          (record_at-store_block_record_self env.proto info (block_hash env b) new_record (
            record-IsBlockRecord env b height storable.undo_text w fs _ stored in_range
              height_range))
          refl;
    ready = stored.ready;
  }

extend_chain-IsLast :
    (env : Env) (c : Chain) (b : Block) (coins : CoinDatabase)
    → IsBlock b
    → Storable env c.chain_writer c.file_system b
    → Coins.store_block env c.coin_database (get_transactions b) ≡ some coins
    → (c' : Chain) × (extend_chain env c b (block_hash env b) ≡ some c')
      × IsLast env b ((c.active_chain_length + 1) % 2 ^ 32) coins c'
unfolding extend_chain
extend_chain-IsLast env c b coins h storable e =
    let height = (c.active_chain_length + 1) % 2 ^ 32 in
    let stored = Storable-stored env c.chain_writer c.file_system b height storable in
    (
      with_block env b height coins c.chain_writer c.file_system c.block_info_database h
          (omega arith) storable,
      rw e (rw stored.returned),
      with_block-IsLast env b height coins c.chain_writer c.file_system c.block_info_database h
          (omega arith) storable,
    )

pub last_hash :
    (env : Env) (c : Chain) (last : Block)
    → IsBlock last
    → c.active_chain_last_block ≡ last
    → get_last_block_hash env c ≡ some (block_hash env last)
unfolding get_last_block_hash
last_hash env c last h e = rw (last_block env c last h e)

pub handle_block-extend_chain :
    (env : Env) (c : Chain) (b last : Block) (validated : CoinDatabase) (c' : Chain)
    → Coins.validate_block env c.coin_database (get_transactions b) ≡ some (true, validated)
    → get_last_block_hash env (record c { coin_database = validated }) ≡ some (block_hash env last)
    → b.block_header.previous_block_hash ≡ block_hash env last
    → extend_chain env (record c { coin_database = validated }) b (block_hash env b) ≡ some c'
    → handle_block env c b ≡ some c'
unfolding handle_block
handle_block-extend_chain env c b last validated c' valid known parent extended = rw valid (
    rw known (
      rw ((nat_beq_iff b.block_header.previous_block_hash (block_hash env last)).1 parent)
        extended))

-- A valid block in range whose parent is the last block, and whose coins and texts can be stored,
-- becomes the last block: the chain is one longer, the coin database is the one that storing its
-- transactions gives, `get_last_block` returns the block, and under its hash are its height, its
-- parent and the block itself, read back from the file. The writer is ready for the next block.
pub handle_block-active :
    (env : Env) (c : Chain) (b last : Block) (validated coins : CoinDatabase)
    → IsBlock b
    → IsBlock last
    → c.active_chain_last_block ≡ last
    → b.block_header.previous_block_hash ≡ block_hash env last
    → Coins.validate_block env c.coin_database (get_transactions b) ≡ some (true, validated)
    → Coins.store_block env validated (get_transactions b) ≡ some coins
    → Storable env c.chain_writer c.file_system b
    → (c' : Chain) × (handle_block env c b ≡ some c')
      × IsLast env b ((c.active_chain_length + 1) % 2 ^ 32) coins c'
handle_block-active env c b last validated coins h hl last_is parent valid stored storable =
    let c1 : Chain = record c { coin_database = validated } in
    let (c', extended, is_last) = extend_chain-IsLast env c1 b coins h storable stored in
    (
      c',
      handle_block-extend_chain env c b last validated c' valid (last_hash env c1 last hl last_is)
          parent extended,
      is_last,
    )

pub genesis-IsBlock : IsBlock construct_genesis_block
unfolding construct_genesis_block new_transaction
genesis-IsBlock = omega arith

genesis-store_block :
    (env : Env)
    → (coins : CoinDatabase) × (Coins.store_block env Coins.empty
          (get_transactions construct_genesis_block)
        ≡ some coins)
unfolding Coins.store_block get_transactions construct_genesis_block new_transaction
genesis-store_block env = (_, refl)

-- Where the disk lets the writer store the genesis block, the constructor succeeds: the chain has
-- length 1, the genesis block is the last block, and it is found under its hash.
pub new_chain-IsLast :
    (env : Env) (fs : FileSystem)
    → Storable env Writer.new_writer fs construct_genesis_block
    → (coins : CoinDatabase) × (c : Chain) × (new_chain env fs ≡ some c)
      × IsLast env construct_genesis_block 1 coins c
unfolding new_chain
new_chain-IsLast env fs storable =
    let (coins, e) = genesis-store_block env in
    let stored = Storable-stored env Writer.new_writer fs construct_genesis_block 1 storable in
    (
      coins,
      with_block env construct_genesis_block 1 coins Writer.new_writer fs BlockInfo.empty
          genesis-IsBlock (omega arith) storable,
      rw stored.returned (rw e),
      with_block-IsLast env construct_genesis_block 1 coins Writer.new_writer fs BlockInfo.empty
          genesis-IsBlock (omega arith) storable,
    )
