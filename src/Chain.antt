-- ===== src/Chain.antt =====
-- core/src/chain/chain.cpp, class `Chain`. A method returns its result and the new state; `none` is
-- a fault. Heights stay below 2 ^ 31, so that the `int` loop counters do not wrap.
pub mod Reorg
pub mod Handle
pub mod Extend
pub mod Active
pub mod Queries
pub mod Fork
pub mod Hashes
pub mod Side
pub mod History
pub mod Grow
pub mod Meeting
pub mod Slice
pub mod Walk
pub mod Ancestor
pub mod Undone
pub mod Recorded
pub mod Aside
pub mod Longer
pub mod Overtake
pub mod Overtaken
pub mod NoUndo
pub mod Ranges
pub mod Beside
pub mod Genesis
pub mod Grown
pub mod Undisturbed
pub mod Unwritable
pub mod Examples
pub mod ForkExamples
pub mod HistoryExamples
pub mod BesideExamples
pub mod RivalExamples
pub mod OvertakeExamples
pub mod NoUndoExamples
pub mod UnwritableExamples
use crypt_bank.Prelude.{
  ℕ, zero, suc, true, false, Option, some, List, [], ◌∷◌, ltb, leb, nat_beq, if◌then◌else◌, ◌>>=◌,
}
use crypt_bank.Primitives.{
  TransactionOutput, Transaction, BlockHeader, Block, new_transaction, get_transactions,
  serialize_block, deserialize_block, serialize_header, deserialize_header,
}
use crypt_bank.Records.{
  UndoBlock, FileInfo, BlockRecord, new_file_info, new_block_record, deserialize_undo_block,
}
use crypt_bank.Env.{Env, block_hash}
use crypt_bank.BlockInfo
use crypt_bank.BlockInfo.{BlockInfoDatabase, store_block_record, get_block_record}
use crypt_bank.Coins
use crypt_bank.Coins.{CoinDatabase, validate_block, validate_and_store_transaction}
use crypt_bank.Coins.Undo.{undo_coins}
use crypt_bank.Writer
use crypt_bank.Writer.{
  ChainWriter, FileSystem, new_writer, write_block, read_block, read_undo_block,
}

-- The fields of `Chain`, and the file system beside them.
pub record Chain : Type 0 where
  pub active_chain_length : ℕ
  pub active_chain_last_block : Block
  pub block_info_database : BlockInfoDatabase
  pub chain_writer : ChainWriter
  pub coin_database : CoinDatabase
  pub file_system : FileSystem

-- The file of a block, as its record says.
abbrev pub block_location : BlockRecord → FileInfo
block_location r = new_file_info r.block_file_stored r.block_offset_start r.block_offset_end

abbrev pub undo_location : BlockRecord → FileInfo
undo_location r = new_file_info r.undo_file_stored r.undo_offset_start r.undo_offset_end

abbrev pub get_active_chain_length : Chain → ℕ
get_active_chain_length c = c.active_chain_length

module _ (env : Env) where
  -- `_block_info_database->get_block_record(hash)`
  unfoldable pub look_up : Chain → ℕ → BlockRecord × Chain
  look_up c hash =
      let (r, b) = get_block_record env.proto c.block_info_database hash in
      (r, record c { block_info_database = b })

  unfoldable pub get_last_block : Chain → Option Block
  get_last_block c =
      deserialize_block env.proto (serialize_block env.proto c.active_chain_last_block)

  -- A null last block is dereferenced.
  unfoldable pub get_last_block_hash : Chain → Option ℕ
  get_last_block_hash c = do b ← get_last_block c; some (block_hash env b)

  unfoldable pub get_chain_length : Chain → ℕ → ℕ × Chain
  get_chain_length c hash = let (r, c') = look_up c hash in (r.height, c')

  -- The inner option is the pointer.
  unfoldable pub get_block : Chain → ℕ → Option (Option Block × Chain)
  get_block c hash =
      let (r, c') = look_up c hash in
      do s ← read_block c'.file_system (block_location r); some (deserialize_block env.proto s, c')

  -- The loops of `get_active_chain_hashes` and `get_active_chain` from height `i` down.
  unfoldable pub hashes_loop : ℕ → ℕ → ℕ → ℕ → List ℕ → Chain → List ℕ × Chain
  hashes_loop zero start end prev result c = (result, c)
  hashes_loop (suc i) start end prev result c =
      let result' = if leb (suc i) end then prev ∷ result else result in
      let (r, c') = look_up c prev in
      let rest = hashes_loop i start end r.block_header.previous_block_hash result' c' in
      if ltb (suc i) start then (result, c) else rest

  unfoldable pub get_active_chain_hashes : Chain → ℕ → ℕ → Option (List ℕ × Chain)
  get_active_chain_hashes c start end = if ltb end start then some ([], c) else do
    prev ← get_last_block_hash c
    some (
        hashes_loop c.active_chain_length (if nat_beq start 0 then 1 else start)
          (if ltb c.active_chain_length end then c.active_chain_length else end) prev [] c)

  unfoldable pub blocks_loop :
      ℕ → ℕ → ℕ → ℕ → List (Option Block) → Chain → Option (List (Option Block) × Chain)
  blocks_loop zero start end prev result c = some (result, c)
  blocks_loop (suc i) start end prev result c = elim (ltb (suc i) start) [
    | true ↦ some (result, c)
    | false ↦ do
      (result', c') ←
          (if leb (suc i) end
            then (do (b, c'') ← get_block c prev; some (b ∷ result, c''))
            else some (result, c))
      let (r, c'') = look_up c' prev
      blocks_loop i start end r.block_header.previous_block_hash result' c''
  ]

  unfoldable pub get_active_chain : Chain → ℕ → ℕ → Option (List (Option Block) × Chain)
  get_active_chain c start end = if ltb end start then some ([], c) else do
    prev ← get_last_block_hash c
    blocks_loop c.active_chain_length (if nat_beq start 0 then 1 else start)
        (if ltb c.active_chain_length end then c.active_chain_length else end) prev [] c
