-- ===== src/Chain/ForkExamples.antt =====
-- A fork of three blocks that overtakes a chain of two: what `take_over` does with it.
use crypt_bank.Prelude.{
  ℕ, ◌≡◌, refl, true, Option, none, some, [], ◌∷◌, ◌++◌, length, Bytes, bytes_beq, bytes_eq,
}
use crypt_bank.Prelude.Map.{find, contains, assign, insert}
use crypt_bank.Text.{to_string}
use crypt_bank.Proto.Instance.{word_proto}
use crypt_bank.Primitives.{
  get_transactions, Block, serialize_block, deserialize_block, new_transaction, header_message,
  transaction_message, input_message, output_message, block_message,
}
use crypt_bank.Crypto
use crypt_bank.Crypto.Constants.{constants}
use crypt_bank.Env.{block_hash, transaction_hash}
use crypt_bank.Records.{
  BlockRecord, FileInfo, UndoBlock, serialize_undo_block, deserialize_undo_block,
  serialize_block_record, deserialize_block_record, new_block_record, rows, coin_message,
}
use crypt_bank.BlockInfo
use crypt_bank.BlockInfo.{BlockInfoDatabase, store_block_record, get_block_record}
use crypt_bank.Coins
use crypt_bank.Db
use crypt_bank.Writer
use crypt_bank.Writer.{block_path, undo_path}
use crypt_bank.Examples.{test_env, test_block, test_header}
use crypt_bank.Chain.{
  Chain, get_active_chain_hashes, get_last_block, get_last_block_hash, look_up, hashes_loop,
  get_block,
}
use crypt_bank.Chain.Meeting.{MeetAt, take_over-coins}
use crypt_bank.Coins.Undo.{undo_coins}
use crypt_bank.Locator.{serialize_from_construct}
use crypt_bank.Chain.Reorg.{
  store_fetched, get_undo_blocks_queue, undo_blocks_loop, get_forked_blocks_stack, take_over,
  forked_hashes, stack_blocks, mismatch,
}
use crypt_bank.Chain.Handle.{construct_genesis_block}

-- Its parent is the genesis block, and its record names the undo file.
abbrev last_undo : UndoBlock
last_undo = record {
  transaction_hashes = 4282 ∷ [];
  undo_coin_records =
      record { version = 1; utxo = 0 ∷ []; amounts = 100 ∷ []; public_keys = 5 ∷ [] } ∷ [];
}

abbrev genesis_text : Bytes
genesis_text = serialize_block word_proto construct_genesis_block

abbrev undo_text : Bytes
undo_text = Writer.content (serialize_undo_block word_proto last_undo)

abbrev no_file : FileInfo
no_file = record { file_name = []; start = 0; end = 0 }

abbrev fork_record : ℕ → ℕ → BlockRecord
fork_record parent height =
    new_block_record (record test_header { previous_block_hash = parent }) 1 height no_file no_file

-- The records: the genesis block, the last block, and the fork 5, 6.
abbrev records : ℕ → BlockInfoDatabase
records last =
    store_block_record word_proto
      (store_block_record word_proto
        (store_block_record word_proto
          (store_block_record word_proto BlockInfo.empty 4077 (
            new_block_record (record test_header { previous_block_hash = 0 }) 1 1
              (record { file_name = block_path 0; start = 0; end = 23 }) no_file))
          last
          (new_block_record test_header 1 2 no_file
            (record { file_name = undo_path 0; start = 0; end = 14 })))
        5 (fork_record 4077 2))
      6 (fork_record 5 3)

abbrev forked_chain : ℕ → Chain
forked_chain last = record {
  active_chain_length = 2;
  active_chain_last_block = test_block;
  block_info_database = records last;
  chain_writer = Writer.new_writer;
  coin_database = Coins.empty;
  file_system = record {
    has_directory = true;
    files = (block_path 0, genesis_text ++ (0 ∷ [])) ∷ (undo_path 0, undo_text ++ (0 ∷ [])) ∷ [];
  };
}

last_hash_is : block_hash test_env test_block ≡ 3134
unfolding block_hash Crypto.hash serialize_block block_message header_message transaction_message
    input_message output_message word_proto constants
last_hash_is = refl

sizes : (length genesis_text ≡ 22) × (length undo_text ≡ 13)
unfolding serialize_block construct_genesis_block new_transaction block_message header_message
    transaction_message input_message output_message word_proto serialize_undo_block rows
    coin_message
sizes = (refl, refl)

abbrev chain_or : Option Chain → Chain
chain_or none = forked_chain 0
chain_or (some c) = c

take_over_is :
    take_over test_env (forked_chain 3134) test_block 6
    ≡ some (chain_or (take_over test_env (forked_chain 3134) test_block 6))
unfolding get_forked_blocks_stack get_active_chain_hashes get_last_block_hash get_last_block
    hashes_loop look_up forked_hashes stack_blocks mismatch get_block get_block_record
    store_block_record find insert assign to_string bytes_beq new_block_record Writer.read_block
    Writer.block_path Writer.undo_path block_hash Crypto.hash serialize_block deserialize_block
    block_message header_message transaction_message input_message output_message word_proto
    constants construct_genesis_block new_transaction Db.get_safely Db.put_safely
    deserialize_block_record serialize_block_record take_over get_undo_blocks_queue undo_blocks_loop
    deserialize_undo_block serialize_undo_block rows coin_message undo_coins store_fetched
    Coins.store_block get_transactions serialize_from_construct transaction_hash contains
    Writer.read_undo_block
take_over_is = refl

abbrev taken_over : Chain
taken_over = chain_or (take_over test_env (forked_chain 3134) test_block 6)

take_over-coins_example :
    (ancestor : ℕ) × (a : Block) × (d : Chain) × (taken_over.active_chain_length ≡ 3)
    × (taken_over.active_chain_last_block ≡ test_block)
    × MeetAt test_env (forked_chain 3134) 6 ancestor
    × (get_block test_env (forked_chain 3134) ancestor ≡ some (some a, d))
    × (Coins.store_block test_env Coins.empty (get_transactions a) ≡ some taken_over.coin_database)
take_over-coins_example =
    take_over-coins test_env (forked_chain 3134) taken_over test_block 6 take_over_is
