-- ===== src/Chain/Examples.antt =====
-- Concrete runs of `Chain`: the constructor on an empty disk, and a block on a chain of the genesis
-- block.
use crypt_bank.Prelude.{
  ◌≡◌, refl, sym, true, false, Option, none, some, [], ◌∷◌, arith, length, Bytes, bytes_beq,
  bytes_eq,
}
use crypt_bank.Prelude.Map.{find, contains, insert, erase}
use crypt_bank.Text.{to_string}
use crypt_bank.Proto.Instance.{word_proto}
use crypt_bank.Primitives.{
  Block, Transaction, new_transaction, get_transactions, serialize_block, deserialize_block,
  serialize_transaction, header_message, transaction_message, input_message, output_message,
  block_message,
}
use crypt_bank.Records.{serialize_undo_block, rows, coin_message}
use crypt_bank.Locator.{serialize_from_construct}
use crypt_bank.Primitives.InRange.{IsBlock}
use crypt_bank.Crypto
use crypt_bank.Crypto.Constants.{constants}
use crypt_bank.Env.{block_hash, transaction_hash}
use crypt_bank.BlockInfo
use crypt_bank.Coins
use crypt_bank.Coins.{CoinDatabase}
use crypt_bank.Writer
use crypt_bank.Writer.{FileSystem, make_undo_block, make_undo_records}
use crypt_bank.Writer.Store.{IsReady, StoredBlock, store_block-StoredBlock}
use crypt_bank.Examples.{test_header, test_env, test_block, test_in_range}
use crypt_bank.Db
use crypt_bank.Records.{deserialize_block_record}
use crypt_bank.BlockInfo.{get_block_record}
use crypt_bank.Chain.Side.{IsSide, height_above, handle_block-IsSide}
use crypt_bank.Chain.{Chain, get_last_block_hash, get_last_block, look_up}
use crypt_bank.Chain.Handle.{construct_genesis_block, handle_block}
use crypt_bank.Chain.Active.{Storable, IsLast, handle_block-active}

abbrev pub empty_disk : FileSystem
empty_disk = record { has_directory = false; files = [] }

empty_disk-IsReady : IsReady Writer.new_writer empty_disk
unfolding find
empty_disk-IsReady = record {
  block = record { at_end = refl; later = λ n lt. refl };
  undo = record { at_end = refl; later = λ n lt. refl };
  block_offset = omega arith;
  undo_offset = omega arith;
}

genesis_small : length (serialize_block test_env.proto construct_genesis_block) ≡ 22
unfolding serialize_block construct_genesis_block new_transaction block_message header_message
    transaction_message input_message output_message word_proto
genesis_small = refl

abbrev pub undo_text_of : Block → Bytes
undo_text_of b = Writer.content (serialize_undo_block test_env.proto (make_undo_block test_env b))

genesis_undo_made :
    serialize_undo_block test_env.proto (make_undo_block test_env construct_genesis_block)
    ≡ some (undo_text_of construct_genesis_block)
unfolding serialize_undo_block make_undo_block construct_genesis_block new_transaction rows
genesis_undo_made = refl

genesis_undo_small : length (undo_text_of construct_genesis_block) ≡ 10
unfolding serialize_undo_block make_undo_block construct_genesis_block new_transaction rows
    coin_message word_proto
genesis_undo_small = refl

pub genesis-Storable : Storable test_env Writer.new_writer empty_disk construct_genesis_block
genesis-Storable = record {
  may = λ p. refl;
  ready = empty_disk-IsReady;
  block_number = omega arith;
  undo_number = omega arith;
  block_small = omega (arith, genesis_small);
  undo_text = undo_text_of construct_genesis_block;
  undo_made = genesis_undo_made;
  undo_small = omega (arith, genesis_undo_small);
}

-- The first output of the genesis block's transaction.
abbrev genesis_transaction : Transaction
genesis_transaction = new_transaction [] (
    record { amount = 100; public_key = 12345 }
    ∷ record { amount = 200; public_key = 67891 }
    ∷ record { amount = 300; public_key = 23456 }
    ∷ [])

abbrev coin_key : Bytes
coin_key = serialize_from_construct 4282 0

abbrev pub test_coins : CoinDatabase
test_coins = record Coins.empty {
  main_cache =
      (
        coin_key,
        record {
          transaction_output = record { amount = 100; public_key = 12345 };
          is_spent = false;
        },
      )
      ∷ [];
  main_cache_size = 1;
}

abbrev pub test_chain : Chain
test_chain = record {
  active_chain_length = 1;
  active_chain_last_block = construct_genesis_block;
  block_info_database = BlockInfo.empty;
  chain_writer = Writer.new_writer;
  coin_database = test_coins;
  file_system = empty_disk;
}

pub genesis_hash : block_hash test_env construct_genesis_block ≡ 4077
unfolding block_hash Crypto.hash serialize_block construct_genesis_block new_transaction
    block_message header_message transaction_message input_message output_message word_proto
    constants
genesis_hash = refl

transaction_hash_is : transaction_hash test_env genesis_transaction ≡ 4282
unfolding transaction_hash Crypto.hash serialize_transaction new_transaction transaction_message
    input_message output_message word_proto constants
transaction_hash_is = refl

test_valid :
    Coins.validate_block test_env test_coins (get_transactions test_block) ≡ some (true, test_coins)
unfolding Coins.validate_block get_transactions new_transaction serialize_from_construct find
    to_string bytes_beq
test_valid = refl

abbrev coins_or : Option CoinDatabase → CoinDatabase
coins_or none = Coins.empty
coins_or (some c) = c

test_stored :
    Coins.store_block test_env test_coins (get_transactions test_block)
    ≡ some (coins_or (Coins.store_block test_env test_coins (get_transactions test_block)))
unfolding Coins.store_block get_transactions new_transaction serialize_from_construct to_string
    bytes_beq contains insert erase
test_stored = refl

pub test_small : length (serialize_block test_env.proto test_block) ≡ 21
unfolding serialize_block block_message header_message transaction_message input_message
    output_message word_proto
test_small = refl

pub test_undo_made :
    serialize_undo_block test_env.proto (make_undo_block test_env test_block)
    ≡ some (undo_text_of test_block)
unfolding serialize_undo_block make_undo_block rows
test_undo_made = refl

pub test_undo_small : length (undo_text_of test_block) ≡ 13
unfolding serialize_undo_block make_undo_block rows coin_message word_proto
test_undo_small = refl

pub test-Storable : Storable test_env Writer.new_writer empty_disk test_block
test-Storable = record {
  may = λ p. refl;
  ready = empty_disk-IsReady;
  block_number = omega arith;
  undo_number = omega arith;
  block_small = omega (arith, test_small);
  undo_text = undo_text_of test_block;
  undo_made = test_undo_made;
  undo_small = omega (arith, test_undo_small);
}

genesis_in_range : IsBlock construct_genesis_block
unfolding construct_genesis_block new_transaction
genesis_in_range = omega arith

handle_block-active_example :
    (c' : Chain) × (handle_block test_env test_chain test_block ≡ some c')
    × IsLast test_env test_block 2
        (coins_or (Coins.store_block test_env test_coins (get_transactions test_block)))
        c'
handle_block-active_example =
    handle_block-active test_env test_chain test_block construct_genesis_block test_coins
      (coins_or (Coins.store_block test_env test_coins (get_transactions test_block))) test_in_range
      genesis_in_range refl (sym genesis_hash) test_valid test_stored test-Storable

store_block-StoredBlock_example :
    StoredBlock test_env test_block 2
      (undo_text_of test_block)
      Writer.new_writer
      empty_disk
      (Writer.store_block test_env Writer.new_writer empty_disk test_block 2)
store_block-StoredBlock_example =
    store_block-StoredBlock test_env (λ p. refl) Writer.new_writer empty_disk test_block 2
      (undo_text_of test_block) empty_disk-IsReady (omega arith) (omega arith)
      (omega (arith, test_small)) test_undo_made (omega (arith, test_undo_small))

-- A block whose parent is unknown.
abbrev side_block : Block
side_block = record test_block { block_header = record test_header { previous_block_hash = 77 } }

side_valid :
    Coins.validate_block test_env test_coins (get_transactions side_block) ≡ some (true, test_coins)
unfolding Coins.validate_block get_transactions new_transaction serialize_from_construct find
    to_string bytes_beq
side_valid = refl

known_last : get_last_block_hash test_env test_chain ≡ some 4077
unfolding get_last_block_hash get_last_block block_hash Crypto.hash serialize_block
    deserialize_block construct_genesis_block new_transaction block_message header_message
    transaction_message input_message output_message word_proto constants
known_last = refl

side_small : length (serialize_block test_env.proto side_block) ≡ 21
unfolding serialize_block block_message header_message transaction_message input_message
    output_message word_proto
side_small = refl

side_height : height_above test_env test_chain side_block ≡ 1
unfolding look_up get_block_record find deserialize_block_record word_proto Db.get_safely
side_height = refl

handle_block-IsSide_example :
    (c' : Chain) × (handle_block test_env test_chain side_block ≡ some c')
    × IsSide test_env test_chain side_block (height_above test_env test_chain side_block) c'
handle_block-IsSide_example =
    handle_block-IsSide test_env test_chain side_block true test_coins 4077 (omega arith) side_valid
      known_last (λ e. absurd (omega arith)) (λ p. refl) empty_disk-IsReady.block (omega arith)
      (omega arith) (omega (arith, side_small)) (omega (arith, side_height))
