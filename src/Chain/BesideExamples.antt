-- ===== src/Chain/BesideExamples.antt =====
-- Concrete runs of what leaves the active chain: a block that is rejected, a block on a fork and a
-- transaction, on the chain of the genesis block.
use crypt_bank.Prelude.{
  ◌≡◌, refl, sym, false, not, ◌&&◌, some, [], ◌∷◌, arith, nat_beq, if◌then◌else◌, length, nat_eq,
  bytes_eq,
}
use crypt_bank.Prelude.Map.{find, insert}
use crypt_bank.Proto.Instance.{word_proto}
use crypt_bank.Crypto
use crypt_bank.Crypto.Constants.{constants}
use crypt_bank.Primitives.{
  Block, new_transaction, get_transactions, serialize_block, serialize_transaction, header_message,
  transaction_message, input_message, output_message, block_message,
}
use crypt_bank.Records.{
  BlockRecord, deserialize_block_record, serialize_undo_block, rows, coin_message,
}
use crypt_bank.Primitives.InRange.{IsBlock}
use crypt_bank.Env.{block_hash, transaction_hash}
use crypt_bank.BlockInfo
use crypt_bank.BlockInfo.{store_block_record}
use crypt_bank.BlockInfo.Lookup.{
  record_at, get_block_record-record_at, record_at-store_block_record_ne,
}
use crypt_bank.Db.Laws.{value_at}
use crypt_bank.Coins
use crypt_bank.Coins.Validate.{covers, covers_block}
use crypt_bank.Coins.Represents.{with_coin}
use crypt_bank.Coins.Apply.{spend_all, add_all, apply_block}
use crypt_bank.Writer
use crypt_bank.Writer.{FileSystem, make_undo_block, make_undo_records}
use crypt_bank.Examples.{test_header, test_transaction, test_env, test_block}
use crypt_bank.Chain.{Chain, look_up}
use crypt_bank.Chain.Handle.{new_chain, construct_genesis_block, handle_block, handle_transaction}
use crypt_bank.Chain.History.{IsFresh, IsHistory}
use crypt_bank.Chain.Side.{height_above}
use crypt_bank.Chain.Aside.{Fits}
use crypt_bank.Chain.Beside.{
  Found, handle_block-rejected, handle_block-forked, handle_transaction-IsHistory,
}
use crypt_bank.Chain.Genesis.{genesis_coins}
use crypt_bank.Chain.Examples.{genesis_hash}
use crypt_bank.Chain.HistoryExamples.{first_chain, first-IsHistory, first_numbers}

-- A block on the genesis block that spends a coin which there is not.
abbrev poor_block : Block
poor_block = record test_block {
  transactions =
      record test_transaction {
        transaction_inputs =
            record { reference_transaction_hash = 8; utxo_index = 0; signature = 7 } ∷ [];
      }
      ∷ [];
}

not_covered : covers_block (genesis_coins test_env) (get_transactions poor_block) ≡ false
unfolding covers_block covers get_transactions construct_genesis_block apply_block spend_all add_all
    with_coin transaction_hash Crypto.hash serialize_transaction new_transaction transaction_message
    input_message output_message word_proto constants
not_covered = refl

handle_block-rejected_example :
    (c : Chain) × (handle_block test_env first_chain poor_block ≡ some c)
    × IsHistory test_env c construct_genesis_block [] (genesis_coins test_env)
handle_block-rejected_example =
    handle_block-rejected test_env first_chain poor_block construct_genesis_block []
      (genesis_coins test_env) first-IsHistory (sym genesis_hash) not_covered

-- A block whose parent is unknown.
abbrev fork_block : Block
fork_block = record test_block { block_header = record test_header { previous_block_hash = 77 } }

fork-IsBlock : IsBlock fork_block
fork-IsBlock = omega arith

fork-IsFresh : IsFresh test_env (block_hash test_env fork_block) (construct_genesis_block ∷ [])
unfolding block_hash Crypto.hash serialize_block construct_genesis_block new_transaction
    block_message header_message transaction_message input_message output_message word_proto
    constants
fork-IsFresh = ((λ e. absurd (omega arith)), tt)

fork_small : length (serialize_block test_env.proto fork_block) ≡ 21
unfolding serialize_block block_message header_message transaction_message input_message
    output_message word_proto
fork_small = refl

-- The records of the first chain are the one of the genesis block.
first_records :
    (r : BlockRecord) × (first_chain.block_info_database
      ≡ store_block_record word_proto BlockInfo.empty
          (block_hash test_env construct_genesis_block)
          r)
unfolding new_chain Writer.store_block serialize_undo_block make_undo_block construct_genesis_block
    rows new_transaction Writer.write_block Writer.append_file Writer.write_undo_block
    Coins.store_block get_transactions serialize_block word_proto coin_message
first_records = (_, refl)

no_record : (record_at word_proto BlockInfo.empty 77).height ≡ 0
unfolding record_at deserialize_block_record word_proto value_at find
no_record = refl

fork_height : height_above test_env first_chain fork_block ≡ 1
unfolding look_up
fork_height =
    rw
      (
        get_block_record-record_at word_proto first_chain.block_info_database 77,
        first_records.1,
        record_at-store_block_record_ne word_proto BlockInfo.empty
            (block_hash test_env construct_genesis_block) 77 first_records.0
            (λ e. absurd (omega (arith, e, genesis_hash))),
        no_record,
      )
      refl

fork-Fits : Fits test_env first_chain fork_block
fork-Fits = record {
  may = λ p. refl;
  number = omega (arith, first_numbers.0);
  small = omega (arith, fork_small);
}

handle_block-forked_example :
    (c : Chain) × (handle_block test_env first_chain fork_block ≡ some c)
    × IsHistory test_env c construct_genesis_block [] (genesis_coins test_env)
    × Found test_env c fork_block
handle_block-forked_example =
    handle_block-forked test_env first_chain fork_block construct_genesis_block []
      (genesis_coins test_env) first-IsHistory fork-IsBlock
      (λ e. absurd (omega (arith, e, genesis_hash))) fork-IsFresh fork-Fits
      (omega (arith, fork_height, first-IsHistory.length_is))

handle_transaction-IsHistory_example :
    (c : Chain) × (handle_transaction test_env first_chain test_transaction ≡ some c)
    × IsHistory test_env c construct_genesis_block [] (genesis_coins test_env)
    × (c.coin_database.mempool_cache ≡ (
        if covers (genesis_coins test_env) test_transaction.transaction_inputs
          && not (nat_beq 70 first_chain.coin_database.mempool_size)
        then insert
            (transaction_hash test_env (
              new_transaction test_transaction.transaction_inputs
                test_transaction.transaction_outputs))
            (new_transaction test_transaction.transaction_inputs
              test_transaction.transaction_outputs)
            first_chain.coin_database.mempool_cache
        else first_chain.coin_database.mempool_cache))
handle_transaction-IsHistory_example =
    handle_transaction-IsHistory test_env first_chain test_transaction construct_genesis_block []
      (genesis_coins test_env) first-IsHistory
