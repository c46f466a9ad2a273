-- ===== src/Chain/UnwritableExamples.antt =====
-- A concrete run where no file can be opened: a block on the genesis block that else goes on top.
use crypt_bank.Prelude.{◌≡◌, inl, none, some, []}
use crypt_bank.Primitives.{serialize_block}
use crypt_bank.Writer.{write_block}
use crypt_bank.Examples.{test_env, test_block}
use crypt_bank.Chain.{Chain}
use crypt_bank.Chain.Handle.{construct_genesis_block, handle_block}
use crypt_bank.Chain.Genesis.{genesis_coins}
use crypt_bank.Chain.Unwritable.{closed, handle_block-unwritable}
use crypt_bank.Chain.HistoryExamples.{first_chain, first-IsHistory, first-IsNext}

handle_block-unwritable_example :
    (c : Chain) × (handle_block test_env first_chain test_block ≡ some c)
    × ((write_block
          (closed test_env)
          first_chain.chain_writer
          first_chain.file_system
          (serialize_block test_env.proto test_block)).0
        ≡ none)
    × (handle_block (closed test_env) first_chain test_block ≡ none)
handle_block-unwritable_example =
    handle_block-unwritable test_env first_chain test_block construct_genesis_block []
      (genesis_coins test_env) first-IsHistory (inl first-IsNext)
