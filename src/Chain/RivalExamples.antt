-- ===== src/Chain/RivalExamples.antt =====
-- The blocks of a concrete reorganisation: a block on the genesis block that spends its three coins, a
-- second block on the genesis block and a third on that one; and the chain with the first of them.
use crypt_bank.Prelude.{
  ℕ, ◌+◌, ◌%◌, ◌^◌, ◌≤◌, ◌≡◌, refl, sym, ◌≢◌, true, some, [], ◌∷◌, arith, length,
}
use crypt_bank.Proto.Instance.{word_proto}
use crypt_bank.Crypto
use crypt_bank.Crypto.Constants.{constants}
use crypt_bank.Primitives.{
  Block, TransactionInput, new_transaction, get_transactions, serialize_block,
  serialize_transaction, header_message, transaction_message, input_message, output_message,
  block_message,
}
use crypt_bank.Primitives.InRange.{IsBlock}
use crypt_bank.Records.{serialize_undo_block, rows, coin_message}
use crypt_bank.Env.{block_hash, transaction_hash}
use crypt_bank.Coins.{CoinDatabase}
use crypt_bank.Coins.Validate.{CoinSet, covers, covers_block}
use crypt_bank.Coins.Represents.{Represents, with_coin, without}
use crypt_bank.Coins.Apply.{CanApply, spend_all, add_all, apply_block}
use crypt_bank.Writer.{make_undo_block}
use crypt_bank.Examples.{test_env, test_header, test_transaction}
use crypt_bank.Chain.{Chain}
use crypt_bank.Chain.Handle.{construct_genesis_block, handle_block}
use crypt_bank.Chain.Active.{Storable, stored}
use crypt_bank.Chain.History.{IsFresh, IsHistory}
use crypt_bank.Chain.Undone.{Undoable}
use crypt_bank.Chain.Recorded.{grown_by-Undoable}
use crypt_bank.Chain.Grow.{grown_by, handle_block-grown_by, grown_by-IsHistory}
use crypt_bank.Chain.Genesis.{genesis_coins}
use crypt_bank.Chain.Examples.{genesis_hash, undo_text_of}
use crypt_bank.Chain.HistoryExamples.{first_chain, first-IsHistory, first_numbers}

abbrev spends : ℕ → TransactionInput
spends i = record { reference_transaction_hash = 4282; utxo_index = i; signature = 7 }

-- On the genesis block, and spends its coins.
abbrev pub spending_block : Block
spending_block = record {
  block_header = test_header;
  transactions =
      record test_transaction {
        transaction_inputs = spends 0 ∷ spends 1 ∷ spends 2 ∷ [];
        transaction_outputs =
            record { amount = 100; public_key = 5 }
            ∷ record { amount = 200; public_key = 6 }
            ∷ record { amount = 300; public_key = 7 }
            ∷ [];
      }
      ∷ [];
}

-- On the genesis block too.
abbrev pub rival_block : Block
rival_block = record {
  block_header = record test_header { nonce = 2 };
  transactions = test_transaction ∷ [];
}

-- On the rival, whose hash is 4240.
abbrev pub third_block : Block
third_block = record {
  block_header = record test_header { previous_block_hash = 4240 };
  transactions = test_transaction ∷ [];
}

pub rival_hash : block_hash test_env rival_block ≡ 4240
unfolding block_hash Crypto.hash serialize_block block_message header_message transaction_message
    input_message output_message word_proto constants
rival_hash = refl

pub spending_hash : block_hash test_env spending_block ≡ 3150
unfolding block_hash Crypto.hash serialize_block block_message header_message transaction_message
    input_message output_message word_proto constants
spending_hash = refl

pub third_hash :
    (block_hash test_env third_block ≢ 4240)
    × (block_hash test_env third_block ≢ 3150)
    × (block_hash test_env third_block ≢ 4077)
unfolding block_hash Crypto.hash serialize_block block_message header_message transaction_message
    input_message output_message word_proto constants
third_hash = ((λ e. absurd (omega arith)), (λ e. absurd (omega arith)), (λ e. absurd (omega arith)))

pub sizes :
    (length (serialize_block test_env.proto spending_block) ≡ 31)
    × (length (serialize_block test_env.proto rival_block) ≡ 21)
    × (length (serialize_block test_env.proto third_block) ≡ 21)
    × (length (undo_text_of spending_block) ≡ 19)
unfolding serialize_block block_message header_message transaction_message input_message
    output_message word_proto serialize_undo_block make_undo_block rows coin_message
sizes = (refl, refl, refl, refl)

spending_undo_made :
    serialize_undo_block test_env.proto (make_undo_block test_env spending_block)
    ≡ some (undo_text_of spending_block)
unfolding serialize_undo_block make_undo_block rows
spending_undo_made = refl

covered : covers_block (genesis_coins test_env) (get_transactions spending_block) ≡ true
unfolding covers_block covers get_transactions construct_genesis_block apply_block spend_all add_all
    with_coin transaction_hash Crypto.hash serialize_transaction new_transaction transaction_message
    input_message output_message word_proto constants
covered = refl

can : CanApply test_env (genesis_coins test_env) (get_transactions spending_block)
unfolding get_transactions construct_genesis_block apply_block spend_all add_all with_coin without
    transaction_hash Crypto.hash serialize_transaction new_transaction transaction_message
    input_message output_message word_proto constants
can = (
  (refl, (refl, (refl, tt))),
  (omega arith, refl, (omega arith, refl, (omega arith, refl, tt))),
  tt,
)

abbrev pub second_coins : CoinSet
second_coins = apply_block test_env (genesis_coins test_env) (get_transactions spending_block)

-- The coins of the genesis block are spent, so that they can be made once more.
pub can_again : CanApply test_env second_coins (get_transactions construct_genesis_block)
unfolding get_transactions construct_genesis_block apply_block spend_all add_all with_coin without
    transaction_hash Crypto.hash serialize_transaction new_transaction transaction_message
    input_message output_message word_proto constants
can_again = (tt, (omega arith, refl, (omega arith, refl, (omega arith, refl, tt))), tt)

pub spending_in_range : IsBlock spending_block
spending_in_range = omega arith

spending-IsFresh :
    IsFresh test_env (block_hash test_env spending_block) (construct_genesis_block ∷ [])
spending-IsFresh = ((λ e. absurd (omega (arith, e, spending_hash, genesis_hash))), tt)

pub spending-Storable :
    Storable test_env first_chain.chain_writer first_chain.file_system spending_block
spending-Storable = record {
  may = λ p. refl;
  ready = first-IsHistory.ready;
  block_number = omega (arith, first_numbers.0);
  undo_number = omega (arith, first_numbers.1);
  block_small = omega (arith, sizes.0);
  undo_text = undo_text_of spending_block;
  undo_made = spending_undo_made;
  undo_small = omega (arith, sizes.3);
}

genesis-Undoable : Undoable test_env first_chain (construct_genesis_block ∷ [])
genesis-Undoable = record {
  above = [];
  lowest = construct_genesis_block;
  active_is = refl;
  undos = [];
  undone = tt;
  named = tt;
}

-- The chain of the genesis block and the spending block.
pub second_coin_database :
    (cs : CoinDatabase) × (handle_block test_env first_chain spending_block
      ≡ some (grown_by test_env first_chain spending_block cs spending_in_range spending-Storable))
    × Represents test_env cs second_coins
second_coin_database =
    handle_block-grown_by test_env first_chain spending_block construct_genesis_block []
      (genesis_coins test_env) first-IsHistory spending_in_range (sym genesis_hash) covered can
      spending-Storable

abbrev pub second_chain : Chain
second_chain =
    grown_by test_env first_chain spending_block second_coin_database.0 spending_in_range
      spending-Storable

pub second-IsHistory :
    IsHistory test_env second_chain spending_block (construct_genesis_block ∷ []) second_coins
second-IsHistory =
    grown_by-IsHistory test_env first_chain spending_block construct_genesis_block []
      (genesis_coins test_env) second_coins second_coin_database.0 first-IsHistory spending_in_range
      (sym genesis_hash) spending-IsFresh spending-Storable (omega arith) second_coin_database.2

pub second-Undoable : Undoable test_env second_chain (spending_block ∷ construct_genesis_block ∷ [])
second-Undoable =
    grown_by-Undoable test_env first_chain spending_block second_coin_database.0
      (construct_genesis_block ∷ []) spending_in_range spending-Storable (omega arith)
      spending-IsFresh genesis-Undoable

pub second_number : second_chain.chain_writer.current_block_file_number ≤ 1
second_number =
    let st =
      stored test_env spending_block ((first_chain.active_chain_length + 1) % 2 ^ 32)
        second_coin_database.0 first_chain.chain_writer first_chain.file_system
        first_chain.block_info_database spending_in_range (omega arith) spending-Storable in
    omega (arith, st.block_number, first_numbers.0)
