-- ===== src/Chain/HistoryExamples.antt =====
-- Concrete runs of the theorems on the whole active chain: the genesis block, and a block on it that
-- spends one of its coins.
use crypt_bank.Prelude.{◌≡◌, refl, sym, ap, true, Option, none, some, [], ◌∷◌, arith, All}
use crypt_bank.Proto.Instance.{word_proto}
use crypt_bank.Crypto
use crypt_bank.Crypto.Constants.{constants}
use crypt_bank.Primitives.{
  new_transaction, get_transactions, serialize_block, serialize_transaction, header_message,
  transaction_message, input_message, output_message, block_message,
}
use crypt_bank.Records.{serialize_undo_block, rows, coin_message}
use crypt_bank.Env.{block_hash, transaction_hash}
use crypt_bank.Coins
use crypt_bank.Coins.Validate.{CoinSet, covers, covers_block}
use crypt_bank.Coins.Represents.{with_coin, without}
use crypt_bank.Coins.Apply.{CanApply, spend_all, add_all, apply_block}
use crypt_bank.Writer
use crypt_bank.Writer.{FileSystem, make_undo_block, make_undo_records}
use crypt_bank.Examples.{test_env, test_block, test_in_range}
use crypt_bank.Chain.{Chain, get_active_chain, get_active_chain_hashes}
use crypt_bank.Chain.Handle.{new_chain, construct_genesis_block, handle_block}
use crypt_bank.Chain.Active.{Storable}
use crypt_bank.Chain.History.{IsFresh, IsHistory, IsHistory-IsSpine}
use crypt_bank.Chain.Grow.{handle_block-IsHistory}
use crypt_bank.Chain.Slice.{slice}
use crypt_bank.Chain.Ranges.{get_active_chain-slice, get_active_chain_hashes-slice}
use crypt_bank.Chain.Beside.{Found}
use crypt_bank.Chain.Genesis.{genesis_coins, new_chain-IsHistory}
use crypt_bank.Chain.Grown.{
  IsNext, Grown, started, added, Grown-IsHistory, Grown-next, Grown-get_block,
}
use crypt_bank.Chain.Undone.{Undoable}
use crypt_bank.Chain.Undisturbed.{Undisturbed, Grown-Undoable}
use crypt_bank.Chain.Examples.{
  empty_disk, genesis-Storable, test_chain, genesis_hash, undo_text_of, test_small, test_undo_made,
  test_undo_small,
}

abbrev chain_or : Option Chain → Chain
chain_or none = test_chain
chain_or (some c) = c

-- The chain that the constructor makes on an empty disk.
abbrev pub first_chain : Chain
first_chain = chain_or (new_chain test_env empty_disk)

new_chain_is : (c : Chain) → new_chain test_env empty_disk ≡ some c → first_chain ≡ c
new_chain_is c e = ap chain_or e

first_made : new_chain test_env empty_disk ≡ some first_chain
first_made = let (c, e, h) = new_chain-IsHistory test_env empty_disk genesis-Storable in rw e refl

new_chain-IsHistory_example :
    (c : Chain) × (new_chain test_env empty_disk ≡ some c)
    × IsHistory test_env c construct_genesis_block [] (genesis_coins test_env)
new_chain-IsHistory_example = new_chain-IsHistory test_env empty_disk genesis-Storable

pub first-IsHistory :
    IsHistory test_env first_chain construct_genesis_block [] (genesis_coins test_env)
first-IsHistory = let (c, e, h) = new_chain-IsHistory test_env empty_disk genesis-Storable in rw e h

pub first_numbers :
    (first_chain.chain_writer.current_block_file_number ≡ 0)
    × (first_chain.chain_writer.current_undo_file_number ≡ 0)
unfolding new_chain Writer.store_block serialize_undo_block make_undo_block construct_genesis_block
    rows new_transaction Writer.write_block Writer.append_file Writer.write_undo_block
    Coins.store_block get_transactions serialize_block word_proto coin_message
first_numbers = (refl, refl)

covered : covers_block (genesis_coins test_env) (get_transactions test_block) ≡ true
unfolding covers_block covers get_transactions construct_genesis_block apply_block spend_all add_all
    with_coin transaction_hash Crypto.hash serialize_transaction new_transaction transaction_message
    input_message output_message word_proto constants
covered = refl

can : CanApply test_env (genesis_coins test_env) (get_transactions test_block)
unfolding get_transactions construct_genesis_block apply_block spend_all add_all with_coin without
    transaction_hash Crypto.hash serialize_transaction new_transaction transaction_message
    input_message output_message word_proto constants
can = ((refl, tt), (omega arith, refl, tt), tt)

test-IsFresh : IsFresh test_env (block_hash test_env test_block) (construct_genesis_block ∷ [])
unfolding block_hash Crypto.hash serialize_block construct_genesis_block new_transaction
    block_message header_message transaction_message input_message output_message word_proto
    constants
test-IsFresh = ((λ e. absurd (omega arith)), tt)

first-Storable : Storable test_env first_chain.chain_writer first_chain.file_system test_block
first-Storable = record {
  may = λ p. refl;
  ready = first-IsHistory.ready;
  block_number = omega (arith, first_numbers.0);
  undo_number = omega (arith, first_numbers.1);
  block_small = omega (arith, test_small);
  undo_text = undo_text_of test_block;
  undo_made = test_undo_made;
  undo_small = omega (arith, test_undo_small);
}

pub first-IsNext :
    IsNext test_env first_chain construct_genesis_block [] (genesis_coins test_env) test_block
first-IsNext = record {
  in_range = test_in_range;
  parent = sym genesis_hash;
  fresh = test-IsFresh;
  covered = covered;
  can = can;
  storable = first-Storable;
  room = omega arith;
}

abbrev later_coins : CoinSet
later_coins = apply_block test_env (genesis_coins test_env) (get_transactions test_block)

handle_block-IsHistory_example :
    (c : Chain) × (handle_block test_env first_chain test_block ≡ some c)
    × IsHistory test_env c test_block (construct_genesis_block ∷ []) later_coins
handle_block-IsHistory_example =
    handle_block-IsHistory test_env first_chain test_block construct_genesis_block []
      (genesis_coins test_env) first-IsHistory test_in_range (sym genesis_hash) test-IsFresh covered
      can first-Storable (omega arith)

-- The chain after the second block.
abbrev second_chain : Chain
second_chain = chain_or (handle_block test_env first_chain test_block)

first-Grown : Grown test_env first_chain construct_genesis_block [] (genesis_coins test_env)
first-Grown = started empty_disk genesis-Storable first_made

second_made : handle_block test_env first_chain test_block ≡ some second_chain
second_made =
    let (c, e, g) =
      Grown-next test_env first_chain construct_genesis_block [] (genesis_coins test_env) test_block
        first-Grown first-IsNext in
    rw e refl

second-Grown : Grown test_env second_chain test_block (construct_genesis_block ∷ []) later_coins
second-Grown = added test_block first-Grown first-IsNext second_made

Grown-next_example :
    (c : Chain) × (handle_block test_env first_chain test_block ≡ some c)
    × Grown test_env c test_block (construct_genesis_block ∷ []) later_coins
Grown-next_example =
    Grown-next test_env first_chain construct_genesis_block [] (genesis_coins test_env) test_block
      first-Grown first-IsNext

Grown-IsHistory_example :
    IsHistory test_env second_chain test_block (construct_genesis_block ∷ []) later_coins
Grown-IsHistory_example =
    Grown-IsHistory test_env second_chain test_block (construct_genesis_block ∷ []) later_coins
      second-Grown

Grown-get_block_example :
    All (Found test_env second_chain) (test_block ∷ construct_genesis_block ∷ [])
Grown-get_block_example =
    Grown-get_block test_env second_chain test_block (construct_genesis_block ∷ []) later_coins
      second-Grown

Grown-Undoable_example : Undoable test_env second_chain (test_block ∷ construct_genesis_block ∷ [])
unfolding Undisturbed second-Grown first-Grown
Grown-Undoable_example =
    Grown-Undoable test_env second_chain test_block (construct_genesis_block ∷ []) later_coins
      second-Grown (omega arith, tt)

second-IsHistory :
    IsHistory test_env second_chain test_block (construct_genesis_block ∷ []) later_coins
second-IsHistory =
    Grown-IsHistory test_env second_chain test_block (construct_genesis_block ∷ []) later_coins
      second-Grown

get_active_chain-slice_example :
    (c : Chain) × (get_active_chain test_env second_chain 0 9
      ≡ some (some construct_genesis_block ∷ some test_block ∷ [], c))
unfolding slice
get_active_chain-slice_example =
    get_active_chain-slice test_env second_chain test_block (construct_genesis_block ∷ [])
      (IsHistory-IsSpine test_env second-IsHistory) 0 9

get_active_chain_hashes-slice_example :
    (c : Chain) × (get_active_chain_hashes test_env second_chain 2 2
      ≡ some (block_hash test_env test_block ∷ [], c))
unfolding slice
get_active_chain_hashes-slice_example =
    get_active_chain_hashes-slice test_env second_chain test_block (construct_genesis_block ∷ [])
      (IsHistory-IsSpine test_env second-IsHistory) 2 2
