-- ===== src/Chain/OvertakeExamples.antt =====
-- The concrete reorganisation: the second block is kept on a fork, and the third makes the fork take
-- over.
use crypt_bank.Prelude.{◌+◌, ◌%◌, ◌^◌, ◌≡◌, refl, sym, ap, ◌∙◌, some, [], ◌∷◌, arith}
use mathlib.Core.Path.{subst}
use crypt_bank.Primitives.{get_transactions}
use crypt_bank.Primitives.InRange.{IsBlock}
use crypt_bank.Env.{block_hash}
use crypt_bank.Coins.Apply.{apply_block}
use crypt_bank.Examples.{test_env}
use crypt_bank.Chain.{Chain, look_up}
use crypt_bank.Chain.Handle.{construct_genesis_block, handle_block}
use crypt_bank.Chain.History.{Kept, IsFresh, IsHistory, IsHistory-IsSpine}
use crypt_bank.Chain.Undone.{Undoable, get_undo_blocks_queue-undone}
use crypt_bank.Chain.Reorg.{get_forked_blocks_stack, get_undo_blocks_queue}
use crypt_bank.Chain.Queries.{SameCore}
use crypt_bank.Chain.Side.{height_above}
use crypt_bank.Chain.Walk.{ChainKeeps}
use crypt_bank.Chain.Ancestor.{height-look_up, get_forked_blocks_stack-ancestor}
use crypt_bank.Chain.Aside.{Fits, aside, aside-Kept, aside-Undoable, aside_number}
use crypt_bank.Chain.Beside.{aside-IsHistory}
use crypt_bank.Chain.Longer.{Parted, IsLonger}
use crypt_bank.Chain.Overtaken.{TookOver, handle_block-overtaken}
use crypt_bank.Chain.Examples.{genesis_hash}
use crypt_bank.Chain.RivalExamples.{
  spending_block, rival_block, third_block, rival_hash, spending_hash, third_hash, sizes,
  second_coins, can_again, second_chain, second-IsHistory, second-Undoable, second_number,
}

pub rival_in_range : IsBlock rival_block
rival_in_range = omega arith

pub rival-Fits : Fits test_env second_chain rival_block
rival-Fits = record {
  may = λ p. refl;
  number = omega (arith, second_number);
  small = omega (arith, sizes.1);
}

rival-IsFresh :
    IsFresh test_env
      (block_hash test_env rival_block)
      (spending_block ∷ construct_genesis_block ∷ [])
rival-IsFresh = (
  (λ e. absurd (omega (arith, e, rival_hash, spending_hash))),
  ((λ e. absurd (omega (arith, e, rival_hash, genesis_hash))), tt),
)

-- The chain with the rival block on a fork.
abbrev pub third_chain : Chain
third_chain =
    aside test_env second_chain rival_block rival_in_range rival-Fits second-IsHistory.ready

pub third-IsHistory :
    IsHistory test_env third_chain spending_block (construct_genesis_block ∷ []) second_coins
third-IsHistory =
    aside-IsHistory test_env second_chain rival_block spending_block (construct_genesis_block ∷ [])
      second_coins rival_in_range rival-Fits second-IsHistory rival-IsFresh

pub third-Undoable : Undoable test_env third_chain (spending_block ∷ construct_genesis_block ∷ [])
third-Undoable =
    aside-Undoable test_env second_chain rival_block rival_in_range rival-Fits
      second-IsHistory.ready (spending_block ∷ construct_genesis_block ∷ []) rival-IsFresh
      second-Undoable

rival_height : height_above test_env second_chain rival_block ≡ 2
rival_height =
    ap (λ i. ((look_up test_env second_chain i).0.height + 1) % 2 ^ 32) (sym genesis_hash)
    ∙ ap (λ n. (n + 1) % 2 ^ 32)
        (height-look_up test_env second_chain construct_genesis_block 1 second-IsHistory.kept.1.0)

pub third-ChainKeeps : ChainKeeps test_env third_chain (rival_block ∷ construct_genesis_block ∷ [])
third-ChainKeeps = (
  subst (Kept test_env third_chain.block_info_database third_chain.file_system rival_block)
      rival_height
      (aside-Kept test_env second_chain rival_block rival_in_range rival-Fits
        second-IsHistory.ready),
  third-IsHistory.kept.1,
)

-- The two chains part above the genesis block.
abbrev pub parted :
    Parted test_env
      (spending_block ∷ construct_genesis_block ∷ [])
      (third_block ∷ rival_block ∷ construct_genesis_block ∷ [])
parted = record {
  newer_active = [];
  newer_side = third_block ∷ [];
  first_active = spending_block;
  first_side = rival_block;
  ancestor = construct_genesis_block;
  older = [];
  active_is = refl;
  side_is = refl;
  differ = λ e. absurd (omega (arith, e, spending_hash, rival_hash));
}

get_forked_blocks_stack-ancestor_example :
    (c : Chain) × (get_forked_blocks_stack test_env third_chain (block_hash test_env rival_block)
      ≡ some (some construct_genesis_block ∷ [], c))
    × SameCore test_env third_chain c
get_forked_blocks_stack-ancestor_example =
    get_forked_blocks_stack-ancestor test_env third_chain spending_block
      (construct_genesis_block ∷ []) [] [] [] spending_block rival_block construct_genesis_block
      rival_block (construct_genesis_block ∷ []) (IsHistory-IsSpine test_env third-IsHistory) refl
      refl parted.differ third-ChainKeeps (sym genesis_hash, tt)

get_undo_blocks_queue-undone_example :
    (c : Chain) × (get_undo_blocks_queue test_env third_chain 1 ≡ some (third-Undoable.undos, c))
    × SameCore test_env third_chain c
get_undo_blocks_queue-undone_example =
    get_undo_blocks_queue-undone test_env third_chain spending_block (construct_genesis_block ∷ [])
      third-Undoable.above (third-Undoable.lowest ∷ []) third-Undoable.undos
      (IsHistory-IsSpine test_env third-IsHistory) third-Undoable.active_is (omega arith)
      third-Undoable.undone

pub third-Fits : Fits test_env third_chain third_block
third-Fits = record {
  may = λ p. refl;
  number = omega (
    arith,
    aside_number test_env second_chain rival_block rival_in_range rival-Fits second-IsHistory.ready,
    second_number,
  );
  small = omega (arith, sizes.2);
}

pub third-IsFresh-active :
    IsFresh test_env
      (block_hash test_env third_block)
      (spending_block ∷ construct_genesis_block ∷ [])
third-IsFresh-active =
    ((λ e. third_hash.1 (e ∙ spending_hash)), ((λ e. third_hash.2 (e ∙ genesis_hash)), tt))

pub third-IsFresh-side :
    IsFresh test_env (block_hash test_env third_block) (rival_block ∷ construct_genesis_block ∷ [])
third-IsFresh-side =
    ((λ e. third_hash.0 (e ∙ rival_hash)), ((λ e. third_hash.2 (e ∙ genesis_hash)), tt))

abbrev pub third-IsLonger :
    IsLonger test_env third_chain spending_block
      (construct_genesis_block ∷ [])
      third_block
      rival_block
      (construct_genesis_block ∷ [])
third-IsLonger = record {
  parted = parted;
  kept = third-ChainKeeps;
  linked = (sym rival_hash, (sym genesis_hash, tt));
  even = refl;
  other = λ e. absurd (omega (arith, e, spending_hash));
  in_range = omega arith;
  fresh = third-IsFresh-active;
  fresh_side = third-IsFresh-side;
  fits = third-Fits;
  room = omega arith;
}

handle_block-overtaken_example :
    (c : Chain) × (handle_block test_env third_chain third_block ≡ some c)
    × IsHistory test_env c third_block
        (rival_block ∷ construct_genesis_block ∷ [])
        (apply_block test_env second_coins (get_transactions construct_genesis_block))
    × TookOver test_env third_chain (spending_block ∷ construct_genesis_block ∷ []) third_block c
handle_block-overtaken_example =
    handle_block-overtaken test_env third_chain spending_block (construct_genesis_block ∷ [])
      third_block rival_block (construct_genesis_block ∷ []) second_coins third-IsLonger
      third-IsHistory third-Undoable can_again
