-- ===== src/Chain/Reorg.antt =====
-- core/src/chain/chain.cpp: what `handle_block` does where a fork overtakes the active chain.
use crypt_bank.Prelude.{
  ℕ, zero, suc, ◌+◌, ◌-◌, ◌%◌, ◌^◌, true, false, ◌||◌, Option, none, some, List, [], ◌∷◌, ◌++◌, ltb,
  nat_beq, if◌then◌else◌, length, ◌>>=◌,
}
use crypt_bank.Primitives.{Block, get_transactions}
use crypt_bank.Records.{UndoBlock, deserialize_undo_block}
use crypt_bank.Env.{Env}
use crypt_bank.Coins
use crypt_bank.Coins.{CoinDatabase, validate_block, validate_and_store_transaction}
use crypt_bank.Coins.Undo.{undo_coins}
use crypt_bank.Writer.{read_undo_block}
use crypt_bank.Chain.{
  Chain, undo_location, look_up, get_last_block_hash, get_block, get_active_chain_hashes,
}

-- `*std::mismatch(…).first`: the first element of the first list that differs from the second.
-- Without one, and where the second list ends first, the iterator is past the end.
unfoldable pub mismatch : List ℕ → List ℕ → Option ℕ
mismatch [] fs = none
mismatch (a ∷ as') [] = none
mismatch (a ∷ as') (f ∷ fs) = if nat_beq a f then mismatch as' fs else some a

module _ (env : Env) where
  -- The first loop of `get_forked_blocks_stack`: the hashes from `prev` back, oldest first.
  unfoldable pub forked_hashes : ℕ → ℕ → List ℕ → Chain → List ℕ × Chain
  forked_hashes zero prev forked c = (forked, c)
  forked_hashes (suc i) prev forked c =
      let (r, c') = look_up env c prev in
      forked_hashes i r.block_header.previous_block_hash (prev ∷ forked) c'

  -- Its second loop, from `prev` back to the common ancestor.
  unfoldable pub stack_blocks :
      ℕ → ℕ → ℕ → List (Option Block) → Chain → Option (List (Option Block) × Chain)
  stack_blocks zero ancestor prev result c = some (result, c)
  stack_blocks (suc i) ancestor prev result c = elim (nat_beq prev ancestor) [
    | true ↦ do (b, c') ← get_block env c prev; some (result ++ (b ∷ []), c')
    | false ↦ do
      (b, c') ← get_block env c prev
      let (r, c'') = look_up env c' prev
      stack_blocks i ancestor r.block_header.previous_block_hash (result ++ (b ∷ [])) c''
  ]

  unfoldable pub get_forked_blocks_stack : Chain → ℕ → Option (List (Option Block) × Chain)
  get_forked_blocks_stack c starting_hash = do
    (active, c1) ← get_active_chain_hashes env c 1 c.active_chain_length
    let (start, c2) = look_up env c1 starting_hash
    let (forked, c3) = forked_hashes start.height starting_hash [] c2
    first_mismatch ← mismatch active forked
    let (r, c4) = look_up env c3 first_mismatch
    stack_blocks start.height r.block_header.previous_block_hash r.block_header.previous_block_hash
        [] c4

  -- The loop of `get_undo_blocks_queue`, for `n` blocks.
  unfoldable pub undo_blocks_loop : ℕ → ℕ → List UndoBlock → Chain → Option (List UndoBlock × Chain)
  undo_blocks_loop zero prev result c = some (result, c)
  undo_blocks_loop (suc n) prev result c =
      let (r, c') = look_up env c prev in
      do
        s ← read_undo_block c'.file_system (undo_location r)
        u ← deserialize_undo_block env.proto s
        undo_blocks_loop n r.block_header.previous_block_hash (result ++ (u ∷ [])) c'

  unfoldable pub get_undo_blocks_queue : Chain → ℕ → Option (List UndoBlock × Chain)
  get_undo_blocks_queue c branching_height = do
    prev ← get_last_block_hash env c
    if nat_beq branching_height 0 || ltb c.active_chain_length branching_height
        then some ([], c)
        else undo_blocks_loop (c.active_chain_length - branching_height) prev [] c

  -- The loop that stores the fetched blocks; a null block is dereferenced.
  unfoldable pub store_fetched : CoinDatabase → List (Option Block) → Option CoinDatabase
  store_fetched coins [] = some coins
  store_fetched coins (b ∷ bs) = do
    fetched ← b
    coins' ← Coins.store_block env coins (get_transactions fetched)
    store_fetched coins' bs

  -- The longer fork takes over.
  unfoldable pub take_over : Chain → Block → ℕ → Option Chain
  take_over c b current_hash = do
    (forked, c1) ← get_forked_blocks_stack c current_hash
    (undo_blocks, c2) ← get_undo_blocks_queue c1 (length forked % 2 ^ 32)
    coins ← undo_coins env c2.coin_database undo_blocks
    coins' ← store_fetched coins forked
    some (record c2 {
      coin_database = coins';
      active_chain_length = (c2.active_chain_length + 1) % 2 ^ 32;
      active_chain_last_block = b;
    })
