-- ===== src/Chain/Overtake.antt =====
-- `take_over` where the chain and the fork have a common ancestor and the undo blocks can be read.
use crypt_bank.Prelude.{
  ℕ, ◌+◌, ◌%◌, ◌^◌, ◌≤◌, ◌≡◌, refl, ◌∙◌, false, some, List, [], ◌∷◌, arith, nat_beq, length, All,
}
use crypt_bank.Primitives.{Block, get_transactions}
use crypt_bank.Records.{UndoBlock}
use crypt_bank.Env.{Env, block_hash}
use crypt_bank.Coins
use crypt_bank.Coins.{CoinDatabase}
use crypt_bank.Coins.Undo.{undo_coins, undo_coins-no_effect, any_empty}
use crypt_bank.Chain.{Chain}
use crypt_bank.Chain.Reorg.{
  get_forked_blocks_stack, get_undo_blocks_queue, store_fetched, take_over,
}
use crypt_bank.Chain.Queries.{SameCore, SameCore-trans}
use crypt_bank.Chain.History.{Linked, IsSpine}
use crypt_bank.Chain.Walk.{ChainKeeps}
use crypt_bank.Chain.Longer.{Parted}
use crypt_bank.Chain.Ancestor.{KeptAll-SameCore, get_forked_blocks_stack-ancestor}
use crypt_bank.Chain.Undone.{Undoable, AllUndone-SameCore, get_undo_blocks_queue-undone}

module _ (env : Env) where
  any_empty-named :
      (us : List UndoBlock)
      → All (λ u. 1 ≤ length u.transaction_hashes) us
      → any_empty env us ≡ false
  any_empty-named [] h = refl
  any_empty-named (u ∷ us) (hu, h) =
      let some_named : nat_beq (length u.transaction_hashes) 0 ≡ false = ground (arith, hu) in
      rw some_named (any_empty-named us h)

  undo_coins-named :
      (coins : CoinDatabase) (us : List UndoBlock)
      → All (λ u. 1 ≤ length u.transaction_hashes) us
      → undo_coins env coins us ≡ some coins
  undo_coins-named coins us h = undo_coins-no_effect env coins us ∙ rw (any_empty-named us h) refl

  store_fetched-single :
      (coins coins' : CoinDatabase) (a : Block)
      → Coins.store_block env coins (get_transactions a) ≡ some coins'
      → store_fetched env coins (some a ∷ []) ≡ some coins'
  unfolding store_fetched
  store_fetched-single coins coins' a e = rw e refl

  -- The steps of `take_over`.
  take_over-steps :
      (c c1 c2 : Chain) (b : Block) (hash : ℕ) (a : Block) (us : List UndoBlock)
      (coins' : CoinDatabase)
      → get_forked_blocks_stack env c hash ≡ some (some a ∷ [], c1)
      → get_undo_blocks_queue env c1 1 ≡ some (us, c2)
      → undo_coins env c2.coin_database us ≡ some c2.coin_database
      → Coins.store_block env c2.coin_database (get_transactions a) ≡ some coins'
      → take_over env c b hash
        ≡ some (record c2 {
          coin_database = coins';
          active_chain_length = (c2.active_chain_length + 1) % 2 ^ 32;
          active_chain_last_block = b;
        })
  unfolding take_over
  take_over-steps c c1 c2 b hash a us coins' e1 e2 e3 e4 =
      rw (e1, e2, e3, store_fetched-single c2.coin_database coins' a e4) refl

  pub IsSpine-SameCore :
      (c c' : Chain) (last : Block) (bs : List Block)
      → SameCore env c c'
      → IsSpine env c last bs
      → IsSpine env c' last bs
  IsSpine-SameCore c c' last bs same h = record {
    length_is = same.active_chain_length ∙ h.length_is;
    last_is = same.last_block ∙ h.last_is;
    kept = KeptAll-SameCore env c c' (last ∷ bs) same h.kept;
    linked = h.linked;
    ready = rw (same.chain_writer, same.file_system) h.ready;
  }

  pub take_over-ancestor :
      (c : Chain) (b last top : Block) (bs side : List Block) (coins' : CoinDatabase)
      (parted : Parted env (last ∷ bs) (top ∷ side))
      → IsSpine env c last bs
      → Undoable env c (last ∷ bs)
      → ChainKeeps env c (top ∷ side)
      → Linked env top side
      → Coins.store_block env c.coin_database (get_transactions parted.ancestor) ≡ some coins'
      → (c2 : Chain) × SameCore env c c2
        × (take_over env c b (block_hash env top)
            ≡ some (record c2 {
              coin_database = coins';
              active_chain_length = (c2.active_chain_length + 1) % 2 ^ 32;
              active_chain_last_block = b;
            }))
  take_over-ancestor c b last top bs side coins' p h u kept linked stored =
      let (c1, e1, same1) =
        get_forked_blocks_stack-ancestor env c last bs p.newer_active p.newer_side p.older
          p.first_active p.first_side p.ancestor top side h p.active_is p.side_is p.differ kept
          linked in
      let h1 = IsSpine-SameCore c c1 last bs same1 h in
      let (c2, e2, same2) =
        get_undo_blocks_queue-undone env c1 last bs u.above (u.lowest ∷ []) u.undos h1 u.active_is
          (omega arith) (AllUndone-SameCore env c c1 u.above u.undos same1 u.undone) in
      let same = SameCore-trans env same1 same2 in
      (
        c2,
        same,
        take_over-steps c c1 c2 b (block_hash env top) p.ancestor _ coins' e1 e2
            (undo_coins-named c2.coin_database u.undos u.named) (rw same.coin_database stored),
      )
