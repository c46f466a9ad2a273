-- ===== src/Chain/Grow.antt =====
-- Blocks handed to `handle_block` one after another: the chain that they make.
use crypt_bank.Prelude.{◌+◌, ◌%◌, ◌^◌, ◌<◌, ◌≡◌, ap, ◌∙◌, true, some, List, ◌∷◌, arith, length}
use crypt_bank.Primitives.{Block, get_transactions}
use crypt_bank.Primitives.InRange.{IsBlock}
use crypt_bank.Env.{Env, block_hash}
use crypt_bank.Coins
use crypt_bank.Coins.{CoinDatabase}
use crypt_bank.Coins.Validate.{CoinSet, covers_block}
use crypt_bank.Coins.Represents.{Represents}
use crypt_bank.Coins.Apply.{
  CanApply, apply_block, store_block-Represents, validate_block-Represents,
}
use crypt_bank.Chain.{Chain}
use crypt_bank.Chain.Handle.{extend_chain, handle_block}
use crypt_bank.Chain.Active.{Storable, stored, with_block, last_hash, handle_block-extend_chain}
use crypt_bank.Chain.History.{IsFresh, IsHistory, with_block-IsHistory}

module _ (env : Env) where
  extend_chain-with_block :
      (c : Chain) (b : Block) (coins : CoinDatabase) (h : IsBlock b)
      (storable : Storable env c.chain_writer c.file_system b)
      → Coins.store_block env c.coin_database (get_transactions b) ≡ some coins
      → extend_chain env c b (block_hash env b)
        ≡ some (
            with_block env b
              ((c.active_chain_length + 1) % 2 ^ 32)
              coins
              c.chain_writer
              c.file_system
              c.block_info_database
              h
              (omega arith)
              storable)
  unfolding extend_chain
  extend_chain-with_block c b coins h storable e = rw e (
      rw
        (stored env b ((c.active_chain_length + 1) % 2 ^ 32) coins c.chain_writer c.file_system
          c.block_info_database h (omega arith) storable).returned)

  -- `b` on top of `c`, with the coins `cs`.
  abbrev pub grown_by :
      (c : Chain) (b : Block)
      → CoinDatabase
      → IsBlock b
      → Storable env c.chain_writer c.file_system b
      → Chain
  grown_by c b cs hb storable =
      with_block env b ((c.active_chain_length + 1) % 2 ^ 32) cs c.chain_writer c.file_system
        c.block_info_database hb (omega arith) storable

  pub handle_block-grown_by :
      (c : Chain) (b last : Block) (bs : List Block) (s : CoinSet)
      → IsHistory env c last bs s
      → (hb : IsBlock b) → b.block_header.previous_block_hash ≡ block_hash env last
      → covers_block s (get_transactions b) ≡ true
      → CanApply env s (get_transactions b)
      → (storable : Storable env c.chain_writer c.file_system b)
      → (cs : CoinDatabase) × (handle_block env c b ≡ some (grown_by c b cs hb storable))
        × Represents env cs (apply_block env s (get_transactions b))
  handle_block-grown_by c b last bs s h hb parent covered can storable =
      let (cv, ev, rv) =
        validate_block-Represents env c.coin_database s (get_transactions b) h.coins in
      let (cs, es, rs) = store_block-Represents env cv s (get_transactions b) rv can in
      let c1 : Chain = record c { coin_database = cv } in
      (
        cs,
        handle_block-extend_chain env c b last cv _ (ev ∙ ap (λ ok. some (ok, cv)) covered)
            (last_hash env c1 last h.kept.0.in_range h.last_is) parent
            (extend_chain-with_block c1 b cs hb storable es),
        rs,
      )

  pub grown_by-IsHistory :
      (c : Chain) (b last : Block) (bs : List Block) (s s' : CoinSet) (cs : CoinDatabase)
      → IsHistory env c last bs s
      → (hb : IsBlock b) → b.block_header.previous_block_hash ≡ block_hash env last
      → IsFresh env (block_hash env b) (last ∷ bs)
      → (storable : Storable env c.chain_writer c.file_system b) → length bs + 2 < 2 ^ 31
      → Represents env cs s'
      → IsHistory env (grown_by c b cs hb storable) b (last ∷ bs) s'
  grown_by-IsHistory c b last bs s s' cs h hb parent fresh storable room r =
      with_block-IsHistory env b ((c.active_chain_length + 1) % 2 ^ 32) cs c.chain_writer
        c.file_system c.block_info_database hb (omega arith) storable (last ∷ bs) s'
        (omega (arith, h.length_is)) h.kept (parent, h.linked) fresh r

  -- On a chain made of kept blocks, of fewer than 2 ^ 31 - 1, with a set of coins, a block in range
  -- goes on top whose parent is the last block, whose inputs the set covers, whose transactions can
  -- be applied to the set in turn, whose hash no block of the chain has and that the disk can
  -- store: `handle_block` does not fault, the chain is made of the block and all earlier ones,
  -- still kept at their heights, and the coins are those of the set after the block.
  pub handle_block-IsHistory :
      (c : Chain) (b last : Block) (bs : List Block) (s : CoinSet)
      → IsHistory env c last bs s
      → IsBlock b
      → b.block_header.previous_block_hash ≡ block_hash env last
      → IsFresh env (block_hash env b) (last ∷ bs)
      → covers_block s (get_transactions b) ≡ true
      → CanApply env s (get_transactions b)
      → Storable env c.chain_writer c.file_system b
      → length bs + 2 < 2 ^ 31
      → (c' : Chain) × (handle_block env c b ≡ some c')
        × IsHistory env c' b (last ∷ bs) (apply_block env s (get_transactions b))
  handle_block-IsHistory c b last bs s h hb parent fresh covered can storable room =
      let (cs, e, rs) = handle_block-grown_by c b last bs s h hb parent covered can storable in
      (
        grown_by c b cs hb storable,
        e,
        grown_by-IsHistory c b last bs s _ cs h hb parent fresh storable room rs,
      )
