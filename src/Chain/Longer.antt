-- ===== src/Chain/Longer.antt =====
-- `handle_block` up to the takeover, where a block makes a fork longer than the active chain.
use crypt_bank.Prelude.{
  ◌+◌, ◌%◌, ◌^◌, ◌<◌, ◌≡◌, ap, ◌∙◌, ◌≢◌, Bool, some, List, ◌∷◌, ◌++◌, arith, length,
}
use crypt_bank.Primitives.{Block, get_transactions}
use crypt_bank.Primitives.InRange.{IsBlock}
use crypt_bank.Env.{Env, block_hash}
use crypt_bank.Coins
use crypt_bank.Coins.{CoinDatabase}
use crypt_bank.Chain.{Chain, look_up}
use crypt_bank.Chain.Reorg.{take_over}
use crypt_bank.Chain.Handle.{handle_block}
use crypt_bank.Chain.Active.{last_hash}
use crypt_bank.Chain.Side.{height_above, handle_block-fork_chain, fork_chain-take_over}
use crypt_bank.Chain.History.{Linked, IsFresh, IsSpine}
use crypt_bank.Chain.Walk.{ChainKeeps}
use crypt_bank.Chain.Ancestor.{height-look_up}
use crypt_bank.Chain.Aside.{Fits, aside, aside-KeptAll, aside-Kept, aside-IsSpine}

module _ (env : Env) where
  -- Two chains of blocks, newest first, that part above the block `ancestor`.
  pub record Parted (active side : List Block) : Type 0 where
    pub newer_active : List Block
    pub newer_side : List Block
    pub first_active : Block
    pub first_side : Block
    pub ancestor : Block
    pub older : List Block
    pub active_is : active ≡ newer_active ++ (first_active ∷ ancestor ∷ older)
    pub side_is : side ≡ newer_side ++ (first_side ∷ ancestor ∷ older)
    pub differ : block_hash env first_active ≢ block_hash env first_side

  -- On a chain of `last` on `bs`, the block `b` is in range and on top of `p` and `side`, kept blocks as
  -- many as the chain has, which part from it above a common ancestor. No block of either has the
  -- hash of `b`, the disk has room for it, and the heights stay below 2 ^ 31.
  pub record IsLonger (c : Chain) (last : Block) (bs : List Block) (b p : Block) (side : List Block)
      : Type 0 where
    pub parted : Parted (last ∷ bs) (b ∷ p ∷ side)
    pub kept : ChainKeeps env c (p ∷ side)
    pub linked : Linked env b (p ∷ side)
    pub even : length side ≡ length bs
    pub other : b.block_header.previous_block_hash ≢ block_hash env last
    pub in_range : IsBlock b
    pub fresh : IsFresh env (block_hash env b) (last ∷ bs)
    pub fresh_side : IsFresh env (block_hash env b) (p ∷ side)
    pub fits : Fits env c b
    pub room : length bs + 2 < 2 ^ 31

  module _ (c : Chain) (validated : CoinDatabase) (last : Block) (bs : List Block) (b p : Block)
      (side : List Block) (h : IsSpine env c last bs) (o : IsLonger c last bs b p side) where
    abbrev pub validated_chain : Chain
    validated_chain = record c { coin_database = validated }

    abbrev pub still_fits : Fits env validated_chain b
    still_fits = record { may = o.fits.may; number = o.fits.number; small = o.fits.small }

    -- The chain that the takeover begins with.
    abbrev pub with_fork : Chain
    with_fork = aside env validated_chain b o.in_range still_fits h.ready

    pub with_fork-IsSpine : IsSpine env with_fork last bs
    with_fork-IsSpine =
        aside-IsSpine env validated_chain b o.in_range still_fits h.ready last bs
          (record {
            length_is = h.length_is;
            last_is = h.last_is;
            kept = h.kept;
            linked = h.linked;
            ready = h.ready;
          })
          o.fresh

    height : height_above env validated_chain b ≡ length (b ∷ p ∷ side)
    height =
        ap (λ i. ((look_up env validated_chain i).0.height + 1) % 2 ^ 32) o.linked.0
        ∙ ap (λ i. (i + 1) % 2 ^ 32)
            (height-look_up env validated_chain p (length (p ∷ side)) o.kept.0)
        ∙ omega (arith, o.even, o.room)

    pub with_fork-ChainKeeps : ChainKeeps env with_fork (b ∷ p ∷ side)
    with_fork-ChainKeeps = (
      rw (← height) (aside-Kept env validated_chain b o.in_range still_fits h.ready),
      aside-KeptAll env validated_chain b o.in_range still_fits h.ready (p ∷ side) o.fresh_side
          o.kept,
    )

    pub handle_block-take_over :
        (valid : Bool)
        → Coins.validate_block env c.coin_database (get_transactions b) ≡ some (valid, validated)
        → handle_block env c b ≡ take_over env with_fork b (block_hash env b)
    handle_block-take_over valid checked =
        handle_block-fork_chain env c b valid validated (block_hash env last) checked
          (last_hash env validated_chain last h.kept.0.in_range h.last_is) o.other
        ∙ fork_chain-take_over env validated_chain b o.in_range o.fits.may h.ready.block
            h.ready.block_offset o.fits.number o.fits.small
            (rw height (omega (arith, h.length_is, o.even)))
