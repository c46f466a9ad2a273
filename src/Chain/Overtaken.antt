-- ===== src/Chain/Overtaken.antt =====
-- `handle_block` where a fork takes over: the blocks of the chain, and its coins.
use crypt_bank.Prelude.{◌+◌, ◌%◌, ◌^◌, ◌≡◌, refl, ap, ◌∙◌, Bool, some, List, [], ◌∷◌, arith}
use crypt_bank.Primitives.{Block, get_transactions, serialize_block}
use crypt_bank.Records.{new_file_info}
use crypt_bank.Env.{Env, block_hash}
use crypt_bank.BlockInfo.Lookup.{record_at}
use crypt_bank.Coins
use crypt_bank.Coins.{CoinDatabase}
use crypt_bank.Coins.Validate.{CoinSet}
use crypt_bank.Coins.Apply.{
  CanApply, apply_block, store_block-Represents, validate_block-Represents,
}
use crypt_bank.Writer.{write_block}
use crypt_bank.Chain.{Chain, undo_location, look_up}
use crypt_bank.Chain.Handle.{handle_block}
use crypt_bank.Chain.History.{IsSpine, IsHistory, IsHistory-IsSpine}
use crypt_bank.Chain.Walk.{ChainKeeps}
use crypt_bank.Chain.Ancestor.{KeptAll-SameCore}
use crypt_bank.Chain.Aside.{aside_undo_file, aside-Undoable}
use crypt_bank.Chain.Longer.{
  IsLonger, validated_chain, still_fits, with_fork, with_fork-IsSpine, with_fork-ChainKeeps,
  handle_block-take_over,
}
use crypt_bank.Chain.Undone.{Undoable}
use crypt_bank.Chain.Overtake.{IsSpine-SameCore, take_over-ancestor}

module _ (env : Env) where
  -- What a takeover of `c` by `b` leaves beside the new chain: the blocks of the former chain are still
  -- kept, the block's text is the only one written, and its record names no undo file.
  pub record TookOver (c : Chain) (former : List Block) (b : Block) (c' : Chain) : Type 0 where
    pub kept : ChainKeeps env c' former
    pub writer :
        c'.chain_writer
        ≡ (write_block env c.chain_writer c.file_system (serialize_block env.proto b)).1
    pub files :
        c'.file_system
        ≡ (write_block env c.chain_writer c.file_system (serialize_block env.proto b)).2
    pub undo_file :
        undo_location (record_at env.proto c'.block_info_database (block_hash env b))
        ≡ new_file_info [] 0 0

  handle_block-overtakes :
      (c : Chain) (last : Block) (bs : List Block) (b p : Block) (side : List Block) (valid : Bool)
      (validated coins' : CoinDatabase) (o : IsLonger env c last bs b p side)
      → IsSpine env c last bs
      → Undoable env c (last ∷ bs)
      → Coins.validate_block env c.coin_database (get_transactions b) ≡ some (valid, validated)
      → Coins.store_block env validated (get_transactions o.parted.ancestor) ≡ some coins'
      → (c' : Chain) × (handle_block env c b ≡ some c')
        × IsSpine env c' b (p ∷ side)
        × (c'.coin_database ≡ coins')
        × TookOver c (last ∷ bs) b c'
  unfolding look_up
  handle_block-overtakes c last bs b p side valid validated coins' o h u checked stored =
      let c2 = with_fork env c validated last bs b p side h o in
      let h2 = with_fork-IsSpine env c validated last bs b p side h o in
      let kept2 = with_fork-ChainKeeps env c validated last bs b p side h o in
      let (c3, same, e) =
        take_over-ancestor env c2 b last b bs (p ∷ side) coins' o.parted h2
          (aside-Undoable env (validated_chain env c validated last bs b p side h o) b o.in_range
            (still_fits env c validated last bs b p side h o) h.ready (last ∷ bs) o.fresh
            (record {
              above = u.above;
              lowest = u.lowest;
              active_is = u.active_is;
              undos = u.undos;
              undone = u.undone;
              named = u.named;
            }))
          kept2 o.linked stored in
      let h3 = IsSpine-SameCore env c2 c3 last bs same h2 in
      (
        record c3 {
          coin_database = coins';
          active_chain_length = (c3.active_chain_length + 1) % 2 ^ 32;
          active_chain_last_block = b;
        },
        handle_block-take_over env c validated last bs b p side h o valid checked ∙ e,
        record {
          length_is = rw h3.length_is (omega (arith, o.even, o.room));
          last_is = refl;
          kept = KeptAll-SameCore env c2 c3 (b ∷ p ∷ side) same kept2;
          linked = o.linked;
          ready = h3.ready;
        },
        refl,
        record {
          kept = h3.kept;
          writer = same.chain_writer;
          files = same.file_system;
          undo_file =
              ap undo_location (same.records (block_hash env b))
              ∙ aside_undo_file env (validated_chain env c validated last bs b p side h o) b
                  o.in_range (still_fits env c validated last bs b p side h o) h.ready;
        },
      )

  -- On a chain made of kept blocks with a set of coins, all blocks but the lowest with undo blocks in
  -- the files that name a transaction, a block in range comes on top of a fork of kept blocks as long
  -- as the chain, which parts from it above a common ancestor. If no block of either has its hash,
  -- the disk has room for it, the heights stay below 2 ^ 31, and the ancestor's transactions can be
  -- applied to the set, then `handle_block` takes the block without a fault, whether the set covers
  -- it or not: the chain is then made of the fork's blocks with the new one on top, all kept, and its
  -- coins are not those of the fork's blocks but those of the set that there was after the
  -- ancestor's transactions are applied to it once more. The blocks of the former chain are still
  -- kept, the block's text is the only one written, and its record names no undo file.
  pub handle_block-overtaken :
      (c : Chain) (last : Block) (bs : List Block) (b p : Block) (side : List Block) (s : CoinSet)
      (o : IsLonger env c last bs b p side)
      → IsHistory env c last bs s
      → Undoable env c (last ∷ bs)
      → CanApply env s (get_transactions o.parted.ancestor)
      → (c' : Chain) × (handle_block env c b ≡ some c')
        × IsHistory env c' b (p ∷ side) (apply_block env s (get_transactions o.parted.ancestor))
        × TookOver c (last ∷ bs) b c'
  handle_block-overtaken c last bs b p side s o h u can =
      let (cv, ev, rv) =
        validate_block-Represents env c.coin_database s (get_transactions b) h.coins in
      let (cs, es, rs) =
        store_block-Represents env cv s (get_transactions o.parted.ancestor) rv can in
      let (c', e, spine, coins, took) =
        handle_block-overtakes c last bs b p side _ cv cs o (IsHistory-IsSpine env h) u ev es in
      (
        c',
        e,
        record {
          length_is = spine.length_is;
          last_is = spine.last_is;
          kept = spine.kept;
          linked = spine.linked;
          coins = rw coins rs;
          ready = spine.ready;
        },
        took,
      )
