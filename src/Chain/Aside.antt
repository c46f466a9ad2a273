-- ===== src/Chain/Aside.antt =====
-- The chain after a block was stored that does not go on top: what was known of the blocks stays, and
-- the new one is kept too.
use crypt_bank.Prelude.{
  ℕ, ◌+◌, ◌^◌, ◌≤◌, ◌<◌, ◌≡◌, ap, ◌∙◌, ◌≢◌, true, List, [], ◌∷◌, length, Bytes, bytes_eq,
}
use mathlib.Core.Path.{subst}
use crypt_bank.Primitives.{Block, serialize_block}
use crypt_bank.Primitives.InRange.{IsBlock}
use crypt_bank.Records.{new_file_info, BlockRecord, new_block_record}
use crypt_bank.Env.{Env, block_hash}
use crypt_bank.BlockInfo.{BlockInfoDatabase}
use crypt_bank.BlockInfo.Lookup.{
  record_at, record_at-store_block_record_self, record_at-store_block_record_ne,
}
use crypt_bank.Writer.{block_path, write_block}
use crypt_bank.Prelude.Map.{find}
use crypt_bank.Writer.Undos.{Appends-find, write_block-Appends}
use crypt_bank.Writer.Store.{
  block_number-write_block, IsReady, Stored-write_block, write_block-IsReady,
}
use crypt_bank.Chain.{Chain, undo_location, look_up}
use crypt_bank.Chain.Queries.{look_up-SameCore}
use crypt_bank.Chain.Side.{height_above, wrote, side_chain, side_record, side_record-IsBlockRecord}
use crypt_bank.Chain.History.{Kept, KeptAll-later, IsFresh, IsFresh-prefix, IsSpine}
use crypt_bank.Chain.Walk.{ChainKeeps, ChainKeeps-look_up}
use crypt_bank.Chain.Undone.{Undoable, AllUndone-SameCore}
use crypt_bank.Chain.Recorded.{UndoneBy-later}

module _ (env : Env) where
  -- The disk has room for a block that is not to go on top.
  pub record Fits (c : Chain) (b : Block) : Type 0 where
    pub may : (p : Bytes) → env.may_append p ≡ true
    pub number : c.chain_writer.current_block_file_number + 1 < 2 ^ 16
    pub small : length (serialize_block env.proto b) + 1 < 1000

  module _ (c : Chain) (b : Block) (hb : IsBlock b) (fits : Fits c b)
      (ready : IsReady c.chain_writer c.file_system) where
    abbrev pub aside : Chain
    aside = side_chain env c b hb fits.may ready.block ready.block_offset fits.number fits.small

    abbrev aside_record : BlockRecord
    aside_record =
        side_record env c b hb fits.may ready.block ready.block_offset fits.number fits.small

    abbrev looked : BlockInfoDatabase
    looked = (look_up env c b.block_header.previous_block_hash).1.block_info_database

    pub aside_number :
        aside.chain_writer.current_block_file_number ≤ c.chain_writer.current_block_file_number + 1
    aside_number =
        block_number-write_block env c.chain_writer c.file_system (serialize_block env.proto b)

    pub aside-KeptAll :
        (bs : List Block)
        → IsFresh env (block_hash env b) bs
        → ChainKeeps env c bs
        → ChainKeeps env aside bs
    unfolding look_up
    aside-KeptAll bs fresh k =
        KeptAll-later env looked c.file_system
          (write_block env c.chain_writer c.file_system (serialize_block env.proto b)).2
          (block_hash env b) aside_record bs
          (Stored-write_block env c.chain_writer c.file_system (serialize_block env.proto b)) fresh
          (ChainKeeps-look_up env c b.block_header.previous_block_hash bs k)

    pub aside-Kept : Kept env aside.block_info_database aside.file_system b (height_above env c b)
    unfolding new_block_record
    aside-Kept =
        let e = record_at-store_block_record_self env.proto looked (block_hash env b) aside_record (
          side_record-IsBlockRecord env c b hb fits.may ready.block ready.block_offset fits.number
            fits.small) in
        record {
          in_range = hb;
          height_is = ap (λ r. r.height) e;
          parent_is = ap (λ r. r.block_header.previous_block_hash) e;
          in_file =
              rw e
                (wrote env c b hb fits.may ready.block ready.block_offset fits.number
                  fits.small).stored;
        }

    -- The record of the new block names no undo file.
    pub aside_undo_file :
        undo_location (record_at env.proto aside.block_info_database (block_hash env b))
        ≡ new_file_info [] 0 0
    unfolding new_block_record
    aside_undo_file = ap undo_location (
        record_at-store_block_record_self env.proto looked (block_hash env b) aside_record (
          side_record-IsBlockRecord env c b hb fits.may ready.block ready.block_offset fits.number
            fits.small))

    pub aside_find :
        (path : Bytes)
        → ((n : ℕ) → block_path n ≢ path)
        → find path aside.file_system.files ≡ find path c.file_system.files
    aside_find path other =
        Appends-find block_path c.file_system.files _ path other
          (write_block-Appends env c.chain_writer c.file_system (serialize_block env.proto b))

    -- The records of other blocks stay.
    pub aside_record_at :
        (a : Block)
        → block_hash env b ≢ block_hash env a
        → record_at env.proto aside.block_info_database (block_hash env a)
          ≡ record_at env.proto c.block_info_database (block_hash env a)
    aside_record_at a other =
        record_at-store_block_record_ne env.proto looked (block_hash env b) (block_hash env a)
          aside_record other
        ∙ (look_up-SameCore env c b.block_header.previous_block_hash).records (block_hash env a)

    pub aside-IsSpine :
        (last : Block) (bs : List Block)
        → IsSpine env c last bs
        → IsFresh env (block_hash env b) (last ∷ bs)
        → IsSpine env aside last bs
    unfolding look_up
    aside-IsSpine last bs h fresh = record {
      length_is = h.length_is;
      last_is = h.last_is;
      kept = aside-KeptAll (last ∷ bs) fresh h.kept;
      linked = h.linked;
      ready =
          write_block-IsReady env fits.may c.chain_writer c.file_system
            (serialize_block env.proto b) ready fits.number fits.small;
    }

    pub aside-Undoable :
        (bs : List Block)
        → IsFresh env (block_hash env b) bs
        → Undoable env c bs
        → Undoable env aside bs
    unfolding look_up
    aside-Undoable bs fresh u = record {
      above = u.above;
      lowest = u.lowest;
      active_is = u.active_is;
      undos = u.undos;
      undone =
          UndoneBy-later env looked c.file_system aside.file_system (block_hash env b) aside_record
            (Stored-write_block env c.chain_writer c.file_system (serialize_block env.proto b))
            u.above u.undos
            (IsFresh-prefix env (block_hash env b) u.above (u.lowest ∷ [])
              (subst (λ t. IsFresh env (block_hash env b) t) u.active_is fresh))
            (AllUndone-SameCore env c (look_up env c b.block_header.previous_block_hash).1 u.above
              u.undos (look_up-SameCore env c b.block_header.previous_block_hash) u.undone);
      named = u.named;
    }
