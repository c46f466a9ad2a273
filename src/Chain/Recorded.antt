-- ===== src/Chain/Recorded.antt =====
-- What a block that goes on top of the active chain leaves for `get_undo_blocks_queue`.
use crypt_bank.Prelude.{
  ℕ, ◌+◌, ◌%◌, ◌^◌, ◌≤◌, ◌<◌, ◌≡◌, ap, ◌∙◌, ◌≢◌, true, some, List, [], ◌∷◌, arith, length, Bytes,
}
use mathlib.Core.Path.{subst}
use crypt_bank.Primitives.{Block, get_transactions}
use crypt_bank.Primitives.InRange.{IsBlock}
use crypt_bank.Records.{UndoBlock, FileInfo, BlockRecord, new_block_record}
use crypt_bank.Records.Truncated.{deserialize_undo_block-hashes}
use crypt_bank.Writer.Ranged.{make_undo_block-IsRanged, length-make_undo_block}
use crypt_bank.Env.{Env, block_hash}
use crypt_bank.BlockInfo.{BlockInfoDatabase, store_block_record}
use crypt_bank.BlockInfo.Lookup.{record_at-store_block_record_self, record_at-store_block_record_ne}
use crypt_bank.Coins.{CoinDatabase}
use crypt_bank.Coins.Validate.{CoinSet, covers_block}
use crypt_bank.Coins.Apply.{CanApply, apply_block}
use crypt_bank.Writer.{ChainWriter, FileSystem, make_undo_block}
use crypt_bank.Writer.Append.{Stored}
use crypt_bank.Chain.{Chain}
use crypt_bank.Chain.Handle.{handle_block}
use crypt_bank.Chain.Extend.{record-IsBlockRecord}
use crypt_bank.Chain.Active.{Storable, stored, new_record, with_block}
use crypt_bank.Chain.History.{IsFresh, IsFresh-prefix, IsHistory}
use crypt_bank.Chain.Grow.{grown_by, handle_block-grown_by, grown_by-IsHistory}
use crypt_bank.Chain.Undone.{Undone, UndoneBy, Undoable}

module _ (env : Env) where
  -- Texts stay where they stand.
  abbrev pub Keeps : FileSystem → FileSystem → Type 0
  Keeps fs fs' =
      (location : FileInfo) (t : Bytes) → Stored fs.files location t → Stored fs'.files location t

  module _ (info : BlockInfoDatabase) (fs fs' : FileSystem) (hash : ℕ) (r : BlockRecord)
      (keeps : Keeps fs fs') where
    Undone-later :
        (a : Block) (u : UndoBlock)
        → hash ≢ block_hash env a
        → Undone env info fs a u
        → Undone env (store_block_record env.proto info hash r) fs' a u
    Undone-later a u other k =
        let e = record_at-store_block_record_ne env.proto info hash (block_hash env a) r other in
        record {
          text = k.text;
          parent_is = ap (λ x. x.block_header.previous_block_hash) e ∙ k.parent_is;
          stored = rw e (keeps _ _ k.stored);
          read = k.read;
        }

    pub UndoneBy-later :
        (bs : List Block) (us : List UndoBlock)
        → IsFresh env hash bs
        → UndoneBy env info fs bs us
        → UndoneBy env (store_block_record env.proto info hash r) fs' bs us
    UndoneBy-later [] [] fresh k = tt
    UndoneBy-later [] (u ∷ us) fresh k = absurd k
    UndoneBy-later (a ∷ bs) [] fresh k = absurd k
    UndoneBy-later (a ∷ bs) (u ∷ us) (other, fresh) (ka, k) =
        (Undone-later a u other ka, UndoneBy-later bs us fresh k)

  with_block-Undone :
      (b : Block) (height : ℕ) (coins : CoinDatabase) (w : ChainWriter) (fs : FileSystem)
      (info : BlockInfoDatabase) (hb : IsBlock b) (height_range : height < 2 ^ 32)
      (storable : Storable env w fs b)
      → (let c' : Chain = with_block env b height coins w fs info hb height_range storable in
          (u : UndoBlock) × Undone env c'.block_info_database c'.file_system b u
          × (u.transaction_hashes ≡ (make_undo_block env b).transaction_hashes))
  unfolding new_block_record
  with_block-Undone b height coins w fs info hb height_range storable =
      let st = stored env b height coins w fs info hb height_range storable in
      let e =
        record_at-store_block_record_self env.proto info (block_hash env b)
          (new_record env b height coins w fs info hb height_range storable)
          (record-IsBlockRecord env b height storable.undo_text w fs _ st hb height_range) in
      let (hashes, records) = make_undo_block-IsRanged env b hb in
      let (u, read, same) =
        deserialize_undo_block-hashes env.proto (make_undo_block env b) storable.undo_text
          storable.undo_made hashes records in
      (
        u,
        record {
          text = storable.undo_text;
          parent_is = ap (λ x. x.block_header.previous_block_hash) e;
          stored = rw e st.undo_stored;
          read = read;
        },
        same,
      )

  pub grown_by-Undoable :
      (c : Chain) (b : Block) (cs : CoinDatabase) (bs : List Block) (hb : IsBlock b)
      (storable : Storable env c.chain_writer c.file_system b)
      → 1 ≤ length b.transactions
      → IsFresh env (block_hash env b) bs
      → Undoable env c bs
      → Undoable env (grown_by env c b cs hb storable) (b ∷ bs)
  grown_by-Undoable c b cs bs hb storable some_transaction fresh h =
      let height = (c.active_chain_length + 1) % 2 ^ 32 in
      let st =
        stored env b height cs c.chain_writer c.file_system c.block_info_database hb (omega arith)
          storable in
      let (u, undone, same) =
        with_block-Undone b height cs c.chain_writer c.file_system c.block_info_database hb
          (omega arith) storable in
      record {
        above = b ∷ h.above;
        lowest = h.lowest;
        active_is = ap (λ t. b ∷ t) h.active_is;
        undos = u ∷ h.undos;
        undone = (
          undone,
          UndoneBy-later c.block_info_database c.file_system st.file_system (block_hash env b) _
              st.keeps h.above h.undos
              (IsFresh-prefix env (block_hash env b) h.above (h.lowest ∷ [])
                (subst (λ t. IsFresh env (block_hash env b) t) h.active_is fresh))
              h.undone,
        );
        named = (
          omega (arith, some_transaction, ap length same, length-make_undo_block env b),
          h.named,
        );
      }

  -- On a chain made of kept blocks, of fewer than 2 ^ 31 - 1, with a set of coins, all but the lowest
  -- with undo blocks that their records name, the files hold and that name a transaction, a block in
  -- range with a transaction goes on top whose parent is the last block, whose inputs the set covers,
  -- whose transactions can be applied to the set in turn, whose hash no block of the chain has and
  -- that the disk can store: `handle_block` does not fault, the chain is made of the block and all
  -- earlier ones with the coins of the set after the block, and the new block too has such an undo
  -- block, however many more outputs than inputs its transactions have.
  pub handle_block-Undoable :
      (c : Chain) (b last : Block) (bs : List Block) (s : CoinSet)
      → IsHistory env c last bs s
      → IsBlock b
      → b.block_header.previous_block_hash ≡ block_hash env last
      → IsFresh env (block_hash env b) (last ∷ bs)
      → covers_block s (get_transactions b) ≡ true
      → CanApply env s (get_transactions b)
      → Storable env c.chain_writer c.file_system b
      → length bs + 2 < 2 ^ 31
      → 1 ≤ length b.transactions
      → Undoable env c (last ∷ bs)
      → (c' : Chain) × (handle_block env c b ≡ some c')
        × IsHistory env c' b (last ∷ bs) (apply_block env s (get_transactions b))
        × Undoable env c' (b ∷ last ∷ bs)
  handle_block-Undoable c b last bs s h hb parent fresh covered can storable room some_transaction
        u =
      let (coins, e, r) =
        handle_block-grown_by env c b last bs s h hb parent covered can storable in
      (
        grown_by env c b coins hb storable,
        e,
        grown_by-IsHistory env c b last bs s _ coins h hb parent fresh storable room r,
        grown_by-Undoable c b coins (last ∷ bs) hb storable some_transaction fresh u,
      )
