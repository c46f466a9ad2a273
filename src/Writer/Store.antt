-- ===== src/Writer/Store.antt =====
-- `store_block` from a writer whose positions are current: both texts are stored, the record says
-- where, and the positions are current again.
use crypt_bank.Prelude.{
  ℕ, ◌+◌, ◌%◌, ◌^◌, ◌≤◌, ◌<◌, ◌≡◌, sym, ap, ◌∙◌, ◌≢◌, true, Option, some, [], ◌∷◌, arith, length,
  drop, Bytes, bytes_eq,
}
use crypt_bank.Prelude.Map.{find}
use crypt_bank.Primitives.{Block, serialize_block}
use crypt_bank.Records.{FileInfo, BlockRecord, new_block_record, serialize_undo_block}
use crypt_bank.Env.{Env}
use crypt_bank.Writer.{
  FileSystem, ChainWriter, block_path, undo_path, append_file, make_undo_block, write_block,
  write_undo_block, store_block, read_block,
}
use crypt_bank.Writer.Append.{Stored, IsCurrent, read_block-Stored}
use crypt_bank.Writer.Blocks.{write_block-Wrote}
use crypt_bank.Writer.Undos.{
  write_undo_block-Wrote, Appends-Stored, Appends-find, Appends-IsCurrent, write_block-Appends,
  write_undo_block-Appends,
}

-- Both positions of the writer are the ends of the current files.
pub record IsReady (w : ChainWriter) (fs : FileSystem) : Type 0 where
  pub block : IsCurrent block_path w.current_block_file_number w.current_block_offset fs.files
  pub undo : IsCurrent undo_path w.current_undo_file_number w.current_undo_offset fs.files
  pub block_offset : w.current_block_offset ≤ 1000
  pub undo_offset : w.current_undo_offset ≤ 1000

abbrev first : Bytes → ℕ
first [] = 0
first (c ∷ cs) = c

block_path-ne-undo_path : (n m : ℕ) → block_path n ≢ undo_path m
unfolding block_path undo_path
block_path-ne-undo_path n m e = absurd (omega (arith, ap (λ p. first (drop 5 p)) e))

-- Where every append opens and the file number has room, a text that fits a file and is written by
-- a writer whose position is current is what a read of the returned location gives, and a text
-- stored before is still read back.
pub read_block-write_block :
    (env : Env) (w : ChainWriter) (fs : FileSystem) (s : Bytes) (location : FileInfo) (t : Bytes)
    → ((p : Bytes) → env.may_append p ≡ true)
    → IsCurrent block_path w.current_block_file_number w.current_block_offset fs.files
    → w.current_block_offset ≤ 1000
    → w.current_block_file_number + 1 < 2 ^ 16
    → length s + 1 < 1000
    → Stored fs.files location t
    → (info : FileInfo) × ((write_block env w fs s).0 ≡ some info)
      × (read_block (write_block env w fs s).2 info ≡ some s)
      × (read_block (write_block env w fs s).2 location ≡ some t)
read_block-write_block env w fs s location t may current below number small stored =
    let wrote = write_block-Wrote env may w fs s small current below number in
    (
      wrote.location,
      wrote.returned,
      read_block-Stored _ wrote.location s wrote.stored,
      read_block-Stored _ location t
          (Appends-Stored block_path fs.files _ location t (write_block-Appends env w fs s) stored),
    )

-- What the writes leave alone.
undo-write_block :
    (env : Env) (w : ChainWriter) (fs : FileSystem) (s : Bytes)
    → ((write_block env w fs s).1.current_undo_file_number ≡ w.current_undo_file_number)
      × ((write_block env w fs s).1.current_undo_offset ≡ w.current_undo_offset)
      × ((write_block env w fs s).2.has_directory ≡ true)
unfolding write_block append_file
undo-write_block env w fs s = (ground arith, ground arith, ground arith)

block-write_undo_block :
    (env : Env) (w : ChainWriter) (fs : FileSystem) (s : Bytes)
    → ((write_undo_block env w fs s).1.current_block_file_number ≡ w.current_block_file_number)
      × ((write_undo_block env w fs s).1.current_block_offset ≡ w.current_block_offset)
unfolding write_undo_block
block-write_undo_block env w fs s = (ground arith, ground arith)

pub block_number-write_block :
    (env : Env) (w : ChainWriter) (fs : FileSystem) (s : Bytes)
    → (write_block env w fs s).1.current_block_file_number ≤ w.current_block_file_number + 1
unfolding write_block
block_number-write_block env w fs s = ground arith

store_block-eq :
    (env : Env) (w : ChainWriter) (fs : FileSystem) (b : Block) (height : ℕ) (u : Bytes)
    (info undo_info : FileInfo) (w1 w2 : ChainWriter) (fs1 fs2 : FileSystem)
    → write_block env w fs (serialize_block env.proto b) ≡ (some info, w1, fs1)
    → serialize_undo_block env.proto (make_undo_block env b) ≡ some u
    → write_undo_block env w1 fs1 u ≡ (some undo_info, w2, fs2)
    → store_block env w fs b height
      ≡ some (
        new_block_record b.block_header (length b.transactions % 2 ^ 32) height info undo_info,
        w2,
        fs2,
      )
unfolding store_block
store_block-eq env w fs b height u info undo_info w1 w2 fs1 fs2 e1 e2 e3 = rw e1 (rw e2 (rw e3))

undo-after_block :
    (env : Env) (w : ChainWriter) (fs : FileSystem) (s : Bytes)
    → IsReady w fs
    → IsCurrent undo_path w.current_undo_file_number w.current_undo_offset
        (write_block env w fs s).2.files
undo-after_block env w fs s ready =
    Appends-IsCurrent block_path undo_path _ _ fs.files _ block_path-ne-undo_path
      (write_block-Appends env w fs s) ready.undo

pub Stored-write_block :
    (env : Env) (w : ChainWriter) (fs : FileSystem) (s : Bytes) (location : FileInfo) (t : Bytes)
    → Stored fs.files location t
    → Stored (write_block env w fs s).2.files location t
Stored-write_block env w fs s location t =
    Appends-Stored block_path fs.files _ location t (write_block-Appends env w fs s)

-- A writer that is ready is ready again after a block that fits a file.
pub write_block-IsReady :
    (env : Env) (may : (p : Bytes) → env.may_append p ≡ true) (w : ChainWriter) (fs : FileSystem)
    (s : Bytes)
    → IsReady w fs
    → w.current_block_file_number + 1 < 2 ^ 16
    → length s + 1 < 1000
    → IsReady (write_block env w fs s).1 (write_block env w fs s).2
write_block-IsReady env may w fs s ready number small =
    let wrote = write_block-Wrote env may w fs s small ready.block ready.block_offset number in
    let kept = undo-write_block env w fs s in
    record {
      block = wrote.current;
      undo = rw (kept.0, kept.1) (undo-after_block env w fs s ready);
      block_offset = wrote.below;
      undo_offset = rw kept.1 ready.undo_offset;
    }

-- A block that was stored: where its record says, both texts stand, so do the texts stored before,
-- the file number of the blocks is at most one higher, and the writer is ready again.
pub record StoredBlock (env : Env) (b : Block) (height : ℕ) (u : Bytes) (w : ChainWriter)
    (fs : FileSystem) (result : Option (BlockRecord × ChainWriter × FileSystem)) : Type 0 where
  pub info : FileInfo
  pub undo_info : FileInfo
  pub writer : ChainWriter
  pub file_system : FileSystem
  pub returned :
      result
      ≡ some (
        new_block_record b.block_header (length b.transactions % 2 ^ 32) height info undo_info,
        writer,
        file_system,
      )
  pub block_file : (n : ℕ) × (info.file_name ≡ block_path n)
  pub undo_file : (n : ℕ) × (undo_info.file_name ≡ undo_path n)
  pub block_end : info.end ≤ 1000
  pub undo_end : undo_info.end ≤ 1000
  pub block_stored : Stored file_system.files info (serialize_block env.proto b)
  pub undo_stored : Stored file_system.files undo_info u
  pub ready : IsReady writer file_system
  pub block_number : writer.current_block_file_number ≤ w.current_block_file_number + 1
  pub others :
      (path : Bytes)
      → ((n : ℕ) → block_path n ≢ path)
      → ((n : ℕ) → undo_path n ≢ path)
      → find path file_system.files ≡ find path fs.files
  pub keeps :
      (location : FileInfo) (t : Bytes)
      → Stored fs.files location t
      → Stored file_system.files location t

module _ (env : Env) (may : (p : Bytes) → env.may_append p ≡ true) (w : ChainWriter)
    (fs : FileSystem) (b : Block) (height : ℕ) (u : Bytes) (ready : IsReady w fs)
    (block_number : w.current_block_file_number + 1 < 2 ^ 16)
    (undo_number : w.current_undo_file_number + 1 < 2 ^ 16)
    (block_small : length (serialize_block env.proto b) + 1 < 1000)
    (undo_made : serialize_undo_block env.proto (make_undo_block env b) ≡ some u)
    (undo_small : length u + 1 ≤ 1000) where
  -- Where every append opens, both file numbers have room and both texts of the block fit a file,
  -- `store_block` from a writer that is ready does not fault: both texts stand in the files where
  -- the returned record says, the record has the block's header, height and number of transactions,
  -- every text that was stored still stands, the files of other
  -- names are as they were, the file number of the blocks is at most one higher, and the writer is
  -- ready again.
  pub store_block-StoredBlock : StoredBlock env b height u w fs (store_block env w fs b height)
  store_block-StoredBlock =
      let s : Bytes = serialize_block env.proto b in
      let w1 : ChainWriter = (write_block env w fs s).1 in
      let fs1 : FileSystem = (write_block env w fs s).2 in
      let wrote =
        write_block-Wrote env may w fs s block_small ready.block ready.block_offset block_number in
      let kept = undo-write_block env w fs s in
      let undo_wrote =
        write_undo_block-Wrote env may w1 fs1 u undo_small kept.2
          (rw (kept.0, kept.1) (undo-after_block env w fs s ready)) (rw kept.1 ready.undo_offset)
          (rw kept.0 undo_number) in
      let kept' = block-write_undo_block env w1 fs1 u in
      record {
        info = wrote.location;
        undo_info = undo_wrote.location;
        writer = (write_undo_block env w1 fs1 u).1;
        file_system = (write_undo_block env w1 fs1 u).2;
        returned =
            store_block-eq env w fs b height u wrote.location undo_wrote.location w1 _ fs1 _
              (ap (λ o. (o, w1, fs1)) wrote.returned) undo_made
              (ap (λ o. (o, (write_undo_block env w1 fs1 u).1, (write_undo_block env w1 fs1 u).2))
                undo_wrote.returned);
        block_file = (w1.current_block_file_number, wrote.named);
        undo_file = (_, undo_wrote.named);
        block_end = omega (arith, wrote.ends, wrote.below);
        undo_end = omega (arith, undo_wrote.ends, undo_wrote.below);
        block_stored =
            Appends-Stored undo_path fs1.files _ wrote.location s
              (write_undo_block-Appends env w1 fs1 u) wrote.stored;
        undo_stored = undo_wrote.stored;
        block_number = rw kept'.0 (block_number-write_block env w fs s);
        others = λ path not_block not_undo.
            Appends-find undo_path fs1.files _ path not_undo (write_undo_block-Appends env w1 fs1 u)
            ∙ Appends-find block_path fs.files _ path not_block (write_block-Appends env w fs s);
        keeps = λ location t before.
            Appends-Stored undo_path fs1.files _ location t (write_undo_block-Appends env w1 fs1 u)
              (Appends-Stored block_path fs.files _ location t (write_block-Appends env w fs s)
                before);
        ready = record {
          block =
              rw (kept'.0, kept'.1)
                (Appends-IsCurrent undo_path block_path _ _ fs1.files _
                  (λ n m e. block_path-ne-undo_path m n (sym e))
                  (write_undo_block-Appends env w1 fs1 u) wrote.current);
          undo = undo_wrote.current;
          block_offset = rw kept'.1 wrote.below;
          undo_offset = undo_wrote.below;
        };
      }
