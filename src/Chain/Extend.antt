-- ===== src/Chain/Extend.antt =====
-- A block that goes on the active chain is the last block, and is found under its hash.
use crypt_bank.Prelude.{ℕ, ◌%◌, ◌^◌, ◌≡◌, refl, ap, ◌∙◌, Option, some, arith, length, Bytes}
use crypt_bank.Proto.{IsU32}
use crypt_bank.Primitives.{Block, serialize_block}
use crypt_bank.Primitives.InRange.{IsBlock}
use crypt_bank.Primitives.RoundTrip.{deserialize_block-serialize_block}
use crypt_bank.Records.{BlockRecord, new_block_record}
use crypt_bank.Records.InRange.{IsBlockRecord}
use crypt_bank.Env.{Env}
use crypt_bank.BlockInfo.Lookup.{record_at, get_block_record-record_at}
use crypt_bank.Writer.{ChainWriter, FileSystem, read_block}
use crypt_bank.Writer.Append.{read_block-Stored}
use crypt_bank.Writer.Store.{StoredBlock}
use crypt_bank.Writer.Paths.{block_path-IsAscii, undo_path-IsAscii}
use crypt_bank.Chain.{Chain, block_location, look_up, get_block, get_chain_length}

-- The record of a stored block is in the range of its types.
pub record-IsBlockRecord :
    (env : Env) (b : Block) (height : ℕ) (u : Bytes) (w : ChainWriter) (fs : FileSystem)
    (result : Option (BlockRecord × ChainWriter × FileSystem))
    (stored : StoredBlock env b height u w fs result)
    → IsBlock b
    → IsU32 height
    → IsBlockRecord (
        new_block_record b.block_header
          (length b.transactions % 2 ^ 32)
          height
          stored.info
          stored.undo_info)
unfolding new_block_record
record-IsBlockRecord env b height u w fs result stored h hh = record {
  block_header = h.block_header;
  height = hh;
  num_transactions = omega arith;
  block_file_stored = rw stored.block_file.1 (block_path-IsAscii stored.block_file.0);
  undo_file_stored = rw stored.undo_file.1 (undo_path-IsAscii stored.undo_file.0);
  block_offset_start = omega (arith, stored.block_end, stored.block_stored.end);
  block_offset_end = omega (arith, stored.block_end);
  undo_offset_start = omega (arith, stored.undo_end, stored.undo_stored.end);
  undo_offset_end = omega (arith, stored.undo_end);
}

-- Under the hash are the height and the parent of the block, and the block itself.
pub record Holds (env : Env) (c : Chain) (hash : ℕ) (b : Block) (height : ℕ) : Type 0 where
  pub at_height : (get_chain_length env c hash).0 ≡ height
  pub at_parent :
      (look_up env c hash).0.block_header.previous_block_hash ≡ b.block_header.previous_block_hash
  pub in_file : (c' : Chain) × (get_block env c hash ≡ some (some b, c'))

module _ (env : Env) (c : Chain) (hash : ℕ) (b : Block) (height : ℕ) (u : Bytes) (w : ChainWriter)
    (fs : FileSystem) (result : Option (BlockRecord × ChainWriter × FileSystem))
    (stored : StoredBlock env b height u w fs result) (in_range : IsBlock b)
    (found : record_at env.proto c.block_info_database hash
      ≡ new_block_record b.block_header
          (length b.transactions % 2 ^ 32)
          height
          stored.info
          stored.undo_info)
    (same_files : c.file_system.files ≡ stored.file_system.files) where
  looked_up :
      (look_up env c hash).0
      ≡ new_block_record b.block_header
          (length b.transactions % 2 ^ 32)
          height
          stored.info
          stored.undo_info
  unfolding look_up
  looked_up = get_block_record-record_at env.proto c.block_info_database hash ∙ found

  file-look_up : (look_up env c hash).1.file_system ≡ c.file_system
  unfolding look_up
  file-look_up = refl

  block_read :
      read_block (look_up env c hash).1.file_system (block_location (look_up env c hash).0)
      ≡ some (serialize_block env.proto b)
  block_read = rw looked_up (
      unfold new_block_record in
      read_block-Stored (look_up env c hash).1.file_system stored.info (serialize_block env.proto b)
        (rw (file-look_up, same_files) stored.block_stored))

  block_got : get_block env c hash ≡ some (some b, (look_up env c hash).1)
  unfolding get_block
  block_got = rw block_read (
      ap (λ o. some (o, (look_up env c hash).1))
        (deserialize_block-serialize_block env.proto b in_range))

  pub Holds-stored : Holds env c hash b height
  unfolding get_chain_length new_block_record
  Holds-stored = record {
    at_height = ap (λ r. r.height) looked_up;
    at_parent = ap (λ r. r.block_header.previous_block_hash) looked_up;
    in_file = ((look_up env c hash).1, block_got);
  }
