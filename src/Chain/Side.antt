-- ===== src/Chain/Side.antt =====
-- `handle_block` where the block goes on a fork that is not longer than the active chain.
use crypt_bank.Prelude.{
  ℕ, ◌+◌, ◌%◌, ◌^◌, ◌≤◌, ◌<◌, ◌≡◌, refl, ap, ◌∙◌, ◌≢◌, Bool, true, false, ◌||◌, some, [], arith,
  nat_beq, lt→ltb, ltb-eq-false, nat_beq_iff, length, Bytes,
}
use crypt_bank.Primitives.{Block, get_transactions, serialize_block}
use crypt_bank.Primitives.InRange.{IsBlock}
use crypt_bank.Primitives.RoundTrip.{
  deserialize_block-serialize_block, deserialize_header-serialize_header,
}
use crypt_bank.Records.{BlockRecord, new_block_record}
use crypt_bank.Records.InRange.{IsBlockRecord}
use crypt_bank.Env.{Env, block_hash}
use crypt_bank.BlockInfo.{store_block_record}
use crypt_bank.BlockInfo.Lookup.{get_block_record-record_at, record_at-store_block_record_self}
use crypt_bank.Coins
use crypt_bank.Coins.{CoinDatabase}
use crypt_bank.Writer.{block_path, write_block, read_block}
use crypt_bank.Writer.Append.{IsCurrent, read_block-Stored}
use crypt_bank.Writer.Blocks.{Wrote, write_block-Wrote}
use crypt_bank.Writer.Paths.{block_path-IsAscii}
use crypt_bank.Chain.{
  Chain, block_location, look_up, get_last_block_hash, get_block, get_chain_length,
}
use crypt_bank.Chain.Reorg.{take_over}
use crypt_bank.Chain.Handle.{fork_chain, handle_block}

-- The block is known under its hash, and the active chain is that of `c`.
pub record IsSide (env : Env) (c : Chain) (b : Block) (height : ℕ) (c' : Chain) : Type 0 where
  pub same_length : c'.active_chain_length ≡ c.active_chain_length
  pub same_last : c'.active_chain_last_block ≡ c.active_chain_last_block
  pub same_coins : c'.coin_database ≡ c.coin_database
  pub at_height : (get_chain_length env c' (block_hash env b)).0 ≡ height
  pub in_file : (c2 : Chain) × (get_block env c' (block_hash env b) ≡ some (some b, c2))

-- The height above the parent's.
abbrev pub height_above : Env → Chain → Block → ℕ
height_above env c b = ((look_up env c b.block_header.previous_block_hash).0.height + 1) % 2 ^ 32

module _ (env : Env) (c : Chain) (b : Block) (in_range : IsBlock b)
    (may : (p : Bytes) → env.may_append p ≡ true)
    (current : IsCurrent block_path c.chain_writer.current_block_file_number
      c.chain_writer.current_block_offset c.file_system.files)
    (below : c.chain_writer.current_block_offset ≤ 1000)
    (number : c.chain_writer.current_block_file_number + 1 < 2 ^ 16)
    (small : length (serialize_block env.proto b) + 1 < 1000) where
  abbrev pub wrote :
      Wrote block_path
        (serialize_block env.proto b)
        (write_block env c.chain_writer c.file_system
          (serialize_block env.proto b)).1.current_block_file_number
        (write_block env c.chain_writer c.file_system
          (serialize_block env.proto b)).1.current_block_offset
        (write_block env c.chain_writer c.file_system (serialize_block env.proto b)).2.files
        (write_block env c.chain_writer c.file_system (serialize_block env.proto b)).0
  wrote =
      write_block-Wrote env may c.chain_writer c.file_system (serialize_block env.proto b) small
        current below number

  abbrev pub side_record : BlockRecord
  side_record =
      new_block_record b.block_header (length b.transactions % 2 ^ 32) (height_above env c b)
        wrote.location (record { file_name = []; start = 0; end = 0 })

  pub side_record-IsBlockRecord : IsBlockRecord side_record
  unfolding new_block_record
  side_record-IsBlockRecord = record {
    block_header = in_range.block_header;
    height = omega arith;
    num_transactions = omega arith;
    block_file_stored = rw wrote.named (block_path-IsAscii _);
    undo_file_stored = tt;
    block_offset_start = omega (arith, wrote.ends, wrote.below, wrote.stored.end);
    block_offset_end = omega (arith, wrote.ends, wrote.below);
    undo_offset_start = omega arith;
    undo_offset_end = omega arith;
  }

  abbrev pub side_chain : Chain
  side_chain =
      let c1 : Chain = (look_up env c b.block_header.previous_block_hash).1 in
      record c1 {
        chain_writer =
            (write_block env c.chain_writer c.file_system (serialize_block env.proto b)).1;
        file_system =
            (write_block env c.chain_writer c.file_system (serialize_block env.proto b)).2;
        block_info_database =
            store_block_record env.proto c1.block_info_database (block_hash env b) side_record;
      }

  found : (look_up env side_chain (block_hash env b)).0 ≡ side_record
  unfolding look_up
  found =
      get_block_record-record_at env.proto side_chain.block_info_database (block_hash env b)
      ∙ record_at-store_block_record_self env.proto
          (look_up env c b.block_header.previous_block_hash).1.block_info_database
          (block_hash env b) side_record side_record-IsBlockRecord

  files_kept : (look_up env side_chain (block_hash env b)).1.file_system ≡ side_chain.file_system
  unfolding look_up
  files_kept = refl

  side_read :
      read_block
        (look_up env side_chain (block_hash env b)).1.file_system
        (block_location (look_up env side_chain (block_hash env b)).0)
      ≡ some (serialize_block env.proto b)
  side_read = rw found (
      unfold new_block_record in
      read_block-Stored (look_up env side_chain (block_hash env b)).1.file_system wrote.location
        (serialize_block env.proto b) (rw files_kept wrote.stored))

  pub side_chain-IsSide : IsSide env c b (height_above env c b) side_chain
  unfolding look_up get_block get_chain_length new_block_record
  side_chain-IsSide = record {
    same_length = refl;
    same_last = refl;
    same_coins = refl;
    at_height = ap (λ r. r.height) found;
    in_file = (
      (look_up env side_chain (block_hash env b)).1,
      rw side_read (
          ap (λ o. some (o, (look_up env side_chain (block_hash env b)).1))
            (deserialize_block-serialize_block env.proto b in_range)),
    );
  }

  fork_chain-some :
      height_above env c b ≤ c.active_chain_length
      → fork_chain env c b (block_hash env b) ≡ some side_chain
  unfolding fork_chain look_up
  fork_chain-some le = rw wrote.returned (
      rw (deserialize_header-serialize_header env.proto b.block_header in_range.block_header)
        (rw (ltb-eq-false c.active_chain_length (height_above env c b) le) refl))

  pub fork_chain-take_over :
      c.active_chain_length < height_above env c b
      → fork_chain env c b (block_hash env b) ≡ take_over env side_chain b (block_hash env b)
  unfolding fork_chain look_up
  fork_chain-take_over lt = rw wrote.returned (
      rw (deserialize_header-serialize_header env.proto b.block_header in_range.block_header)
        (rw (lt→ltb c.active_chain_length (height_above env c b) lt) refl))

pub or_true : (v : Bool) → (v || true) ≡ true
or_true true = refl
or_true false = refl

-- `handle_block` where the parent is not the last block, valid or not.
pub handle_block-fork_chain :
    (env : Env) (c : Chain) (b : Block) (valid : Bool) (validated : CoinDatabase) (last : ℕ)
    → Coins.validate_block env c.coin_database (get_transactions b) ≡ some (valid, validated)
    → get_last_block_hash env (record c { coin_database = validated }) ≡ some last
    → b.block_header.previous_block_hash ≢ last
    → handle_block env c b
      ≡ fork_chain env (record c { coin_database = validated }) b (block_hash env b)
unfolding handle_block
handle_block-fork_chain env c b valid validated last checked known other =
    let differ : nat_beq b.block_header.previous_block_hash last ≡ false =
      ground (arith, other, nat_beq_iff b.block_header.previous_block_hash last) in
    rw checked (rw known (rw differ (rw (or_true valid) refl)))

-- The result of `handle_block` on such a block, valid or not.
pub handle_block-side_chain :
    (env : Env) (c : Chain) (b : Block) (valid : Bool) (validated : CoinDatabase) (last : ℕ)
    (in_range : IsBlock b) (may : (p : Bytes) → env.may_append p ≡ true)
    (current : IsCurrent block_path c.chain_writer.current_block_file_number
      c.chain_writer.current_block_offset c.file_system.files)
    (below : c.chain_writer.current_block_offset ≤ 1000)
    (number : c.chain_writer.current_block_file_number + 1 < 2 ^ 16)
    (small : length (serialize_block env.proto b) + 1 < 1000)
    → Coins.validate_block env c.coin_database (get_transactions b) ≡ some (valid, validated)
    → get_last_block_hash env (record c { coin_database = validated }) ≡ some last
    → b.block_header.previous_block_hash ≢ last
    → height_above env c b ≤ c.active_chain_length
    → handle_block env c b
      ≡ some (
          side_chain env
            (record c { coin_database = validated })
            b
            in_range
            may
            current
            below
            number
            small)
unfolding look_up
handle_block-side_chain env c b valid validated last h may current below number small checked known
      other le =
    handle_block-fork_chain env c b valid validated last checked known other
    ∙ fork_chain-some env (record c { coin_database = validated }) b h may current below number
        small le

-- A block in range whose parent is not the last block is stored whether it is valid or not, where its
-- validation and the read of the last block do not fault, every append opens, the text fits a file,
-- the writer's position is current and its file number has room. If its height, one above what the
-- parent's record says, is at most the length, then the length and the last block stay, the coin
-- database is the one that the validation leaves, and under the block's hash are its height and the
-- block itself, read back from the file.
pub handle_block-IsSide :
    (env : Env) (c : Chain) (b : Block) (valid : Bool) (validated : CoinDatabase) (last : ℕ)
    → IsBlock b
    → Coins.validate_block env c.coin_database (get_transactions b) ≡ some (valid, validated)
    → get_last_block_hash env (record c { coin_database = validated }) ≡ some last
    → b.block_header.previous_block_hash ≢ last
    → ((p : Bytes) → env.may_append p ≡ true)
    → IsCurrent block_path c.chain_writer.current_block_file_number
        c.chain_writer.current_block_offset c.file_system.files
    → c.chain_writer.current_block_offset ≤ 1000
    → c.chain_writer.current_block_file_number + 1 < 2 ^ 16
    → length (serialize_block env.proto b) + 1 < 1000
    → height_above env c b ≤ c.active_chain_length
    → (c' : Chain) × (handle_block env c b ≡ some c')
      × IsSide env (record c { coin_database = validated }) b (height_above env c b) c'
unfolding look_up
handle_block-IsSide env c b valid validated last h checked known other may current below number
      small le =
    let c1 : Chain = record c { coin_database = validated } in
    (
      side_chain env c1 b h may current below number small,
      handle_block-side_chain env c b valid validated last h may current below number small checked
          known other le,
      side_chain-IsSide env c1 b h may current below number small,
    )
