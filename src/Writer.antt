-- ===== src/Writer.antt =====
-- core/src/chain_writer/chain_writer.cpp: blocks and undo blocks appended to files "data/blocks<n>.data"
-- and "data/undo_blocks<n>.data", and read back from a `FileInfo`. The file system is a directory
-- flag and a map from paths to contents. Short writes are not modelled.
-- `none` at the outside is a fault; `none` for a `FileInfo` is the null pointer.
pub mod Append
pub mod Blocks
pub mod Undos
pub mod Store
pub mod Paths
pub mod Ranged
use crypt_bank.Prelude.{
  ℕ, ◌+◌, ◌-◌, ◌%◌, ◌^◌, Bool, true, ◌&&◌, Option, none, some, List, [], ◌∷◌, ◌++◌, map, ltb, leb,
  nat_beq, if◌then◌else◌, length, take, drop, Bytes, bytes_eq, ◌>>=◌,
}
use crypt_bank.Prelude.Map.{Map, find, assign}
use crypt_bank.Text.{to_string}
use crypt_bank.Primitives.{TransactionInput, TransactionOutput, Transaction, Block, serialize_block}
use crypt_bank.Records.{
  UndoCoinRecord, UndoBlock, FileInfo, new_undo_coin_record, new_undo_block, new_file_info,
  BlockRecord, new_block_record, serialize_undo_block,
}
use crypt_bank.Env.{Env, transaction_hash}

pub record FileSystem : Type 0 where
  pub has_directory : Bool
  pub files : Map Bytes Bytes

pub record ChainWriter : Type 0 where
  pub current_block_file_number : ℕ
  pub current_block_offset : ℕ
  pub current_undo_file_number : ℕ
  pub current_undo_offset : ℕ

abbrev pub max_block_file_size : ℕ
max_block_file_size = 1000

abbrev pub max_undo_file_size : ℕ
max_undo_file_size = 1000

abbrev pub new_writer : ChainWriter
new_writer = record {
  current_block_file_number = 0;
  current_block_offset = 0;
  current_undo_file_number = 0;
  current_undo_offset = 0;
}

-- "data", "blocks", "undo_blocks" and "data"
abbrev pub data_directory : Bytes
data_directory = b'd' ∷ b'a' ∷ b't' ∷ b'a' ∷ []

abbrev pub block_filename : Bytes
block_filename = b'b' ∷ b'l' ∷ b'o' ∷ b'c' ∷ b'k' ∷ b's' ∷ []

abbrev pub undo_filename : Bytes
undo_filename = b'u' ∷ b'n' ∷ b'd' ∷ b'o' ∷ b'_' ∷ b'b' ∷ b'l' ∷ b'o' ∷ b'c' ∷ b'k' ∷ b's' ∷ []

abbrev pub file_extension : Bytes
file_extension = b'd' ∷ b'a' ∷ b't' ∷ b'a' ∷ []

-- What stands before the number, and what behind it.
abbrev path_head : Bytes → Bytes
path_head filename = data_directory ++ (b'/' ∷ filename)

abbrev path_tail : Bytes
path_tail = b'.' ∷ file_extension

unfoldable pub block_path : ℕ → Bytes
block_path number = path_head block_filename ++ (to_string number ++ path_tail)

unfoldable pub undo_path : ℕ → Bytes
undo_path number = path_head undo_filename ++ (to_string number ++ path_tail)

-- What a path holds; a missing file has no content.
abbrev pub content : Option Bytes → Bytes
content none = []
content (some s) = s

-- The vectors that `make_undo_block` declares outside its loop, and never clears.
pub record UndoVectors : Type 0 where
  pub utxo_index : List ℕ
  pub amounts : List ℕ
  pub public_keys : List ℕ

input_indices : List TransactionInput → List ℕ
input_indices = map (λ i. i.utxo_index)

output_amounts : List TransactionOutput → List ℕ
output_amounts = map (λ o. o.amount)

output_keys : List TransactionOutput → List ℕ
output_keys = map (λ o. o.public_key)

-- `max - offset` is an `int`, compared with the `uint32_t` N as an unsigned number.
abbrev pub room : ℕ → ℕ → ℕ
room max_size offset = (max_size + 2 ^ 32 - offset) % 2 ^ 32

module _ (env : Env) where
  unfoldable pub make_undo_records : UndoVectors → List Transaction → List ℕ × List UndoCoinRecord
  unfolding input_indices output_amounts output_keys
  make_undo_records v [] = ([], [])
  make_undo_records v (t ∷ ts) =
      let utxo_index = v.utxo_index ++ input_indices t.transaction_inputs in
      let amounts = v.amounts ++ output_amounts t.transaction_outputs in
      let public_keys = v.public_keys ++ output_keys t.transaction_outputs in
      let (hashes, records) =
        make_undo_records
          (record { utxo_index = utxo_index; amounts = amounts; public_keys = public_keys }) ts in
      (
        transaction_hash env t ∷ hashes,
        new_undo_coin_record t.version utxo_index amounts public_keys ∷ records,
      )

  unfoldable pub make_undo_block : Block → UndoBlock
  unfolding make_undo_records
  make_undo_block b =
      let (hashes, records) =
        make_undo_records (record { utxo_index = []; amounts = []; public_keys = [] })
          b.transactions in
      new_undo_block hashes records

  -- `fopen(path, "ab")`, `fwrite` of the text and its closing 0 byte, and `fclose`; `none` where
  -- `fopen` returns null.
  unfoldable pub append_file : FileSystem → Bytes → Bytes → Option FileSystem
  append_file fs path s =
      if fs.has_directory && env.may_append path
      then some (record fs {
        files = assign path (content (find path fs.files) ++ (s ++ (0 ∷ []))) fs.files;
      })
      else none

  unfoldable pub write_block :
      ChainWriter → FileSystem → Bytes → Option FileInfo × ChainWriter × FileSystem
  unfolding block_path
  write_block w fs serialized_block =
      let n = (length serialized_block + 1) % 2 ^ 32 in
      let full = leb (room max_block_file_size w.current_block_offset) n in
      let offset = if full then 0 else w.current_block_offset in
      let number =
        if full then (w.current_block_file_number + 1) % 2 ^ 16 else w.current_block_file_number in
      let w' = record w { current_block_offset = offset; current_block_file_number = number } in
      let fs' = record fs { has_directory = true } in
      elim (append_file fs' (block_path number) serialized_block) [
        | none ↦ (none, w', fs')
        | some fs'' ↦ (
          some (new_file_info (block_path number) offset ((offset + n) % 2 ^ 16)),
          record w' { current_block_offset = (offset + n) % 2 ^ 16 },
          fs'',
        )
      ]

  unfoldable pub write_undo_block :
      ChainWriter → FileSystem → Bytes → Option FileInfo × ChainWriter × FileSystem
  unfolding undo_path
  write_undo_block w fs serialized_block =
      let n = (length serialized_block + 1) % 2 ^ 32 in
      let full = ltb (room max_undo_file_size w.current_undo_offset) n in
      let offset = if full then 0 else w.current_undo_offset in
      let number =
        if full then (w.current_undo_file_number + 1) % 2 ^ 16 else w.current_undo_file_number in
      let w' = record w { current_undo_offset = offset; current_undo_file_number = number } in
      elim (append_file fs (undo_path number) serialized_block) [
        | none ↦ (none, w', fs)
        | some fs' ↦ (
          some (new_file_info (undo_path number) offset ((offset + n) % 2 ^ 16)),
          record w' { current_undo_offset = (offset + n) % 2 ^ 16 },
          fs',
        )
      ]

  -- A null `FileInfo` is dereferenced.
  unfoldable pub store_block :
      ChainWriter → FileSystem → Block → ℕ → Option (BlockRecord × ChainWriter × FileSystem)
  store_block w fs b height =
      let undo_block = make_undo_block b in
      let (block_info, w', fs') = write_block w fs (serialize_block env.proto b) in
      do
        serialized_undo_block ← serialize_undo_block env.proto undo_block
        let (undo_info, w'', fs'') = write_undo_block w' fs' serialized_undo_block
        block_file ← block_info
        undo_file ← undo_info
        some (
          new_block_record b.block_header (length b.transactions % 2 ^ 32) height block_file
              undo_file,
          w'',
          fs'',
        )

-- `fread` and the string made of all but the last byte read. A negative length is no array size,
-- length 0 makes a string of `size_t(-1)` bytes, and bytes that the file lacks are indeterminate.
read_content : Bytes → ℕ → ℕ → Option Bytes
read_content s start length' =
    if nat_beq length' 0
    then none
    else if leb (start + (length' - 1)) (length s)
    then some (take (length' - 1) (drop start s))
    else none

-- Where the file does not open the result is the empty string.
unfoldable pub read_block : FileSystem → FileInfo → Option Bytes
unfolding read_content
read_block fs location =
    if ltb location.end location.start then none else elim (find location.file_name fs.files) [
      | none ↦ some []
      | some s ↦ read_content s location.start (location.end - location.start)
    ]

unfoldable pub read_undo_block : FileSystem → FileInfo → Option Bytes
unfolding read_block
read_undo_block fs location = read_block fs location
