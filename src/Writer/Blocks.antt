-- ===== src/Writer/Blocks.antt =====
-- `write_block` and `write_undo_block`: what is written is read back, at once and after any later
-- write, as long as a text with its 0 byte is below the maximal file size.
use native.Mathlib.Nat.{mod-eq_of_lt}
use native.Mathlib.Decide.{dec_lt}
use crypt_bank.Prelude.{
  ℕ, ◌+◌, ◌^◌, ◌≤◌, ◌<◌, ◌≡◌, refl, true, Option, some, arith, length, Bytes, bytes_eq,
}
use crypt_bank.Prelude.Map.{Map}
use crypt_bank.Records.{FileInfo}
use crypt_bank.Env.{Env}
use crypt_bank.Writer.{FileSystem, ChainWriter, block_path, append_file, write_block}
use crypt_bank.Writer.Append.{
  Stored, IsCurrent, next-IsCurrent, appended, appended-IsCurrent, appended-Stored_self,
  block_path_injective,
}

-- A write that succeeded: its text is stored at the location, and the position is current.
pub record Wrote (path : ℕ → Bytes) (s : Bytes) (number offset : ℕ) (files : Map Bytes Bytes)
    (o : Option FileInfo) : Type 0 where
  pub location : FileInfo
  pub returned : o ≡ some location
  pub stored : Stored files location s
  pub current : IsCurrent path number offset files
  pub below : offset ≤ 1000
  pub named : location.file_name ≡ path number
  pub ends : location.end ≡ offset

pub append_file-open :
    (env : Env) (fs : FileSystem) (path s : Bytes)
    → fs.has_directory ≡ true
    → env.may_append path ≡ true
    → append_file env fs path s ≡ some (record fs { files = appended path s fs.files })
unfolding append_file
append_file-open env fs path s h k = rw h (rw k)

abbrev pub at_location : Bytes → ℕ → ℕ → FileInfo
at_location path start end = record { file_name = path; start = start; end = end }

pub Wrote-appended :
    (path : ℕ → Bytes) (injective : (n m : ℕ) → path n ≡ path m → n ≡ m) (number offset : ℕ)
    (files : Map Bytes Bytes) (s : Bytes)
    → IsCurrent path number offset files
    → offset + (length s + 1) ≤ 1000
    → Wrote path s number
        (offset + (length s + 1))
        (appended (path number) s files)
        (some (at_location (path number) offset (offset + (length s + 1))))
Wrote-appended path injective number offset files s h below = record {
  location = at_location (path number) offset (offset + (length s + 1));
  returned = refl;
  stored = appended-Stored_self path injective number offset files s h;
  current = appended-IsCurrent path injective number offset files s h;
  below = below;
  named = refl;
  ends = refl;
}

module _ (env : Env) (may : (p : Bytes) → env.may_append p ≡ true) (w : ChainWriter)
    (fs : FileSystem) (s : Bytes) (small : length s + 1 < 1000) where
  write_block-fits :
      w.current_block_offset + (length s + 1) < 1000
      → write_block env w fs s ≡ (
        some (
            at_location
              (block_path w.current_block_file_number)
              w.current_block_offset
              (w.current_block_offset + (length s + 1))),
        record w { current_block_offset = w.current_block_offset + (length s + 1) },
        record {
          has_directory = true;
          files = appended (block_path w.current_block_file_number) s fs.files;
        },
      )
  unfolding write_block
  write_block-fits fits = ground (
    arith,
    append_file-open env (record fs { has_directory = true })
        (block_path w.current_block_file_number) s refl (may _),
  )

  write_block-full :
      1000 ≤ w.current_block_offset + (length s + 1)
      → w.current_block_offset ≤ 1000
      → w.current_block_file_number + 1 < 2 ^ 16
      → write_block env w fs s ≡ (
        some (at_location (block_path (w.current_block_file_number + 1)) 0 (0 + (length s + 1))),
        record w {
          current_block_file_number = w.current_block_file_number + 1;
          current_block_offset = 0 + (length s + 1);
        },
        record {
          has_directory = true;
          files = appended (block_path (w.current_block_file_number + 1)) s fs.files;
        },
      )
  unfolding write_block
  write_block-full full below number = ground (
    arith,
    append_file-open env (record fs { has_directory = true })
        (block_path (w.current_block_file_number + 1)) s refl (may _),
    mod-eq_of_lt number,
  )

  -- A text that fits a file is written: the location is returned, the text is stored there, and the
  -- position is current again.
  pub write_block-Wrote :
      IsCurrent block_path w.current_block_file_number w.current_block_offset fs.files
      → w.current_block_offset ≤ 1000
      → w.current_block_file_number + 1 < 2 ^ 16
      → Wrote block_path s
          (write_block env w fs s).1.current_block_file_number
          (write_block env w fs s).1.current_block_offset
          (write_block env w fs s).2.files
          (write_block env w fs s).0
  write_block-Wrote current below number =
      elim (dec_lt (w.current_block_offset + (length s + 1)) 1000) [
        | yes fits ↦
            rw (write_block-fits fits)
              (Wrote-appended block_path block_path_injective _ _ fs.files s current (omega arith))
        | no full ↦ rw (write_block-full (omega arith) below number) (
            Wrote-appended block_path block_path_injective _ 0 fs.files s
              (next-IsCurrent block_path _ _ fs.files current) (omega arith))
      ]

  -- The file number grows by one at most.
  pub number-write_block :
      w.current_block_file_number + 1 < 2 ^ 16
      → (write_block env w fs s).1.current_block_file_number ≤ w.current_block_file_number + 1
  unfolding write_block
  number-write_block number = ground (arith, mod-eq_of_lt number)
