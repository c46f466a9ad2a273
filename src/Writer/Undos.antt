-- ===== src/Writer/Undos.antt =====
-- `write_undo_block`, like `write_block`, and what either can do to the files.
use native.Mathlib.Nat.{mod-eq_of_lt}
use native.Mathlib.Decide.{dec_le}
use crypt_bank.Prelude.{
  ℕ, ◌+◌, ◌%◌, ◌^◌, ◌≤◌, ◌<◌, ◌≡◌, refl, ap, ◌∙◌, ◌≢◌, ◌⊎◌, inl, inr, true, ◌&&◌, some, arith, ltb,
  leb, if◌then◌else◌, Bool-cases, length, ==-eq-false, Bytes, bytes_eq,
}
use crypt_bank.Prelude.Map.{Map, find, find-assign}
use crypt_bank.Records.{FileInfo}
use crypt_bank.Env.{Env}
use crypt_bank.Writer.{
  FileSystem, ChainWriter, block_path, undo_path, append_file, write_block, write_undo_block,
  max_block_file_size, max_undo_file_size, room,
}
use crypt_bank.Writer.Append.{
  Stored, IsCurrent, next-IsCurrent, appended, appended-Stored, undo_path_injective,
}
use crypt_bank.Writer.Blocks.{Wrote, Wrote-appended, append_file-open, at_location}

module _ (env : Env) (may : (p : Bytes) → env.may_append p ≡ true) (w : ChainWriter)
    (fs : FileSystem) (s : Bytes) (small : length s + 1 ≤ 1000)
    (directory : fs.has_directory ≡ true) where
  write_undo_block-fits :
      w.current_undo_offset + (length s + 1) ≤ 1000
      → write_undo_block env w fs s ≡ (
        some (
            at_location
              (undo_path w.current_undo_file_number)
              w.current_undo_offset
              (w.current_undo_offset + (length s + 1))),
        record w { current_undo_offset = w.current_undo_offset + (length s + 1) },
        record fs { files = appended (undo_path w.current_undo_file_number) s fs.files },
      )
  unfolding write_undo_block
  write_undo_block-fits fits =
      ground
        (arith, append_file-open env fs (undo_path w.current_undo_file_number) s directory (may _))

  write_undo_block-full :
      1000 < w.current_undo_offset + (length s + 1)
      → w.current_undo_offset ≤ 1000
      → w.current_undo_file_number + 1 < 2 ^ 16
      → write_undo_block env w fs s ≡ (
        some (at_location (undo_path (w.current_undo_file_number + 1)) 0 (0 + (length s + 1))),
        record w {
          current_undo_file_number = w.current_undo_file_number + 1;
          current_undo_offset = 0 + (length s + 1);
        },
        record fs { files = appended (undo_path (w.current_undo_file_number + 1)) s fs.files },
      )
  unfolding write_undo_block
  write_undo_block-full full below number = ground (
    arith,
    append_file-open env fs (undo_path (w.current_undo_file_number + 1)) s directory (may _),
    mod-eq_of_lt number,
  )

  -- A text that fits a file is written: the location is returned, the text is stored there, and the
  -- position is current again.
  pub write_undo_block-Wrote :
      IsCurrent undo_path w.current_undo_file_number w.current_undo_offset fs.files
      → w.current_undo_offset ≤ 1000
      → w.current_undo_file_number + 1 < 2 ^ 16
      → Wrote undo_path s
          (write_undo_block env w fs s).1.current_undo_file_number
          (write_undo_block env w fs s).1.current_undo_offset
          (write_undo_block env w fs s).2.files
          (write_undo_block env w fs s).0
  write_undo_block-Wrote current below number =
      elim (dec_le (w.current_undo_offset + (length s + 1)) 1000) [
        | yes fits ↦
            rw (write_undo_block-fits fits)
              (Wrote-appended undo_path undo_path_injective _ _ fs.files s current (omega arith))
        | no full ↦ rw (write_undo_block-full (omega arith) below number) (
            Wrote-appended undo_path undo_path_injective _ 0 fs.files s
              (next-IsCurrent undo_path _ _ fs.files current) (omega arith))
      ]

-- What a write can do to the files: nothing, or one append.
abbrev pub Appends : (ℕ → Bytes) → Map Bytes Bytes → Map Bytes Bytes → Type 0
Appends path files files' =
    (files' ≡ files) ⊎ ((n : ℕ) × (s : Bytes) × (files' ≡ appended (path n) s files))

pub Appends-Stored :
    (path : ℕ → Bytes) (files files' : Map Bytes Bytes) (location : FileInfo) (t : Bytes)
    → Appends path files files'
    → Stored files location t
    → Stored files' location t
Appends-Stored path files files' location t (inl same) h = rw same h
Appends-Stored path files files' location t (inr (n, s, more)) h =
    rw more (appended-Stored files (path n) s location t h)

find-appended_other :
    (files : Map Bytes Bytes) (path other s : Bytes)
    → other ≢ path
    → find path (appended other s files) ≡ find path files
find-appended_other files path other s ne =
    find-assign other path _ files ∙ rw (==-eq-false other path ne)

-- A write to a family of files leaves the files of other names.
pub Appends-find :
    (path : ℕ → Bytes) (files files' : Map Bytes Bytes) (other : Bytes)
    → ((n : ℕ) → path n ≢ other)
    → Appends path files files'
    → find other files' ≡ find other files
Appends-find path files files' other ne (inl same) = rw same refl
Appends-find path files files' other ne (inr (n, s, more)) =
    ap (find other) more ∙ find-appended_other files other (path n) s (ne n)

-- Writes to the one family of files keep the position in the other.
pub Appends-IsCurrent :
    (other path : ℕ → Bytes) (number offset : ℕ) (files files' : Map Bytes Bytes)
    → ((n m : ℕ) → other n ≢ path m)
    → Appends other files files'
    → IsCurrent path number offset files
    → IsCurrent path number offset files'
Appends-IsCurrent other path number offset files files' ne (inl same) h = rw same h
Appends-IsCurrent other path number offset files files' ne (inr (n, s, more)) h = rw more (record {
  at_end = rw (find-appended_other files (path number) (other n) s (ne n number)) h.at_end;
  later = λ m lt. find-appended_other files (path m) (other n) s (ne n m) ∙ h.later m lt;
})

module _ (env : Env) (w : ChainWriter) (fs : FileSystem) (s : Bytes) where
  abbrev block_number : ℕ
  block_number =
      if leb (room max_block_file_size w.current_block_offset) ((length s + 1) % 2 ^ 32)
      then (w.current_block_file_number + 1) % 2 ^ 16
      else w.current_block_file_number

  abbrev undo_number : ℕ
  undo_number =
      if ltb (room max_undo_file_size w.current_undo_offset) ((length s + 1) % 2 ^ 32)
      then (w.current_undo_file_number + 1) % 2 ^ 16
      else w.current_undo_file_number

  pub write_block-Appends : Appends block_path fs.files (write_block env w fs s).2.files
  unfolding write_block append_file
  write_block-Appends = elim (Bool-cases (env.may_append (block_path block_number))) [
    | inl open' ↦ rw (open', write_block) (inr (block_number, s, refl))
    | inr shut ↦ rw (shut, write_block) (inl refl)
  ]

  pub write_undo_block-Appends : Appends undo_path fs.files (write_undo_block env w fs s).2.files
  unfolding write_undo_block append_file
  write_undo_block-Appends =
      elim (Bool-cases (fs.has_directory && env.may_append (undo_path undo_number))) [
        | inl open' ↦ rw (open', write_undo_block) (inr (undo_number, s, refl))
        | inr shut ↦ rw (shut, write_undo_block) (inl refl)
      ]
