-- ===== src/Writer/Append.antt =====
-- Blocks that were written are read back, also after later writes.
use crypt_bank.Prelude.{
  ℕ, ◌+◌, ◌-◌, ◌<◌, ◌≡◌, refl, sym, ap, ◌∙◌, inl, inr, none, some, [], ◌∷◌, ◌++◌, append_assoc,
  append-nil, arith, Bool-cases, length, drop, length-append, drop-append, take-append, ◌==◌,
  ==_iff, ==-refl, ==-eq-false, Bytes, bytes_eq,
}
use crypt_bank.Prelude.Map.{Map, find, assign, find-assign}
use crypt_bank.Text.{before}
use crypt_bank.Text.Numeral.{before-to_string}
use crypt_bank.Text.Decimal.{to_string_injective}
use crypt_bank.Records.{FileInfo}
use crypt_bank.Env.{Env}
use crypt_bank.Writer.{
  FileSystem, block_path, undo_path, content, append_file, read_block, read_content,
}

-- The file holds the text and its closing 0 byte at the location.
pub record Stored (files : Map Bytes Bytes) (location : FileInfo) (s : Bytes) : Type 0 where
  pub before : Bytes
  pub after : Bytes
  pub found : find location.file_name files ≡ some (before ++ ((s ++ (0 ∷ [])) ++ after))
  pub start : location.start ≡ length before
  pub end : location.end ≡ location.start + (length s + 1)

read_content-Stored :
    (before s after : Bytes) (a n : ℕ)
    → a ≡ length before
    → n ≡ length s + 1
    → read_content (before ++ ((s ++ (0 ∷ [])) ++ after)) a n ≡ some s
unfolding read_content
read_content-Stored before s after a n ea en = ground (
  arith,
  length-append before ((s ++ (0 ∷ [])) ++ after),
  length-append (s ++ (0 ∷ [])) after,
  length-append s (0 ∷ []),
  drop-append before ((s ++ (0 ∷ [])) ++ after) {n = a} ea,
  append_assoc s (0 ∷ []) after,
  take-append s ((0 ∷ []) ++ after) {n = n - 1} (omega arith),
)

-- What is stored at a location is what a read of the location returns.
pub read_block-Stored :
    (fs : FileSystem) (location : FileInfo) (s : Bytes)
    → Stored fs.files location s
    → read_block fs location ≡ some s
unfolding read_block
read_block-Stored fs location s h = ground (
  arith,
  read_content-Stored h.before s h.after location.start (location.end - location.start) h.start
      (omega (arith, h.end)),
)

-- The writer's position is the end of its current file: the file is as long as the offset, and no
-- later file is there yet.
pub record IsCurrent (path : ℕ → Bytes) (number offset : ℕ) (files : Map Bytes Bytes) : Type 0 where
  pub at_end : length (content (find (path number) files)) ≡ offset
  pub later : (n : ℕ) → number < n → find (path n) files ≡ none

pub next-IsCurrent :
    (path : ℕ → Bytes) (number offset : ℕ) (files : Map Bytes Bytes)
    → IsCurrent path number offset files
    → IsCurrent path (number + 1) 0 files
next-IsCurrent path number offset files h = record {
  at_end = rw (h.later (number + 1) (omega arith)) refl;
  later = λ n lt. h.later n (omega arith);
}

-- The files after an append of a text and its closing 0 byte.
abbrev pub appended : Bytes → Bytes → Map Bytes Bytes → Map Bytes Bytes
appended path s files = assign path (content (find path files) ++ (s ++ (0 ∷ []))) files

pub append_file-appended :
    (env : Env) (fs : FileSystem) (path s : Bytes) {fs' : FileSystem}
    → append_file env fs path s ≡ some fs'
    → fs'.files ≡ appended path s fs.files
unfolding append_file
append_file-appended env fs path s h = ground arith

-- An append changes nothing that was stored.
pub appended-Stored :
    (files : Map Bytes Bytes) (path s : Bytes) (location : FileInfo) (t : Bytes)
    → Stored files location t
    → Stored (appended path s files) location t
appended-Stored files path s location t h = elim (Bool-cases (path == location.file_name)) [
  | inl same ↦ record {
    before = h.before;
    after = h.after ++ (s ++ (0 ∷ []));
    found =
        find-assign path location.file_name _ files
        ∙ rw same (
            rw ((==_iff path location.file_name).0 same) (
              rw h.found (
                ap some (
                  append_assoc h.before ((t ++ (0 ∷ [])) ++ h.after) (s ++ (0 ∷ []))
                  ∙ ap (λ x. h.before ++ x)
                      (append_assoc (t ++ (0 ∷ [])) h.after (s ++ (0 ∷ [])))))));
    start = h.start;
    end = h.end;
  }
  | inr other ↦ record {
    before = h.before;
    after = h.after;
    found = find-assign path location.file_name _ files ∙ rw other h.found;
    start = h.start;
    end = h.end;
  }
]

module _ (path : ℕ → Bytes) (injective : (n m : ℕ) → path n ≡ path m → n ≡ m) (number offset : ℕ)
    (files : Map Bytes Bytes) (s : Bytes) (h : IsCurrent path number offset files) where
  find-appended :
      find (path number) (appended (path number) s files)
      ≡ some (content (find (path number) files) ++ (s ++ (0 ∷ [])))
  find-appended = find-assign (path number) (path number) _ files ∙ rw (==-refl (path number))

  pub appended-IsCurrent :
      IsCurrent path number (offset + (length s + 1)) (appended (path number) s files)
  appended-IsCurrent = record {
    at_end = rw find-appended (
        omega (
          arith,
          length-append (content (find (path number) files)) (s ++ (0 ∷ [])),
          length-append s (0 ∷ []),
          h.at_end,
        ));
    later = λ n lt.
        find-assign (path number) (path n) _ files
        ∙ rw
            (==-eq-false (path number) (path n) (λ e. absurd (omega (arith, injective number n e))))
            (h.later n lt);
  }

  pub appended-Stored_self :
      Stored
        (appended (path number) s files)
        (record { file_name = path number; start = offset; end = offset + (length s + 1) })
        s
  appended-Stored_self = record {
    before = content (find (path number) files);
    after = [];
    found = find-appended ∙ rw append-nil refl;
    start = sym h.at_end;
    end = refl;
  }

pub block_path_injective : (n m : ℕ) → block_path n ≡ block_path m → n ≡ m
unfolding block_path
block_path_injective n m e = to_string_injective n m (
    sym (before-to_string b'.' n _ (omega arith))
    ∙ ap (λ p. before b'.' (drop 11 p)) e
    ∙ before-to_string b'.' m _ (omega arith))

pub undo_path_injective : (n m : ℕ) → undo_path n ≡ undo_path m → n ≡ m
unfolding undo_path
undo_path_injective n m e = to_string_injective n m (
    sym (before-to_string b'.' n _ (omega arith))
    ∙ ap (λ p. before b'.' (drop 16 p)) e
    ∙ before-to_string b'.' m _ (omega arith))
