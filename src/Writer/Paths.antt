-- ===== src/Writer/Paths.antt =====
-- The paths of block and undo files are ASCII.
use crypt_bank.Prelude.{ℕ, ◌<◌, [], ◌∷◌, ◌++◌, arith, All, All-append, Bytes}
use crypt_bank.Text.{to_string}
use crypt_bank.Text.Decimal.{IsDigit, IsDecimal→digits, to_string-IsDecimal}
use crypt_bank.Proto.{IsAscii}
use crypt_bank.Writer.{block_path, undo_path, path_head, path_tail, block_filename, undo_filename}

digits-IsAscii : (s : Bytes) → All IsDigit s → IsAscii s
digits-IsAscii [] h = tt
digits-IsAscii (c ∷ cs) (hc, h) = (omega arith, digits-IsAscii cs h)

number-IsAscii : (n : ℕ) → IsAscii (to_string n ++ path_tail)
number-IsAscii n =
    All-append (λ c. c < 128) (to_string n) path_tail
      (digits-IsAscii (to_string n) (IsDecimal→digits n (to_string n) (to_string-IsDecimal n)))
      (omega arith)

pub block_path-IsAscii : (n : ℕ) → IsAscii (block_path n)
unfolding block_path
block_path-IsAscii n =
    All-append (λ c. c < 128) (path_head block_filename) _ (omega arith) (number-IsAscii n)

pub undo_path-IsAscii : (n : ℕ) → IsAscii (undo_path n)
unfolding undo_path
undo_path-IsAscii n =
    All-append (λ c. c < 128) (path_head undo_filename) _ (omega arith) (number-IsAscii n)
