-- ===== src/Crypto/Blocks.antt =====
-- The padding rule of SHA-256, by which `hash` is specified: a message, the byte 0x80, zeros and the
-- length in bits as eight bytes, cut into blocks of 64 bytes.
use crypt_bank.Prelude.{
  ℕ, zero, suc, ◌+◌, ◌-◌, ◌/◌, ◌%◌, ◌^◌, ◌≡◌, refl, sym, ap, ◌∙◌, List, [], ◌∷◌, ◌++◌, append-nil,
  length, take, drop, replicate, drop-append, take-append, Bytes,
}
use crypt_bank.Crypto.{Words, transform}

-- Eight bytes, highest first.
unfoldable pub length_bytes : ℕ → List ℕ
length_bytes bits =
    bits / 2 ^ 56 % 2 ^ 8
    ∷ bits / 2 ^ 48 % 2 ^ 8
    ∷ bits / 2 ^ 40 % 2 ^ 8
    ∷ bits / 2 ^ 32 % 2 ^ 8
    ∷ bits / 2 ^ 24 % 2 ^ 8
    ∷ bits / 2 ^ 16 % 2 ^ 8
    ∷ bits / 2 ^ 8 % 2 ^ 8
    ∷ bits % 2 ^ 8
    ∷ []

-- The fewest zeros that make the length of the padded message a multiple of 64.
unfoldable pub zeros_needed : ℕ → ℕ
zeros_needed n = (119 - n % 64) % 64

unfoldable pub blocks_needed : ℕ → ℕ
blocks_needed n = (n + 8) / 64 + 1

-- The padding of a message of `n` bytes, of which the last block is counted `bits` bits in.
unfoldable pub padding : ℕ → ℕ → Bytes
padding n bits = 0x80 ∷ (replicate (zeros_needed n) 0 ++ length_bytes bits)

pub fold_blocks : ℕ → Words → Bytes → Words
fold_blocks zero s bytes = s
fold_blocks (suc n) s bytes = fold_blocks n (transform s (take 64 bytes)) (drop 64 bytes)

pub fold_blocks-append :
    (n : ℕ) (s : Words) (block more : Bytes)
    → length block ≡ 64
    → fold_blocks (suc n) s (block ++ more) ≡ fold_blocks n (transform s block) more
unfolding fold_blocks
fold_blocks-append n s block more e =
    rw (take-append block more {n = 64} (sym e), drop-append block more {n = 64} (sym e)) refl

pub fold_blocks-one :
    (s : Words) (block : Bytes) → length block ≡ 64 → fold_blocks 1 s block ≡ transform s block
unfolding fold_blocks
fold_blocks-one s block e =
    ap (fold_blocks 1 s) (sym (append-nil block)) ∙ fold_blocks-append 0 s block [] e

pub length-length_bytes : (bits : ℕ) → length (length_bytes bits) ≡ 8
unfolding length_bytes
length-length_bytes bits = refl
