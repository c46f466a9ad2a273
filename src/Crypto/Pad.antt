-- ===== src/Crypto/Pad.antt =====
-- `pad` of core/src/crypto/cryptcrypto.cpp against the padding rule.
use crypt_bank.Prelude.{
  ℕ, ◌+◌, ◌-◌, ◌*◌, ◌/◌, ◌%◌, ◌^◌, ◌≤◌, ◌<◌, ◌≡◌, refl, sym, ap, ◌∙◌, true, false, [], ◌∷◌, ◌++◌,
  append_assoc, append-nil, arith, ltb, leb, length, drop, replicate, length-append,
  length-replicate, Bytes,
}
use native.Mathlib.Decide.{dec_lt}
use crypt_bank.Crypto.{Words, transform, set, fill_zeros, write_length, pad}
use crypt_bank.Crypto.Blocks.{
  length_bytes, zeros_needed, blocks_needed, padding, fold_blocks, fold_blocks-append,
  fold_blocks-one, length-length_bytes,
}
use crypt_bank.Crypto.Arrays.{
  set-append, fill_zeros-append, write_length-append, length-drop, replicate-add, drop-all,
}

-- The bits of the whole message, when `part` begins the last block.
abbrev pub bits_of : ℕ → ℕ → ℕ
bits_of m_bitlen n = (m_bitlen + n * 8) % 2 ^ 64

-- The last block with `part` set: after the byte 0x80 `n` zeros and what stood there.
padded_data : ℕ → Bytes → Bytes → Bytes
padded_data n part rest = part ++ (0x80 ∷ (replicate n 0 ++ drop n rest))

fill-padded_data :
    (x : ℕ) (part rest : Bytes) (n : ℕ)
    → n ≤ length rest
    → fill_zeros n (length part + 1) (set (part ++ (x ∷ rest)) (length part) 0x80)
      ≡ padded_data n part rest
unfolding padded_data
fill-padded_data x part rest n h =
    ap (fill_zeros n (length part + 1)) (
      set-append part (x ∷ rest) (length part) 0 0x80 (omega arith)
      ∙ sym (append_assoc part (0x80 ∷ []) rest))
    ∙ fill_zeros-append n (part ++ (0x80 ∷ [])) rest (length part + 1)
        (omega (arith, length-append part (0x80 ∷ []))) h
    ∙ append_assoc part (0x80 ∷ []) _

pad-short :
    (s : Words) (data' : Bytes) (n m_bitlen : ℕ)
    → n < 56
    → pad s data' n m_bitlen
      ≡ transform s
          (write_length (bits_of m_bitlen n) (fill_zeros (55 - n) (n + 1) (set data' n 0x80)))
unfolding pad
pad-short s data' n m_bitlen h =
    let short : ltb n 56 ≡ true = ground arith in
    let not_long : leb 56 n ≡ false = ground arith in
    let count : 56 - (n + 1) ≡ 55 - n = omega arith in rw (short, not_long, count) refl

pad-long :
    (s : Words) (data' : Bytes) (n m_bitlen : ℕ)
    → 56 ≤ n
    → pad s data' n m_bitlen ≡ (
        let d = fill_zeros (63 - n) (n + 1) (set data' n 0x80) in
        transform (transform s d) (write_length (bits_of m_bitlen n) (fill_zeros 56 0 d)))
unfolding pad
pad-long s data' n m_bitlen h =
    let not_short : ltb n 56 ≡ false = ground arith in
    let long : leb 56 n ≡ true = ground arith in
    let count : 64 - (n + 1) ≡ 63 - n = omega arith in rw (not_short, long, count) refl

length-padded_data :
    (n : ℕ) (part rest : Bytes)
    → n ≤ length rest
    → length (padded_data n part rest) ≡ length part + 1 + length rest
unfolding padded_data
length-padded_data n part rest h = omega (
  arith,
  length-append part (0x80 ∷ (replicate n 0 ++ drop n rest)),
  length-append (replicate n 0) (drop n rest),
  length-replicate {A = ℕ} n 0,
  length-drop n rest,
)

-- A last block of fewer than 56 bytes has room for the length.
pad-fold_short :
    (s : Words) (x : ℕ) (part rest : Bytes) (m_bitlen : ℕ)
    → length part < 56
    → length part + 1 + length rest ≡ 64
    → pad s (part ++ (x ∷ rest)) (length part) m_bitlen
      ≡ fold_blocks 1 s (
          part
          ++ (0x80
              ∷ (replicate (55 - length part) 0 ++ length_bytes (bits_of m_bitlen (length part)))))
unfolding padded_data
pad-fold_short s x part rest m_bitlen h e =
    let n = 55 - length part in
    let bits = bits_of m_bitlen (length part) in
    let head = part ++ (0x80 ∷ replicate n 0) in
    let head_length : length head ≡ 56 =
      omega (arith, length-append part (0x80 ∷ replicate n 0), length-replicate {A = ℕ} n 0) in
    pad-short s (part ++ (x ∷ rest)) (length part) m_bitlen h
    ∙ ap (λ d. transform s (write_length bits d))
        (fill-padded_data x part rest n (omega arith)
          ∙ sym (append_assoc part (0x80 ∷ replicate n 0) (drop n rest)))
    ∙ ap (transform s) (
        write_length-append bits head (drop n rest) head_length (omega (arith, length-drop n rest)))
    ∙ sym (
        fold_blocks-one s (head ++ length_bytes bits) (
          omega
            (arith, head_length, length-append head (length_bytes bits), length-length_bytes bits)))
    ∙ ap (fold_blocks 1 s) (append_assoc part (0x80 ∷ replicate n 0) (length_bytes bits))

-- A last block of 56 bytes or more is filled up, and the length goes into a block of its own.
pad-fold_long :
    (s : Words) (x : ℕ) (part rest : Bytes) (m_bitlen : ℕ)
    → 56 ≤ length part
    → length part + 1 + length rest ≡ 64
    → pad s (part ++ (x ∷ rest)) (length part) m_bitlen
      ≡ fold_blocks 2 s (
          padded_data (63 - length part) part rest
          ++ (replicate 56 0 ++ length_bytes (bits_of m_bitlen (length part))))
pad-fold_long s x part rest m_bitlen h e =
    let n = 63 - length part in
    let bits = bits_of m_bitlen (length part) in
    let d = padded_data n part rest in
    let d_length : length d ≡ 64 = omega (arith, length-padded_data n part rest (omega arith)) in
    pad-long s (part ++ (x ∷ rest)) (length part) m_bitlen h
    ∙ ap (λ d. transform (transform s d) (write_length bits (fill_zeros 56 0 d)))
        (fill-padded_data x part rest n (omega arith))
    ∙ ap (λ t. transform (transform s d) (write_length bits t))
        (fill_zeros-append 56 [] d 0 refl (omega (arith, d_length)))
    ∙ ap (transform (transform s d)) (
        write_length-append bits (replicate 56 0) (drop 56 d) (length-replicate {A = ℕ} 56 0)
          (omega (arith, length-drop 56 d, d_length)))
    ∙ sym (
        fold_blocks-one (transform s d) (replicate 56 0 ++ length_bytes bits)
          (omega (arith, length-length_bytes bits)))
    ∙ sym (fold_blocks-append 1 s d (replicate 56 0 ++ length_bytes bits) d_length)

-- The filled block and the block of the length are the padding.
padded_data-join :
    (part rest tail : Bytes) (n k : ℕ)
    → n ≡ length rest
    → padded_data n part rest ++ (replicate k 0 ++ tail)
      ≡ part ++ (0x80 ∷ (replicate (n + k) 0 ++ tail))
unfolding padded_data
padded_data-join part rest tail n k e =
    append_assoc part (0x80 ∷ (replicate n 0 ++ drop n rest)) (replicate k 0 ++ tail)
    ∙ ap (λ t. part ++ (0x80 ∷ t))
        (ap (λ t. (replicate n 0 ++ t) ++ (replicate k 0 ++ tail))
            (ap (λ m. drop m rest) e ∙ drop-all rest)
          ∙ ap (λ t. t ++ (replicate k 0 ++ tail)) (append-nil (replicate n 0))
          ∙ sym (append_assoc (replicate n 0) (replicate k 0) tail)
          ∙ ap (λ t. t ++ tail) (sym (replicate-add (n + k) n k 0 refl)))

-- `pad` folds over the blocks of what is set and its padding.
pub pad-fold_blocks :
    (s : Words) (part rest : Bytes) (m_bitlen : ℕ)
    → length part < 64
    → length part + length rest ≡ 64
    → pad s (part ++ rest) (length part) m_bitlen
      ≡ fold_blocks
          (blocks_needed (length part))
          s
          (part ++ padding (length part) (bits_of m_bitlen (length part)))
unfolding padding blocks_needed zeros_needed padded_data
pad-fold_blocks s part [] m_bitlen h e = absurd (omega (arith, h, e))
pad-fold_blocks s part (x ∷ rest) m_bitlen h e =
    let n = length part in
    let bits = bits_of m_bitlen n in
    elim (dec_lt n 56) [
      | yes short ↦
          let blocks : (n + 8) / 64 + 1 ≡ 1 = omega (arith, short) in
          let zeros : (119 - n % 64) % 64 ≡ 55 - n = omega (arith, short) in
          rw (blocks, zeros) (pad-fold_short s x part rest m_bitlen short (omega (arith, e)))
      | no long ↦
          let blocks : (n + 8) / 64 + 1 ≡ 2 = omega (arith, long, h) in
          let zeros : (119 - n % 64) % 64 ≡ (63 - n) + 56 = omega (arith, long, h) in
          let joined =
            padded_data-join part rest (length_bytes bits) (63 - n) 56 (omega (arith, e)) in
          rw (blocks, zeros)
            (pad-fold_long s x part rest m_bitlen (omega (arith, long)) (omega (arith, e))
              ∙ ap (fold_blocks 2 s) joined)
    ]
