-- ===== src/Crypto/Digest.antt =====
-- The loop of `hash` against the padding rule.
use crypt_bank.Prelude.{
  ℕ, suc, ◌+◌, ◌-◌, ◌*◌, ◌/◌, ◌%◌, ◌^◌, ◌<◌, ◌≡◌, refl, sym, ap, ◌∙◌, true, false, List, [], ◌∷◌,
  ◌++◌, append_assoc, arith, nat_beq, length, length-append, Bytes,
}
use native.Mathlib.Decide.{dec_lt}
use crypt_bank.Crypto.{
  Words, transform, set, pad, Progress, absorb, absorb_all, initial_words, final_words, hash,
  add_bytes, revert,
}
use crypt_bank.Crypto.Blocks.{zeros_needed, blocks_needed, padding, fold_blocks, fold_blocks-append}
use crypt_bank.Crypto.Arrays.{set-append, nil-of}
use crypt_bank.Crypto.Pad.{bits_of, pad-fold_blocks}

-- The state with `part` of a block set.
abbrev in_block : Words → Bytes → Bytes → ℕ → Progress
in_block s part rest m_bitlen = record {
  m_state = s;
  m_data = part ++ rest;
  m_blocklen = length part;
  m_bitlen = m_bitlen;
}

absorb_inside :
    (s : Words) (x c : ℕ) (part rest : Bytes) (m_bitlen : ℕ)
    → length part + 1 < 64
    → absorb (in_block s part (x ∷ rest) m_bitlen) c ≡ in_block s (part ++ (c ∷ [])) rest m_bitlen
unfolding absorb
absorb_inside s x c part rest m_bitlen h =
    let more : nat_beq (length part + 1) 64 ≡ false = ground arith in
    let data_is : set (part ++ (x ∷ rest)) (length part) c ≡ (part ++ (c ∷ [])) ++ rest =
      set-append part (x ∷ rest) (length part) 0 c (omega arith)
      ∙ sym (append_assoc part (c ∷ []) rest) in
    rw (more, data_is, length-append part (c ∷ [])) refl

absorb_complete :
    (s : Words) (x c : ℕ) (part : Bytes) (m_bitlen : ℕ)
    → length part + 1 ≡ 64
    → absorb (in_block s part (x ∷ []) m_bitlen) c
      ≡ in_block (transform s (part ++ (c ∷ []))) [] (part ++ (c ∷ [])) ((m_bitlen + 512) % 2 ^ 64)
unfolding absorb
absorb_complete s x c part m_bitlen h =
    let full : nat_beq (length part + 1) 64 ≡ true = ground arith in
    let data_is : set (part ++ (x ∷ [])) (length part) c ≡ part ++ (c ∷ []) =
      set-append part (x ∷ []) (length part) 0 c (omega arith) in
    rw (full, data_is) refl

-- The rest of the message and the padding.
finish : Progress → Bytes → Words
finish p cs = let q = absorb_all p cs in pad q.m_state q.m_data q.m_blocklen q.m_bitlen

finish-cons : (p : Progress) (c : ℕ) (cs : Bytes) → finish p (c ∷ cs) ≡ finish (absorb p c) cs
unfolding finish absorb_all
finish-cons p c cs = refl

-- What `finish` is to be, for `n` more bytes.
expected : Words → Bytes → Bytes → ℕ → ℕ → Words
expected s part cs m_bitlen n =
    fold_blocks (blocks_needed n) s (part ++ (cs ++ padding n (bits_of m_bitlen n)))

expected_inside :
    (s : Words) (part cs : Bytes) (c m_bitlen n : ℕ)
    → expected s (part ++ (c ∷ [])) cs m_bitlen n ≡ expected s part (c ∷ cs) m_bitlen n
unfolding expected
expected_inside s part cs c m_bitlen n =
    ap (fold_blocks (blocks_needed n) s)
      (append_assoc part (c ∷ []) (cs ++ padding n (bits_of m_bitlen n)))

expected_complete :
    (s : Words) (part cs : Bytes) (c m_bitlen k n : ℕ)
    → length (part ++ (c ∷ [])) ≡ 64
    → n ≡ 64 + k
    → expected (transform s (part ++ (c ∷ []))) [] cs ((m_bitlen + 512) % 2 ^ 64) k
      ≡ expected s part (c ∷ cs) m_bitlen n
unfolding expected blocks_needed padding zeros_needed
expected_complete s part cs c m_bitlen k n full e =
    let blocks : (n + 8) / 64 + 1 ≡ suc ((k + 8) / 64 + 1) = omega (arith, e) in
    let zeros : (119 - n % 64) % 64 ≡ (119 - k % 64) % 64 = omega (arith, e) in
    let bits : bits_of m_bitlen n ≡ bits_of ((m_bitlen + 512) % 2 ^ 64) k = omega (arith, e) in
    let more = cs ++ padding k (bits_of ((m_bitlen + 512) % 2 ^ 64) k) in
    rw (blocks, zeros, bits)
      (sym (fold_blocks-append (blocks_needed k) s (part ++ (c ∷ [])) more full)
        ∙ ap (fold_blocks (suc (blocks_needed k)) s) (append_assoc part (c ∷ []) more))

finish-expected :
    (cs : Bytes) (s : Words) (part rest : Bytes) (m_bitlen n : ℕ)
    → length part < 64
    → length part + length rest ≡ 64
    → n ≡ length part + length cs
    → finish (in_block s part rest m_bitlen) cs ≡ expected s part cs m_bitlen n
unfolding finish expected absorb_all
finish-expected [] s part rest m_bitlen n h e count =
    let same : n ≡ length part = omega (arith, count) in
    rw same (pad-fold_blocks s part rest m_bitlen h e)
finish-expected (c ∷ cs) s part [] m_bitlen n h e count = absurd (omega (arith, h, e))
finish-expected (c ∷ cs) s part (x ∷ rest) m_bitlen n h e count =
    let grown = length-append part (c ∷ []) in
    elim (dec_lt (length part + 1) 64) [
      | yes inside ↦
          finish-cons (in_block s part (x ∷ rest) m_bitlen) c cs
          ∙ ap (λ p. finish p cs) (absorb_inside s x c part rest m_bitlen inside)
          ∙ finish-expected cs s (part ++ (c ∷ [])) rest m_bitlen n (omega (arith, inside, grown))
              (omega (arith, e, grown)) (omega (arith, count, grown))
          ∙ expected_inside s part cs c m_bitlen n
      | no complete ↦
          let full : length part + 1 ≡ 64 = omega (arith, h, complete) in
          let last : rest ≡ [] = nil-of (omega (arith, e, full)) in
          finish-cons (in_block s part (x ∷ rest) m_bitlen) c cs
          ∙ ap (λ r. finish (absorb (in_block s part (x ∷ r) m_bitlen) c) cs) last
          ∙ ap (λ p. finish p cs) (absorb_complete s x c part m_bitlen full)
          ∙ finish-expected cs (transform s (part ++ (c ∷ []))) [] (part ++ (c ∷ []))
              ((m_bitlen + 512) % 2 ^ 64) (length cs) (omega arith) (omega (arith, full, grown))
              (omega arith)
          ∙ expected_complete s part cs c m_bitlen (length cs) n (omega (arith, full, grown))
              (omega (arith, count, full))
    ]

-- The digest by the padding rule: the message, the byte 0x80, the fewest zeros and the length in
-- bits, cut into blocks of 64 bytes that are folded over from the initial words.
pub padded_digest : Bytes → Words
padded_digest message =
    fold_blocks (blocks_needed (length message)) initial_words
      (message ++ padding (length message) (length message * 8 % 2 ^ 64))

final_words-padded_digest :
    (stack_bytes message : Bytes)
    → length stack_bytes ≡ 64
    → final_words stack_bytes message ≡ padded_digest message
unfolding final_words padded_digest finish expected
final_words-padded_digest stack_bytes message h =
    let bits : 0 + length message * 8 ≡ length message * 8 = omega arith in
    finish-expected message initial_words [] stack_bytes 0 (length message) (omega arith)
      (omega (arith, h)) (omega arith)
    ∙ ap
        (λ b.
          fold_blocks (blocks_needed (length message)) initial_words
            (message ++ padding (length message) (b % 2 ^ 64)))
        bits

-- Whatever 64 bytes the stack holds, `hash` adds up, from what the stack holds for its sum, the
-- bytes of the digest by the padding rule: the message, the byte 0x80, the fewest zeros that fill
-- up a block with the eight bytes of the length in bits modulo 2 ^ 64, folded over with `transform`
-- in blocks of 64 bytes.
pub hash-padded_digest :
    (stack_bytes : List ℕ) (stack_word : ℕ) (message : Bytes)
    → length stack_bytes ≡ 64
    → hash stack_bytes stack_word message ≡ add_bytes stack_word (revert (padded_digest message))
unfolding hash
hash-padded_digest stack_bytes stack_word message h =
    ap (λ words. add_bytes stack_word (revert words))
      (final_words-padded_digest stack_bytes message h)
