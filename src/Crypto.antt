-- ===== src/Crypto.antt =====
-- core/src/crypto/cryptcrypto.cpp: SHA-256 over 32-bit words that wrap, and `CryptCrypto::hash`,
-- which adds up the bytes of the digest. Arrays of eight words are records, other arrays lists.
-- `hash` reads two things that it never sets: the sum `hashd` begins with what its stack slot held,
-- and `m_data` with 64 bytes of the stack. Both are arguments.
pub mod Constants
pub mod Tests
pub mod Bounds
pub mod Blocks
pub mod Arrays
pub mod Pad
pub mod Digest
pub mod BlocksExamples
use Prim.Native.Nat.{bit_and, bit_or, bit_xor}
use crypt_bank.Prelude.{
  ℕ, zero, suc, ◌+◌, ◌-◌, ◌*◌, ◌/◌, ◌%◌, ◌^◌, List, [], ◌∷◌, ◌++◌, ltb, leb, nat_beq, if◌then◌else◌,
  Bytes,
}
use crypt_bank.Crypto.Constants.{constants}

-- `uint32_t state[8]`
pub record Words : Type 0 where
  pub w0 : ℕ
  pub w1 : ℕ
  pub w2 : ℕ
  pub w3 : ℕ
  pub w4 : ℕ
  pub w5 : ℕ
  pub w6 : ℕ
  pub w7 : ℕ

unfoldable pub rotr : ℕ → ℕ → ℕ
rotr x n = bit_or (x / 2 ^ n) (x * 2 ^ (32 - n) % 2 ^ 32)

unfoldable pub choose : ℕ → ℕ → ℕ → ℕ
choose e f g = bit_xor (bit_and e f) (bit_and (2 ^ 32 - 1 - e) g)

unfoldable pub majority : ℕ → ℕ → ℕ → ℕ
majority a b c = bit_or (bit_and a (bit_or b c)) (bit_and b c)

sig0 : ℕ → ℕ
unfolding rotr
sig0 x = bit_xor (bit_xor (rotr x 7) (rotr x 18)) (x / 2 ^ 3)

sig1 : ℕ → ℕ
unfolding rotr
sig1 x = bit_xor (bit_xor (rotr x 17) (rotr x 19)) (x / 2 ^ 10)

-- An array element.
abbrev pub at : List ℕ → ℕ → ℕ
at [] i = 0
at (x ∷ xs) zero = x
at (x ∷ xs) (suc i) = at xs i

-- The first loop of `transform`: `n` words from index `j` on.
load_words : ℕ → ℕ → List ℕ → List ℕ
load_words zero j data' = []
load_words (suc n) j data' =
    bit_or (bit_or (at data' j * 2 ^ 24 % 2 ^ 32) (at data' (j + 1) * 2 ^ 16))
      (bit_or (at data' (j + 2) * 2 ^ 8) (at data' (j + 3)))
    ∷ load_words n (j + 4) data'

-- The second loop: `n` more words, from index `k` on.
extend_words : ℕ → ℕ → List ℕ → List ℕ
unfolding sig0 sig1
extend_words zero k m = m
extend_words (suc n) k m = extend_words n (k + 1) (
    m
    ++ (((sig1 (at m (k - 2)) + at m (k - 7) + sig0 (at m (k - 15)) + at m (k - 16)) % 2 ^ 32)
        ∷ []))

-- One round of the third loop, with `m[i]` and `K[i]`.
transform_round : ℕ → ℕ → Words → Words
unfolding majority choose rotr
transform_round m k s =
    let maj = majority s.w0 s.w1 s.w2 in
    let xor_a = bit_xor (bit_xor (rotr s.w0 2) (rotr s.w0 13)) (rotr s.w0 22) in
    let ch = choose s.w4 s.w5 s.w6 in
    let xor_e = bit_xor (bit_xor (rotr s.w4 6) (rotr s.w4 11)) (rotr s.w4 25) in
    let sum = (m + k + s.w7 + ch + xor_e) % 2 ^ 32 in
    record {
      w0 = (xor_a + maj + sum) % 2 ^ 32;
      w1 = s.w0;
      w2 = s.w1;
      w3 = s.w2;
      w4 = (s.w3 + sum) % 2 ^ 32;
      w5 = s.w4;
      w6 = s.w5;
      w7 = s.w6;
    }

-- The 64 rounds, over `m` and the constants side by side.
run_rounds : List ℕ → List ℕ → Words → Words
unfolding transform_round
run_rounds [] ks s = s
run_rounds (m ∷ ms) [] s = s
run_rounds (m ∷ ms) (k ∷ ks) s = run_rounds ms ks (transform_round m k s)

add_words : Words → Words → Words
add_words s t = record {
  w0 = (s.w0 + t.w0) % 2 ^ 32;
  w1 = (s.w1 + t.w1) % 2 ^ 32;
  w2 = (s.w2 + t.w2) % 2 ^ 32;
  w3 = (s.w3 + t.w3) % 2 ^ 32;
  w4 = (s.w4 + t.w4) % 2 ^ 32;
  w5 = (s.w5 + t.w5) % 2 ^ 32;
  w6 = (s.w6 + t.w6) % 2 ^ 32;
  w7 = (s.w7 + t.w7) % 2 ^ 32;
}

unfoldable pub transform : Words → List ℕ → Words
unfolding load_words extend_words run_rounds add_words
transform m_state m_data =
    add_words m_state (run_rounds (extend_words 48 16 (load_words 16 0 m_data)) constants m_state)

-- `m_data[i] = v`
abbrev pub set : List ℕ → ℕ → ℕ → List ℕ
set [] i v = []
set (x ∷ xs) zero v = v ∷ xs
set (x ∷ xs) (suc i) v = x ∷ set xs i v

-- `n` zeros from index `i` on: the `while` loop of `pad`, and its `memset`.
unfoldable pub fill_zeros : ℕ → ℕ → List ℕ → List ℕ
fill_zeros zero i m_data = m_data
fill_zeros (suc n) i m_data = fill_zeros n (i + 1) (set m_data i 0)

-- The eight assignments of the length in bits, highest byte first.
unfoldable pub write_length : ℕ → List ℕ → List ℕ
write_length bits d0 =
    let d1 = set d0 63 (bits % 2 ^ 8) in
    let d2 = set d1 62 (bits / 2 ^ 8 % 2 ^ 8) in
    let d3 = set d2 61 (bits / 2 ^ 16 % 2 ^ 8) in
    let d4 = set d3 60 (bits / 2 ^ 24 % 2 ^ 8) in
    let d5 = set d4 59 (bits / 2 ^ 32 % 2 ^ 8) in
    let d6 = set d5 58 (bits / 2 ^ 40 % 2 ^ 8) in
    let d7 = set d6 57 (bits / 2 ^ 48 % 2 ^ 8) in set d7 56 (bits / 2 ^ 56 % 2 ^ 8)

unfoldable pub pad : Words → List ℕ → ℕ → ℕ → Words
unfolding fill_zeros write_length
pad m_state m_data m_blocklen m_bitlen =
    let end = if ltb m_blocklen 56 then 56 else 64 in
    let padded =
      fill_zeros (end - (m_blocklen + 1)) (m_blocklen + 1) (set m_data m_blocklen 0x80) in
    let bits = (m_bitlen + m_blocklen * 8) % 2 ^ 64 in
    if leb 56 m_blocklen
    then transform (transform m_state padded) (write_length bits (fill_zeros 56 0 padded))
    else transform m_state (write_length bits padded)

-- The four bytes that `revert` writes for one word.
revert_word : ℕ → List ℕ
revert_word w =
    bit_and (w / 2 ^ 24) 0xff
    ∷ bit_and (w / 2 ^ 16) 0xff
    ∷ bit_and (w / 2 ^ 8) 0xff
    ∷ bit_and (w / 2 ^ 0) 0xff
    ∷ []

unfoldable pub revert : Words → List ℕ
unfolding revert_word
revert s =
    revert_word s.w0
    ++ (revert_word s.w1
        ++ (revert_word s.w2
            ++ (revert_word s.w3
                ++ (revert_word s.w4
                    ++ (revert_word s.w5 ++ (revert_word s.w6 ++ revert_word s.w7))))))

-- The variables of `hash` in its loop over the message.
pub record Progress : Type 0 where
  pub m_state : Words
  pub m_data : List ℕ
  pub m_blocklen : ℕ
  pub m_bitlen : ℕ

unfoldable pub absorb : Progress → ℕ → Progress
absorb p c =
    let m_data = set p.m_data p.m_blocklen c in
    if nat_beq (p.m_blocklen + 1) 64
    then record {
      m_state = transform p.m_state m_data;
      m_data = m_data;
      m_blocklen = 0;
      m_bitlen = (p.m_bitlen + 512) % 2 ^ 64;
    }
    else record p { m_data = m_data; m_blocklen = p.m_blocklen + 1 }

unfoldable pub absorb_all : Progress → Bytes → Progress
unfolding absorb
absorb_all p [] = p
absorb_all p (c ∷ cs) = absorb_all (absorb p c) cs

abbrev pub initial_words : Words
initial_words = record {
  w0 = 0x6a09e667;
  w1 = 0xbb67ae85;
  w2 = 0x3c6ef372;
  w3 = 0xa54ff53a;
  w4 = 0x510e527f;
  w5 = 0x9b05688c;
  w6 = 0x1f83d9ab;
  w7 = 0x5be0cd19;
}

unfoldable pub final_words : List ℕ → Bytes → Words
unfolding absorb_all pad transform
final_words stack_bytes message =
    let p =
      absorb_all
        (record { m_state = initial_words; m_data = stack_bytes; m_blocklen = 0; m_bitlen = 0 })
        message in
    pad p.m_state p.m_data p.m_blocklen p.m_bitlen

-- The last loop of `hash`, over the bytes of the digest.
unfoldable pub add_bytes : ℕ → List ℕ → ℕ
add_bytes hashd [] = hashd
add_bytes hashd (b ∷ bs) = add_bytes ((hashd + b) % 2 ^ 32) bs

-- `CryptCrypto::hash`, where `m_data` begins as `stack_bytes` and `hashd` as `stack_word`.
unfoldable pub hash : List ℕ → ℕ → Bytes → ℕ
unfolding final_words revert add_bytes
hash stack_bytes stack_word message =
    add_bytes stack_word (revert (final_words stack_bytes message))
