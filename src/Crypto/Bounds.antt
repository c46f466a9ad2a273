-- ===== src/Crypto/Bounds.antt =====
-- How large a hash can be.
use Prim.Native.Nat.{min, digits, bit_and, bit_and-bitwise}
use crypt_bank.Prelude.{
  ℕ, zero, suc, ◌+◌, ◌*◌, ◌/◌, ◌%◌, ◌^◌, ◌≤◌, ◌<◌, ◌≡◌, refl, List, [], ◌∷◌, ◌++◌, arith, length,
  All, All-append, Bytes,
}
use crypt_bank.Crypto.{Words, revert, revert_word, add_bytes, final_words, hash}

-- A conjunction is no larger than its second operand.
conjunction-le : (n a b : ℕ) → digits (λ x. zero) min n a b ≤ b
conjunction-le zero a b = omega arith
conjunction-le (suc n) zero b = omega arith
conjunction-le (suc n) (suc a) b = omega (arith, conjunction-le n (suc a / 2) (b / 2))

bit_and-le : (a b : ℕ) → bit_and a b ≤ b
bit_and-le a b = omega (arith, bit_and-bitwise a b, conjunction-le a a b)

add_bytes-le : (bs : List ℕ) (n : ℕ) → All (λ b. b ≤ 255) bs → add_bytes n bs ≤ n + 255 * length bs
unfolding add_bytes
add_bytes-le [] n h = omega arith
add_bytes-le (b ∷ bs) n (hb, h) = omega (arith, add_bytes-le bs ((n + b) % 2 ^ 32) h, hb)

revert_word-bytes : (w : ℕ) → All (λ b. b ≤ 255) (revert_word w)
unfolding revert_word
revert_word-bytes w =
    (bit_and-le _ 255, (bit_and-le _ 255, (bit_and-le _ 255, (bit_and-le _ 255, tt))))

length-revert : (s : Words) → length (revert s) ≡ 32
unfolding revert
length-revert s = refl

record IsByteList (bs : List ℕ) : Type 0 where
  pub bytes : All (λ b. b ≤ 255) bs

revert_word-IsByteList : (w : ℕ) (bs : List ℕ) → IsByteList bs → IsByteList (revert_word w ++ bs)
revert_word-IsByteList w bs h = record {
  bytes = All-append (λ b. b ≤ 255) (revert_word w) bs (revert_word-bytes w) h.bytes;
}

revert-IsByteList : (s : Words) → IsByteList (revert s)
unfolding revert
revert-IsByteList s = revert_word-IsByteList s.w0 _ (
    revert_word-IsByteList s.w1 _ (
      revert_word-IsByteList s.w2 _ (
        revert_word-IsByteList s.w3 _ (
          revert_word-IsByteList s.w4 _ (
            revert_word-IsByteList s.w5 _
              (revert_word-IsByteList s.w6 _ (record { bytes = revert_word-bytes s.w7 })))))))

-- Whatever the message is, `hash` is at most 8160 above the number that its sum began with, though
-- the result type has 2 ^ 32 values.
pub hash-le :
    (stack_bytes : List ℕ) (stack_word : ℕ) (message : Bytes)
    → hash stack_bytes stack_word message ≤ stack_word + 8160
unfolding hash
hash-le stack_bytes stack_word message =
    let s = final_words stack_bytes message in
    omega (arith, add_bytes-le (revert s) stack_word ((revert-IsByteList s).bytes), length-revert s)

add_bytes-lt : (bs : List ℕ) (n : ℕ) → n < 2 ^ 32 → add_bytes n bs < 2 ^ 32
unfolding add_bytes
add_bytes-lt [] n h = h
add_bytes-lt (b ∷ bs) n h = add_bytes-lt bs ((n + b) % 2 ^ 32) (omega arith)

add_bytes-lt_some : (bs : List ℕ) (n : ℕ) → 1 ≤ length bs → add_bytes n bs < 2 ^ 32
unfolding add_bytes
add_bytes-lt_some [] n h = absurd (omega arith)
add_bytes-lt_some (b ∷ bs) n h = add_bytes-lt bs ((n + b) % 2 ^ 32) (omega arith)

-- A hash fits its type, whatever its sum began with.
pub hash-lt :
    (stack_bytes : List ℕ) (stack_word : ℕ) (message : Bytes)
    → hash stack_bytes stack_word message < 2 ^ 32
unfolding hash
hash-lt stack_bytes stack_word message =
    let s = final_words stack_bytes message in
    add_bytes-lt_some (revert s) stack_word (omega (arith, length-revert s))
