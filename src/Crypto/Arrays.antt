-- ===== src/Crypto/Arrays.antt =====
-- Assignments to the array `m_data`, one after another.
use crypt_bank.Prelude.{
  ℕ, zero, suc, ◌+◌, ◌-◌, ◌≤◌, ◌≡◌, refl, sym, ap, ◌∙◌, [], ◌∷◌, ◌++◌, append_assoc, arith, length,
  drop, replicate, length-append, Bytes,
}
use crypt_bank.Crypto.{set, fill_zeros, write_length}
use crypt_bank.Crypto.Blocks.{length_bytes}

pub set-append : (a b : Bytes) (i k v : ℕ) → i ≡ length a + k → set (a ++ b) i v ≡ a ++ set b k v
set-append [] b i k v e = let same : i ≡ k = omega (arith, e) in rw same refl
set-append (x ∷ a) b zero k v e = absurd (omega (arith, e))
set-append (x ∷ a) b (suc i) k v e = ap (λ t. x ∷ t) (set-append a b i k v (omega (arith, e)))

pub fill_zeros-append :
    (n : ℕ) (a b : Bytes) (i : ℕ)
    → i ≡ length a
    → n ≤ length b
    → fill_zeros n i (a ++ b) ≡ a ++ (replicate n 0 ++ drop n b)
unfolding fill_zeros
fill_zeros-append zero a b i e h = refl
fill_zeros-append (suc n) a [] i e h = absurd (omega (arith, h))
fill_zeros-append (suc n) a (x ∷ b) i e h =
    ap (fill_zeros n (i + 1))
      (set-append a (x ∷ b) i 0 0 (omega (arith, e)) ∙ sym (append_assoc a (0 ∷ []) b))
    ∙ fill_zeros-append n (a ++ (0 ∷ [])) b (i + 1) (omega (arith, e, length-append a (0 ∷ [])))
        (omega (arith, h))
    ∙ append_assoc a (0 ∷ []) _

-- Assignments from an index on, the last one first.
overwrite : Bytes → ℕ → Bytes → Bytes
overwrite d i [] = d
overwrite d i (v ∷ vs) = set (overwrite d (i + 1) vs) i v

overwrite-append :
    (a b vs : Bytes) (i : ℕ)
    → i ≡ length a
    → length b ≡ length vs
    → overwrite (a ++ b) i vs ≡ a ++ vs
unfolding overwrite
overwrite-append a [] [] i e h = refl
overwrite-append a (x ∷ b) [] i e h = absurd (omega (arith, h))
overwrite-append a [] (v ∷ vs) i e h = absurd (omega (arith, h))
overwrite-append a (x ∷ b) (v ∷ vs) i e h =
    ap (λ d. set d i v)
      (ap (λ d. overwrite d (i + 1) vs) (sym (append_assoc a (x ∷ []) b))
        ∙ overwrite-append (a ++ (x ∷ [])) b vs (i + 1) (omega (arith, e, length-append a (x ∷ [])))
            (omega (arith, h))
        ∙ append_assoc a (x ∷ []) vs)
    ∙ set-append a (x ∷ vs) i 0 v (omega (arith, e))

pub write_length-append :
    (bits : ℕ) (a b : Bytes)
    → length a ≡ 56
    → length b ≡ 8
    → write_length bits (a ++ b) ≡ a ++ length_bytes bits
unfolding write_length length_bytes overwrite
write_length-append bits a b e h = overwrite-append a b (length_bytes bits) 56 (sym e) h

pub length-drop : (n : ℕ) (b : Bytes) → length (drop n b) ≡ length b - n
length-drop zero b = omega arith
length-drop (suc n) [] = omega arith
length-drop (suc n) (x ∷ b) = omega (arith, length-drop n b)

pub replicate-add : (k m n v : ℕ) → k ≡ m + n → replicate k v ≡ replicate m v ++ replicate n v
replicate-add k zero n v e = let same : k ≡ n = omega (arith, e) in rw same refl
replicate-add zero (suc m) n v e = absurd (omega (arith, e))
replicate-add (suc k) (suc m) n v e = ap (λ t. v ∷ t) (replicate-add k m n v (omega (arith, e)))

pub drop-all : (b : Bytes) → drop (length b) b ≡ []
drop-all [] = refl
drop-all (x ∷ b) = drop-all b

pub nil-of : {b : Bytes} → length b ≡ 0 → b ≡ []
nil-of {b = []} h = refl
nil-of {b = x ∷ b} h = absurd (omega (arith, h))
