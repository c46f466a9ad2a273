-- ===== src/Prelude/Equality.antt =====
-- Boolean equality of keys as an interface, and its instances: numbers and byte strings.
use Prim.Native.Nat.{ℕ}
use mathlib.Core.Path.{◌≡◌, refl}
use mathlib.Core.Logic.{◌↔◌, ◌≢◌}
use mathlib.Core.Bool.{Bool, true, false, ◌&&◌}
use mathlib.Core.List.{List, [], ◌∷◌}
use native.Mathlib.Omega.{arith}
use crypt_bank.Prelude.Tests.{nat_beq, nat_beq_iff}

-- A key type: a test that says exactly which keys are the same.
pub record Key {ℓ} (K : Type ℓ) : Type ℓ where
  pub same : K → K → Bool
  pub same_refl : (k : K) → same k k ≡ true
  pub same_sound : (j k : K) → same j k ≡ true → j ≡ k

infix 50 ◌==◌
abbrev pub ◌==◌ {ℓ} : {K : Type ℓ} ⦃key : Key K⦄ → K → K → Bool
◌==◌ ⦃key⦄ j k = key.same j k

pub ==-refl {ℓ} : {K : Type ℓ} ⦃key : Key K⦄ (k : K) → (k == k) ≡ true
==-refl ⦃key⦄ k = key.same_refl k

pub ==_iff {ℓ} : {K : Type ℓ} ⦃key : Key K⦄ (j k : K) → ((j == k) ≡ true) ↔ (j ≡ k)
==_iff ⦃key⦄ j k = (key.same_sound j k, λ e. rw e (key.same_refl k))

pub ==-eq-false {ℓ} : {K : Type ℓ} ⦃key : Key K⦄ (a b : K) → a ≢ b → (a == b) ≡ false
==-eq-false a b h = ground (arith, ==_iff a b)

-- `std::string`: a sequence of bytes.
abbrev pub Bytes : Type 0
Bytes = List ℕ

unfoldable pub bytes_beq : Bytes → Bytes → Bool
bytes_beq [] [] = true
bytes_beq [] (y ∷ ys) = false
bytes_beq (x ∷ xs) [] = false
bytes_beq (x ∷ xs) (y ∷ ys) = nat_beq x y && bytes_beq xs ys

pub bytes_beq_iff : (a b : Bytes) → (bytes_beq a b ≡ true) ↔ (a ≡ b)
unfolding bytes_beq
bytes_beq_iff [] [] = ground arith
bytes_beq_iff [] (y ∷ ys) = ground arith
bytes_beq_iff (x ∷ xs) [] = ground arith
bytes_beq_iff (x ∷ xs) (y ∷ ys) = ground (arith, bytes_beq_iff xs ys)

instance abbrev pub bytes_eq : Key Bytes
bytes_eq = record {
  same = bytes_beq;
  same_refl = λ s. (bytes_beq_iff s s).1 refl;
  same_sound = λ s t. (bytes_beq_iff s t).0;
}

instance abbrev pub nat_eq : Key ℕ
nat_eq = record {
  same = nat_beq;
  same_refl = λ n. (nat_beq_iff n n).1 refl;
  same_sound = λ n m. (nat_beq_iff n m).0;
}
