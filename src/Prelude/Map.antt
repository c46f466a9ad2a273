-- ===== src/Prelude/Map.antt =====
-- `std::unordered_map`, as the list of its entries in iteration order. A key is looked up at its
-- first entry; the operations keep each key at one entry at most.
use Prim.Native.Nat.{◌+◌, ◌≤◌}
use mathlib.Core.Path.{◌≡◌, refl}
use mathlib.Core.Logic.{inl, inr}
use mathlib.Core.Bool.{Bool, true, false}
use mathlib.Core.Option.{Option, none, some}
use mathlib.Core.List.{List, [], ◌∷◌}
use native.Mathlib.Omega.{arith}
use crypt_bank.Prelude.Tests.{if◌then◌else◌, Bool-cases}
use crypt_bank.Prelude.Equality.{Key, ◌==◌, ==_iff}
use crypt_bank.Prelude.Lists.{length}

abbrev pub Map {ℓ} : Type ℓ → Type ℓ → Type ℓ
Map K V = List (K × V)

module _ {ℓ} {K V : Type ℓ} ⦃key : Key K⦄ where
  -- `find`
  unfoldable pub find : K → Map K V → Option V
  find k [] = none
  find k ((j, v) ∷ m) = if j == k then some v else find k m

  -- `find(k) != end()`
  unfoldable pub contains : K → Map K V → Bool
  contains k [] = false
  contains k ((j, v) ∷ m) = if j == k then true else contains k m

  -- `m[k] = v`
  unfoldable pub assign : K → V → Map K V → Map K V
  assign k v [] = (k, v) ∷ []
  assign k v ((j, w) ∷ m) = if j == k then (k, v) ∷ m else (j, w) ∷ assign k v m

  -- `insert({k, v})`: an entry that is there stays
  unfoldable pub insert : K → V → Map K V → Map K V
  unfolding contains
  insert k v m = if contains k m then m else (k, v) ∷ m

  -- `erase(k)`
  unfoldable pub erase : K → Map K V → Map K V
  erase k [] = []
  erase k ((j, v) ∷ m) = let rest = erase k m in if j == k then rest else (j, v) ∷ rest

  pub find-assign :
      (k j : K) (v : V) (m : Map K V)
      → find j (assign k v m) ≡ (if k == j then some v else find j m)
  unfolding find assign
  find-assign k j v [] = refl
  find-assign k j v ((i, w) ∷ m) =
      ground (arith, ==_iff k j, ==_iff i k, ==_iff i j, find-assign k j v m)

  pub contains-assign :
      (k j : K) (v : V) (m : Map K V)
      → contains j (assign k v m) ≡ (if k == j then true else contains j m)
  unfolding contains assign
  contains-assign k j v [] = refl
  contains-assign k j v ((i, w) ∷ m) =
      ground (arith, ==_iff k j, ==_iff i k, ==_iff i j, contains-assign k j v m)

  pub find-erase :
      (k j : K) (m : Map K V) → find j (erase k m) ≡ (if k == j then none else find j m)
  unfolding find erase
  find-erase k j [] = ground arith
  find-erase k j ((i, w) ∷ m) = ground (arith, ==_iff k j, ==_iff i k, ==_iff i j, find-erase k j m)

  pub contains-erase :
      (k j : K) (m : Map K V) → contains j (erase k m) ≡ (if k == j then false else contains j m)
  unfolding contains erase
  contains-erase k j [] = ground arith
  contains-erase k j ((i, w) ∷ m) =
      ground (arith, ==_iff k j, ==_iff i k, ==_iff i j, contains-erase k j m)

  pub find-none : (k : K) (m : Map K V) → contains k m ≡ false → find k m ≡ none
  unfolding find contains
  find-none k [] h = refl
  find-none k ((j, v) ∷ m) h = ground (arith, find-none k m)

  pub find-some : (k : K) (m : Map K V) → contains k m ≡ true → (v : V) × (find k m ≡ some v)
  unfolding find contains
  find-some k [] h = cc
  find-some k ((j, v) ∷ m) h = elim (Bool-cases (j == k)) [
    | inl same ↦ (v, rw same)
    | inr other ↦ rw other (find-some k m (rw other at h))
  ]

  pub find-insert :
      (k j : K) (v : V) (m : Map K V)
      → find j (insert k v m)
        ≡ (if contains k m then find j m else if k == j then some v else find j m)
  unfolding find insert
  find-insert k j v m = ground arith

  pub length-erase-le : (k : K) (m : Map K V) → length (erase k m) ≤ length m
  unfolding erase
  length-erase-le k [] = omega arith
  length-erase-le k ((j, v) ∷ m) = ground (arith, length-erase-le k m)

  -- erasing takes an entry where there is one, and inserting adds one at most
  pub length-erase : (k : K) (m : Map K V) → contains k m ≡ true → length (erase k m) + 1 ≤ length m
  unfolding contains erase
  length-erase k [] h = cc
  length-erase k ((j, v) ∷ m) h = ground (arith, length-erase k m, length-erase-le k m)

  pub length-insert : (k : K) (v : V) (m : Map K V) → length (insert k v m) ≤ length m + 1
  unfolding insert
  length-insert k v m = ground arith
