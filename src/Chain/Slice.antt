-- ===== src/Chain/Slice.antt =====
-- The part of a list of blocks between two heights.
use crypt_bank.Prelude.{
  ℕ, zero, suc, ◌≤◌, ◌<◌, ◌≡◌, refl, ap, ◌∙◌, Bool, true, false, ◌&&◌, List, [], ◌∷◌, ◌++◌, map,
  arith, ltb, leb, nat_beq, if◌then◌else◌, length,
}
use crypt_bank.Primitives.{Block}

-- Of blocks from the newest down, those whose heights are from `start` to `end`, oldest first.
unfoldable pub slice : ℕ → ℕ → List Block → List Block
slice start end [] = []
slice start end (b ∷ bs) =
    slice start end bs
    ++ (if leb start (suc (length bs)) && leb (suc (length bs)) end then b ∷ [] else [])

pub slice-below : (start end : ℕ) (bs : List Block) → length bs < start → slice start end bs ≡ []
unfolding slice
slice-below start end [] h = refl
slice-below start end (b ∷ bs) h = ground (arith, slice-below start end bs)

pub slice-empty : (start end : ℕ) (bs : List Block) → end < start → slice start end bs ≡ []
unfolding slice
slice-empty start end [] h = refl
slice-empty start end (b ∷ bs) h = ground (arith, slice-empty start end bs)

pub slice-from_zero : (end : ℕ) (bs : List Block) → slice 1 end bs ≡ slice 0 end bs
unfolding slice
slice-from_zero end [] = refl
slice-from_zero end (b ∷ bs) = ground (arith, slice-from_zero end bs)

pub slice-capped :
    (start end n : ℕ) (bs : List Block)
    → length bs ≤ n
    → slice start (if ltb n end then n else end) bs ≡ slice start end bs
unfolding slice
slice-capped start end n [] h = refl
slice-capped start end n (b ∷ bs) h = ground (arith, slice-capped start end n bs)

map-append_if :
    {A : Type 0} (f : Block → A) (xs : List Block) (b : Block) (p : Bool) (result : List A)
    → map f (xs ++ (if p then b ∷ [] else [])) ++ result
      ≡ map f xs ++ (if p then f b ∷ result else result)
map-append_if f [] b true result = refl
map-append_if f [] b false result = refl
map-append_if f (x ∷ xs) b p result = ap (λ t. f x ∷ t) (map-append_if f xs b p result)

-- The newest block of a slice, when the start is not above it.
pub map-slice :
    {A : Type 0} (f : Block → A) (start end : ℕ) (b : Block) (bs : List Block) (result : List A)
    → ltb (suc (length bs)) start ≡ false
    → (p : Bool) → leb (suc (length bs)) end ≡ p
    → map f (slice start end (b ∷ bs)) ++ result
      ≡ map f (slice start end bs) ++ (if p then f b ∷ result else result)
unfolding slice
map-slice f start end b bs result h p e =
    let below : leb start (suc (length bs)) ≡ true = ground arith in
    rw (below, e) (map-append_if f (slice start end bs) b p result)

-- The bounds that the two queries give their loops.
pub slice-bounds :
    (start end : ℕ) (b : Block) (bs : List Block)
    → slice
        (if nat_beq start 0 then 1 else start)
        (if ltb (suc (length bs)) end then suc (length bs) else end)
        (b ∷ bs)
      ≡ slice start end (b ∷ bs)
slice-bounds zero end b bs =
    slice-capped 1 end (suc (length bs)) (b ∷ bs) (omega arith) ∙ slice-from_zero end (b ∷ bs)
slice-bounds (suc start) end b bs =
    let positive : nat_beq (suc start) 0 ≡ false = ground arith in
    rw positive (slice-capped (suc start) end (suc (length bs)) (b ∷ bs) (omega arith))
