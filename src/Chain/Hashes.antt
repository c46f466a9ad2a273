-- ===== src/Chain/Hashes.antt =====
-- `get_active_chain_hashes` against the parent pointers that the block records hold.
use Prim.Native.Nat.{min}
use mathlib.Core.Path.{fun_ext}
use native.Mathlib.Decide.{dec_lt}
use crypt_bank.Prelude.{
  ℕ, zero, suc, ◌+◌, ◌-◌, ◌≤◌, ◌<◌, ◌≡◌, refl, sym, ap, ◌∙◌, true, false, some, List, [], ◌∷◌, ◌++◌,
  append_assoc, append-nil, arith, ltb, leb, nat_beq, if◌then◌else◌, lt→ltb, ltb-eq-false, length,
  get_elem?, length-append,
}
use crypt_bank.Env.{Env}
use crypt_bank.BlockInfo.Lookup.{record_at, get_block_record-record_at, record_at-get_block_record}
use crypt_bank.Chain.{Chain, look_up, get_last_block_hash, hashes_loop, get_active_chain_hashes}

leb-eq-true : (a b : ℕ) → a ≤ b → leb a b ≡ true
leb-eq-true a b h = ground arith

leb-eq-false : (a b : ℕ) → b < a → leb a b ≡ false
leb-eq-false a b h = ground arith

-- `n` steps back from `h`.
unfoldable pub ancestor : (ℕ → ℕ) → ℕ → ℕ → ℕ
ancestor parent zero h = h
ancestor parent (suc n) h = ancestor parent n (parent h)

-- The hashes of the heights from `start` to `end`, oldest first, where `h` has height `n`.
pub record Window (parent : ℕ → ℕ) (n start end h : ℕ) (hs : List ℕ) : Type 0 where
  pub how_many : length hs ≡ min n end + 1 - start
  pub at : (k : ℕ) → k < length hs → get_elem? hs k ≡ some (ancestor parent (n - (start + k)) h)

get_elem?-append :
    (xs ys : List ℕ) (k : ℕ) → k < length xs → get_elem? (xs ++ ys) k ≡ get_elem? xs k
get_elem?-append [] ys k h = absurd (omega arith)
get_elem?-append (x ∷ xs) ys zero h = refl
get_elem?-append (x ∷ xs) ys (suc k) h = get_elem?-append xs ys k (omega arith)

get_elem?-append_end :
    (xs : List ℕ) (y k : ℕ) → k ≡ length xs → get_elem? (xs ++ (y ∷ [])) k ≡ some y
get_elem?-append_end [] y zero h = refl
get_elem?-append_end [] y (suc k) h = absurd (omega arith)
get_elem?-append_end (x ∷ xs) y zero h = absurd (omega arith)
get_elem?-append_end (x ∷ xs) y (suc k) h = get_elem?-append_end xs y k (omega arith)

ancestor-step :
    (parent : ℕ → ℕ) (i j h : ℕ)
    → j ≤ i
    → ancestor parent (i - j) (parent h) ≡ ancestor parent (suc i - j) h
ancestor-step parent i j h le =
    let e : suc i - j ≡ suc (i - j) = omega arith in rw e (unfold ancestor in refl)

module _ (parent : ℕ → ℕ) (i start end h : ℕ) (hs : List ℕ) where
  Window-grow :
      start ≤ suc i
      → suc i ≤ end
      → Window parent i start end (parent h) hs
      → Window parent (suc i) start end h (hs ++ (h ∷ []))
  Window-grow ge le w = record {
    how_many = omega (arith, length-append hs (h ∷ []), w.how_many);
    at = λ k lt. elim (dec_lt k (length hs)) [
      | yes inside ↦
          get_elem?-append hs (h ∷ []) k inside
          ∙ w.at k inside
          ∙ ap some (ancestor-step parent i (start + k) h (omega (arith, w.how_many)))
      | no last ↦
          get_elem?-append_end hs h k (omega (arith, length-append hs (h ∷ [])))
          ∙ ap some (zero_steps k (omega (arith, length-append hs (h ∷ []), w.how_many)))
    ];
  }
    where
      zero_steps : (k : ℕ) → suc i - (start + k) ≡ 0 → h ≡ ancestor parent (suc i - (start + k)) h
      zero_steps k e = rw e (unfold ancestor in refl)

  Window-skip :
      end < suc i → Window parent i start end (parent h) hs → Window parent (suc i) start end h hs
  Window-skip gt w = record {
    how_many = omega (arith, w.how_many);
    at = λ k lt.
        w.at k lt ∙ ap some (ancestor-step parent i (start + k) h (omega (arith, w.how_many)));
  }

module _ (env : Env) where
  -- The parent that the record of a hash names.
  unfoldable pub parent_of : Chain → ℕ → ℕ
  parent_of c h = (record_at env.proto c.block_info_database h).block_header.previous_block_hash

  pub look_up-parent_of :
      (c : Chain) (h : ℕ) → (look_up env c h).0.block_header.previous_block_hash ≡ parent_of c h
  unfolding look_up parent_of
  look_up-parent_of c h =
      ap (λ r. r.block_header.previous_block_hash)
        (get_block_record-record_at env.proto c.block_info_database h)

  pub parent_of-look_up : (c : Chain) (h : ℕ) → parent_of (look_up env c h).1 ≡ parent_of c
  unfolding look_up parent_of
  parent_of-look_up c h = fun_ext λ j.
      ap (λ r. r.block_header.previous_block_hash)
        (record_at-get_block_record env.proto c.block_info_database h j)

  Window-next :
      (c : Chain) (prev n start end : ℕ) (hs : List ℕ)
      → Window
          (parent_of (look_up env c prev).1)
          n
          start
          end
          (look_up env c prev).0.block_header.previous_block_hash
          hs
      → Window (parent_of c) n start end (parent_of c prev) hs
  Window-next c prev n start end hs w =
      rw (sym (parent_of-look_up c prev))
        (rw (ap (λ p. p prev) (parent_of-look_up c prev), sym (look_up-parent_of c prev)) w)

  hashes_loop-Window :
      (n start end prev : ℕ) (result : List ℕ) (c : Chain)
      → 1 ≤ start
      → (hs : List ℕ) × ((hashes_loop env n start end prev result c).0 ≡ hs ++ result)
        × Window (parent_of c) n start end prev hs
  unfolding hashes_loop
  hashes_loop-Window zero start end prev result c pos =
      ([], refl, record { how_many = omega arith; at = λ k lt. absurd (omega arith) })
  hashes_loop-Window (suc n) start end prev result c pos = elim (dec_lt (suc n) start) [
    | yes below ↦ (
      [],
      rw (lt→ltb (suc n) start below) refl,
      record { how_many = omega arith; at = λ k lt. absurd (omega arith) },
    )
    | no above ↦ elim (dec_lt end (suc n)) [
      | yes outside ↦
          let (hs, e, w) =
            hashes_loop-Window n start end (look_up env c prev).0.block_header.previous_block_hash
              result (look_up env c prev).1 pos in
          (
            hs,
            rw (ltb-eq-false (suc n) start (omega arith)) (rw (leb-eq-false (suc n) end outside) e),
            Window-skip (parent_of c) n start end prev hs outside
                (Window-next c prev n start end hs w),
          )
      | no inside ↦
          let (hs, e, w) =
            hashes_loop-Window n start end (look_up env c prev).0.block_header.previous_block_hash
              (prev ∷ result) (look_up env c prev).1 pos in
          (
            hs ++ (prev ∷ []),
            rw (ltb-eq-false (suc n) start (omega arith)) (
                rw (leb-eq-true (suc n) end (omega arith))
                  (e ∙ sym (append_assoc hs (prev ∷ []) result))),
            Window-grow (parent_of c) n start end prev hs (omega arith) (omega arith)
                (Window-next c prev n start end hs w),
          )
    ]
  ]

  -- Where the last block can be read and `1 ≤ start ≤ end`, `get_active_chain_hashes` does not fault
  -- and returns the hashes of the heights from `start` to the smaller of `end` and the length,
  -- oldest first: as many as there are such heights, and at place `k` the hash that is reached from
  -- the last block's hash by as many parent steps as height `start + k` is below the length.
  pub get_active_chain_hashes-Window :
      (c : Chain) (start end last : ℕ)
      → get_last_block_hash env c ≡ some last
      → 1 ≤ start
      → start ≤ end
      → (hs : List ℕ) × (c' : Chain) × (get_active_chain_hashes env c start end ≡ some (hs, c'))
        × Window (parent_of c) c.active_chain_length start (min c.active_chain_length end) last hs
  unfolding get_active_chain_hashes
  get_active_chain_hashes-Window c start end last e pos le =
      let (hs, made, w) =
        hashes_loop-Window c.active_chain_length start (min c.active_chain_length end) last [] c
          pos in
      let e1 : nat_beq start 0 ≡ false = ground arith in
      let e2 : (if ltb c.active_chain_length end then c.active_chain_length else end)
          ≡ min c.active_chain_length end =
        ground arith in
      (
        hs,
        (hashes_loop env c.active_chain_length start (min c.active_chain_length end) last [] c).1,
        rw (ltb-eq-false end start le) (
            rw (e, e1, e2)
              (ap
                (λ xs. some (
                  xs,
                  (hashes_loop env c.active_chain_length start (min c.active_chain_length end) last
                      [] c).1,
                ))
                (made ∙ append-nil hs))),
        w,
      )
