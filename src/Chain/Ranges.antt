-- ===== src/Chain/Ranges.antt =====
-- The queries for a part of the active chain, against the blocks that it is made of.
use crypt_bank.Prelude.{
  ℕ, suc, ◌≡◌, refl, sym, ap, ◌∙◌, inl, inr, true, false, Option, some, List, [], ◌∷◌, ◌++◌, map,
  append-nil, ltb, leb, nat_beq, if◌then◌else◌, ltb→lt, Bool-cases, length,
}
use crypt_bank.Primitives.{Block}
use crypt_bank.Env.{Env, block_hash}
use crypt_bank.Chain.{
  Chain, look_up, get_block, hashes_loop, blocks_loop, get_active_chain, get_active_chain_hashes,
}
use crypt_bank.Chain.Active.{last_hash}
use crypt_bank.Chain.History.{Linked, IsSpine}
use crypt_bank.Chain.Slice.{slice, slice-below, slice-empty, map-slice, slice-bounds}
use crypt_bank.Chain.Walk.{
  ChainKeeps, ChainKeeps-look_up, LinkedFrom, LinkedFrom-Linked, parent-look_up,
  block_hash-get_block,
}

module _ (env : Env) where
  hashes_loop-slice :
      (bs : List Block) (start end prev : ℕ) (result : List ℕ) (c : Chain)
      → ChainKeeps env c bs
      → LinkedFrom env prev bs
      → (hashes_loop env (length bs) start end prev result c).0
        ≡ map (block_hash env) (slice start end bs) ++ result
  unfolding hashes_loop slice
  hashes_loop-slice [] start end prev result c k l = refl
  hashes_loop-slice (b ∷ bs) start end prev result c (kb, k) (e, l) =
      elim (Bool-cases (ltb (suc (length bs)) start)) [
        | inl t ↦ rw (t, slice-below start end (b ∷ bs) (ltb→lt _ _ t)) refl
        | inr f ↦
            rw
              (
                f,
                e,
                parent-look_up env c b (length (b ∷ bs)) kb,
                map-slice (block_hash env) start end b bs result f _ refl,
              )
              (hashes_loop-slice bs start end b.block_header.previous_block_hash
                (if leb (suc (length bs)) end then block_hash env b ∷ result else result)
                (look_up env c (block_hash env b)).1
                (ChainKeeps-look_up env c (block_hash env b) bs k) l)
      ]

  -- One step of the loop at the hash of a kept block.
  blocks_loop-below :
      (i start end prev : ℕ) (result : List (Option Block)) (c : Chain)
      → ltb (suc i) start ≡ true
      → blocks_loop env (suc i) start end prev result c ≡ some (result, c)
  unfolding blocks_loop
  blocks_loop-below i start end prev result c t = rw (t, blocks_loop) refl

  blocks_loop-above :
      (i start end prev : ℕ) (result : List (Option Block)) (c : Chain)
      → ltb (suc i) start ≡ false
      → leb (suc i) end ≡ false
      → blocks_loop env (suc i) start end prev result c ≡ (
          let (r, c') = look_up env c prev in
          blocks_loop env i start end r.block_header.previous_block_hash result c')
  unfolding blocks_loop
  blocks_loop-above i start end prev result c f g = rw (f, g, blocks_loop) refl

  blocks_loop-inside :
      (i start end prev : ℕ) (result : List (Option Block)) (c c1 : Chain) (b : Option Block)
      → ltb (suc i) start ≡ false
      → leb (suc i) end ≡ true
      → get_block env c prev ≡ some (b, c1)
      → blocks_loop env (suc i) start end prev result c ≡ (
          let (r, c') = look_up env c1 prev in
          blocks_loop env i start end r.block_header.previous_block_hash (b ∷ result) c')
  unfolding blocks_loop
  blocks_loop-inside i start end prev result c c1 b f g e = rw (f, g, e, blocks_loop) refl

  blocks_loop-slice :
      (bs : List Block) (start end prev : ℕ) (result : List (Option Block)) (c : Chain)
      → ChainKeeps env c bs
      → LinkedFrom env prev bs
      → (c' : Chain) × (blocks_loop env (length bs) start end prev result c
          ≡ some (map some (slice start end bs) ++ result, c'))
  unfolding blocks_loop slice
  blocks_loop-slice [] start end prev result c k l = (c, refl)
  blocks_loop-slice (b ∷ bs) start end prev result c (kb, k) (e, l) =
      let n = length bs in
      let hash = block_hash env b in
      let looked = (look_up env c hash).1 in
      let kept = ChainKeeps-look_up env c hash (b ∷ bs) (kb, k) in
      elim (Bool-cases (ltb (suc n) start)) [
        | inl t ↦ (
          c,
          blocks_loop-below n start end prev result c t
              ∙ rw (slice-below start end (b ∷ bs) (ltb→lt _ _ t)) refl,
        )
        | inr f ↦ elim (Bool-cases (leb (suc n) end)) [
          | inl within ↦
              let (c', h) =
                blocks_loop-slice bs start end b.block_header.previous_block_hash (some b ∷ result)
                  (look_up env looked hash).1 (ChainKeeps-look_up env looked hash bs kept.1) l in
              (
                c',
                rw e (
                    blocks_loop-inside n start end hash result c looked (some b) f within
                      (block_hash-get_block env c b (length (b ∷ bs)) kb)
                    ∙ rw (parent-look_up env looked b (length (b ∷ bs)) kept.0) (
                        h
                        ∙ ap (λ r. some (r, c'))
                            (sym (map-slice some start end b bs result f true within)))),
              )
          | inr beyond ↦
              let (c', h) =
                blocks_loop-slice bs start end b.block_header.previous_block_hash result looked
                  kept.1 l in
              (
                c',
                rw e (
                    blocks_loop-above n start end hash result c f beyond
                    ∙ rw (parent-look_up env c b (length (b ∷ bs)) kb) (
                        h
                        ∙ ap (λ r. some (r, c'))
                            (sym (map-slice some start end b bs result f false beyond)))),
              )
        ]
      ]

  blocks_loop-bounds :
      (c : Chain) (b : Block) (bs : List Block) (n start end : ℕ)
      → n ≡ length (b ∷ bs)
      → ChainKeeps env c (b ∷ bs)
      → Linked env b bs
      → (c' : Chain) × (blocks_loop env n
            (if nat_beq start 0 then 1 else start)
            (if ltb n end then n else end)
            (block_hash env b)
            []
            c
          ≡ some (map some (slice start end (b ∷ bs)), c'))
  blocks_loop-bounds c b bs n start end e kept linked =
      let (c', h) =
        blocks_loop-slice (b ∷ bs) (if nat_beq start 0 then 1 else start)
          (if ltb (suc (length bs)) end then suc (length bs) else end) (block_hash env b) [] c kept
          (LinkedFrom-Linked env b bs linked) in
      (
        c',
        rw e (
            h
            ∙ ap (λ w. some (w, c')) (append-nil _ ∙ ap (map some) (slice-bounds start end b bs))),
      )

  hashes_loop-bounds :
      (c : Chain) (b : Block) (bs : List Block) (n start end : ℕ)
      → n ≡ length (b ∷ bs)
      → ChainKeeps env c (b ∷ bs)
      → Linked env b bs
      → (hashes_loop env n
          (if nat_beq start 0 then 1 else start)
          (if ltb n end then n else end)
          (block_hash env b)
          []
          c).0
        ≡ map (block_hash env) (slice start end (b ∷ bs))
  hashes_loop-bounds c b bs n start end e kept linked = rw e (
      hashes_loop-slice (b ∷ bs) (if nat_beq start 0 then 1 else start)
        (if ltb (suc (length bs)) end then suc (length bs) else end) (block_hash env b) [] c kept
        (LinkedFrom-Linked env b bs linked)
      ∙ append-nil _
      ∙ ap (map (block_hash env)) (slice-bounds start end b bs))

  -- Of a chain made of kept blocks, each naming the one before it, `get_active_chain` does not fault
  -- and returns the blocks whose heights are from `start` to `end`, oldest first and none null: from
  -- the first when `start` is 0, up to the last when `end` is beyond it, none when `end < start`.
  pub get_active_chain-slice :
      (c : Chain) (b : Block) (bs : List Block)
      → IsSpine env c b bs
      → (start end : ℕ)
      → (c' : Chain) × (get_active_chain env c start end
          ≡ some (map some (slice start end (b ∷ bs)), c'))
  unfolding get_active_chain
  get_active_chain-slice c b bs h start end = elim (Bool-cases (ltb end start)) [
    | inl t ↦ (c, rw (t, slice-empty start end (b ∷ bs) (ltb→lt _ _ t)) refl)
    | inr f ↦
        let (c', e) =
          blocks_loop-bounds c b bs c.active_chain_length start end h.length_is h.kept h.linked in
        (c', rw (f, last_hash env c b h.kept.0.in_range h.last_is) e)
  ]

  -- Of a chain made of kept blocks, each naming the one before it, `get_active_chain_hashes` does
  -- not fault and returns the hashes of the blocks whose heights are from `start` to `end`, oldest
  -- first: from the first when `start` is 0, up to the last when `end` is beyond it, none when `end
  -- < start`.
  pub get_active_chain_hashes-slice :
      (c : Chain) (b : Block) (bs : List Block)
      → IsSpine env c b bs
      → (start end : ℕ)
      → (c' : Chain) × (get_active_chain_hashes env c start end
          ≡ some (map (block_hash env) (slice start end (b ∷ bs)), c'))
  unfolding get_active_chain_hashes
  get_active_chain_hashes-slice c b bs h start end = elim (Bool-cases (ltb end start)) [
    | inl t ↦ (c, rw (t, slice-empty start end (b ∷ bs) (ltb→lt _ _ t)) refl)
    | inr f ↦
        let n = c.active_chain_length in
        let loop =
          hashes_loop env n (if nat_beq start 0 then 1 else start) (if ltb n end then n else end)
            (block_hash env b) [] c in
        let e = hashes_loop-bounds c b bs n start end h.length_is h.kept h.linked in
        (
          loop.1,
          rw (f, last_hash env c b h.kept.0.in_range h.last_is) (ap (λ w. some (w, loop.1)) e),
        )
  ]
