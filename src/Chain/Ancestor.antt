-- ===== src/Chain/Ancestor.antt =====
-- `get_forked_blocks_stack` where a fork and the active chain meet in a common ancestor.
use crypt_bank.Prelude.{
  ℕ, ◌≤◌, ◌≡◌, refl, sym, ap, ◌∙◌, ◌≢◌, true, Option, some, List, [], ◌∷◌, ◌++◌, map, append_assoc,
  append-nil, arith, nat_beq_iff, length,
}
use mathlib.Core.Path.{subst}
use crypt_bank.Primitives.{Block}
use crypt_bank.Env.{Env, block_hash}
use crypt_bank.BlockInfo.{BlockInfoDatabase}
use crypt_bank.BlockInfo.Lookup.{get_block_record-record_at}
use crypt_bank.Writer.{FileSystem}
use crypt_bank.Chain.{Chain, look_up, get_active_chain_hashes}
use crypt_bank.Chain.Reorg.{mismatch, forked_hashes, stack_blocks, get_forked_blocks_stack}
use crypt_bank.Chain.Queries.{
  SameCore, SameCore-trans, look_up-SameCore, forked_hashes-SameCore,
  get_active_chain_hashes-SameCore,
}
use crypt_bank.Chain.Fork.{stack_blocks-suc}
use crypt_bank.Chain.History.{Kept, KeptAll, Linked, IsSpine}
use crypt_bank.Chain.Slice.{slice, map-slice}
use crypt_bank.Chain.Walk.{
  ChainKeeps, ChainKeeps-look_up, LinkedFrom, LinkedFrom-Linked, parent-look_up,
  block_hash-get_block,
}
use crypt_bank.Chain.Ranges.{get_active_chain_hashes-slice}

mismatch-common :
    (common as' fs : List ℕ) (a f : ℕ)
    → a ≢ f
    → mismatch (common ++ (a ∷ as')) (common ++ (f ∷ fs)) ≡ some a
unfolding mismatch
mismatch-common [] as' fs a f h = ground (arith, nat_beq_iff a f, h)
mismatch-common (x ∷ common) as' fs a f h =
    rw ((nat_beq_iff x x).1 refl) (mismatch-common common as' fs a f h)

module _ (env : Env) where
  -- The hashes of blocks from the newest down, oldest first.
  pub ages : List Block → List ℕ
  ages [] = []
  ages (b ∷ bs) = ages bs ++ (block_hash env b ∷ [])

  ages-slice :
      (end : ℕ) (bs : List Block)
      → length bs ≤ end
      → map (block_hash env) (slice 1 end bs) ≡ ages bs
  unfolding ages slice
  ages-slice end [] h = refl
  ages-slice end (b ∷ bs) h =
      sym (append-nil _)
      ∙ map-slice (block_hash env) 1 end b bs [] (ground arith) true (ground arith)
      ∙ ap (λ t. t ++ (block_hash env b ∷ [])) (ages-slice end bs (omega (arith, h)))

  -- Above the ancestor comes the block that stands on it.
  ages-branch :
      (xs base : List Block) (x : Block)
      → (newer : List ℕ) × (ages (xs ++ (x ∷ base)) ≡ ages base ++ (block_hash env x ∷ newer))
  unfolding ages
  ages-branch [] base x = ([], refl)
  ages-branch (z ∷ xs) base x =
      let (newer, e) = ages-branch xs base x in
      (
        newer ++ (block_hash env z ∷ []),
        rw e (append_assoc (ages base) (block_hash env x ∷ newer) (block_hash env z ∷ [])),
      )

  pub KeptAll-SameCore :
      (c c' : Chain) (bs : List Block)
      → SameCore env c c'
      → ChainKeeps env c bs
      → ChainKeeps env c' bs
  KeptAll-SameCore c c' [] same k = tt
  KeptAll-SameCore c c' (b ∷ bs) same (kb, k) =
      let e = same.records (block_hash env b) in
      (
        record {
          in_range = kb.in_range;
          height_is = ap (λ r. r.height) e ∙ kb.height_is;
          parent_is = ap (λ r. r.block_header.previous_block_hash) e ∙ kb.parent_is;
          in_file = rw (e, same.file_system) kb.in_file;
        },
        KeptAll-SameCore c c' bs same k,
      )

  forked_hashes-ages :
      (bs : List Block) (prev : ℕ) (forked : List ℕ) (c : Chain)
      → ChainKeeps env c bs
      → LinkedFrom env prev bs
      → (forked_hashes env (length bs) prev forked c).0 ≡ ages bs ++ forked
  unfolding forked_hashes ages
  forked_hashes-ages [] prev forked c k l = refl
  forked_hashes-ages (b ∷ bs) prev forked c (kb, k) (e, l) =
      let looked = (look_up env c (block_hash env b)).1 in
      rw e (
        ap (λ p. (forked_hashes env (length bs) p (block_hash env b ∷ forked) looked).0)
          (parent-look_up env c b (length (b ∷ bs)) kb)
        ∙ forked_hashes-ages bs b.block_header.previous_block_hash (block_hash env b ∷ forked)
            looked (ChainKeeps-look_up env c (block_hash env b) bs k) l
        ∙ sym (append_assoc (ages bs) (block_hash env b ∷ []) forked))

  KeptAll-suffix :
      (info : BlockInfoDatabase) (fs : FileSystem) (xs zs : List Block)
      → KeptAll env info fs (xs ++ zs)
      → KeptAll env info fs zs
  KeptAll-suffix info fs [] zs k = k
  KeptAll-suffix info fs (x ∷ xs) zs (kx, k) = KeptAll-suffix info fs xs zs k

  LinkedFrom-suffix :
      (prev : ℕ) (xs zs : List Block)
      → LinkedFrom env prev (xs ++ zs)
      → (p : ℕ) × LinkedFrom env p zs
  LinkedFrom-suffix prev [] zs l = (prev, l)
  LinkedFrom-suffix prev (x ∷ xs) zs (e, l) =
      LinkedFrom-suffix x.block_header.previous_block_hash xs zs l

  pub height-look_up :
      (c : Chain) (b : Block) (height : ℕ)
      → Kept env c.block_info_database c.file_system b height
      → (look_up env c (block_hash env b)).0.height ≡ height
  unfolding look_up
  height-look_up c b height k =
      ap (λ r. r.height)
        (get_block_record-record_at env.proto c.block_info_database (block_hash env b))
      ∙ k.height_is

  -- The steps of `get_forked_blocks_stack`, one after another.
  get_forked_blocks_stack-steps :
      (c c1 : Chain) (start height m ancestor : ℕ) (active : List ℕ)
      (result : Option (List (Option Block) × Chain))
      → get_active_chain_hashes env c 1 c.active_chain_length ≡ some (active, c1)
      → (look_up env c1 start).0.height ≡ height
      → (let (forked, c3) = forked_hashes env height start [] (look_up env c1 start).1 in
          (mismatch active forked ≡ some m)
          × ((look_up env c3 m).0.block_header.previous_block_hash ≡ ancestor)
          × (stack_blocks env height ancestor ancestor [] (look_up env c3 m).1 ≡ result))
      → get_forked_blocks_stack env c start ≡ result
  unfolding get_forked_blocks_stack
  get_forked_blocks_stack-steps c c1 start height m ancestor active result e1 e2 (e3, e4, e5) =
      rw (e1, e2, e3, e4) e5

  -- The active chain and a fork of kept blocks that part above `a`, with blocks of different hashes:
  -- the stack is the ancestor `a` alone, however many blocks stand above it.
  pub get_forked_blocks_stack-ancestor :
      (c : Chain) (last : Block) (bs xs ys base : List Block) (x y a top : Block)
      (side : List Block)
      → IsSpine env c last bs
      → last ∷ bs ≡ xs ++ (x ∷ a ∷ base)
      → top ∷ side ≡ ys ++ (y ∷ a ∷ base)
      → block_hash env x ≢ block_hash env y
      → ChainKeeps env c (top ∷ side)
      → Linked env top side
      → (c' : Chain) × (get_forked_blocks_stack env c (block_hash env top) ≡ some (some a ∷ [], c'))
        × SameCore env c c'
  get_forked_blocks_stack-ancestor c last bs xs ys base x y a top side h active_is side_is differ
        kept linked =
      let (c1, e1) = get_active_chain_hashes-slice env c last bs h 1 c.active_chain_length in
      let same1 = get_active_chain_hashes-SameCore env c c1 1 c.active_chain_length _ e1 in
      let kept1 = KeptAll-SameCore c c1 (top ∷ side) same1 kept in
      let start = block_hash env top in
      let height = length (top ∷ side) in
      let c2 : Chain = (look_up env c1 start).1 in
      let c3 : Chain = (forked_hashes env height start [] c2).1 in
      let c4 : Chain = (look_up env c3 (block_hash env x)).1 in
      let same3 = SameCore-trans env same1 (
        SameCore-trans env (look_up-SameCore env c1 start)
          (forked_hashes-SameCore env height start [] c2)) in
      let same4 = SameCore-trans env same3 (look_up-SameCore env c3 (block_hash env x)) in
      let above : ChainKeeps env c (x ∷ a ∷ base) =
        KeptAll-suffix c.block_info_database c.file_system xs (x ∷ a ∷ base)
          (subst (λ t. ChainKeeps env c t) active_is h.kept) in
      let kept3 = KeptAll-SameCore c c3 (x ∷ a ∷ base) same3 above in
      let kept4 = KeptAll-SameCore c c4 (x ∷ a ∷ base) same4 above in
      let (p, l) = LinkedFrom-suffix (block_hash env last) xs (x ∷ a ∷ base) (
        subst (λ t. LinkedFrom env (block_hash env last) t) active_is
          (LinkedFrom-Linked env last bs h.linked)) in
      let active =
        ages-slice c.active_chain_length (last ∷ bs) (omega (arith, h.length_is))
        ∙ ap ages active_is in
      let older = ages-branch xs (a ∷ base) x in
      let other = ages-branch ys (a ∷ base) y in
      let forked =
        forked_hashes-ages (top ∷ side) start [] c2
          (ChainKeeps-look_up env c1 start (top ∷ side) kept1)
          (LinkedFrom-Linked env top side linked) in
      (
        (look_up env c4 (block_hash env a)).1,
        get_forked_blocks_stack-steps c c1 start height (block_hash env x) (block_hash env a) _ _ e1
            (height-look_up c1 top height kept1.0)
            (
              ap (λ t. mismatch t (forked_hashes env height start [] c2).0) (active ∙ older.1)
                  ∙ ap (mismatch _) (forked ∙ append-nil _ ∙ ap ages side_is ∙ other.1)
                  ∙ mismatch-common (ages (a ∷ base)) older.0 other.0 (block_hash env x)
                      (block_hash env y) differ,
              parent-look_up env c3 x _ kept3.0 ∙ l.1.0,
              stack_blocks-suc env (length side) (block_hash env a) c4
                  ∙ rw (block_hash-get_block env c4 a _ kept4.1.0) refl,
            ),
        SameCore-trans env same4 (look_up-SameCore env c4 (block_hash env a)),
      )
