-- ===== src/Chain/Fork.antt =====
-- What `handle_block` does where a fork becomes longer than the active chain.
use crypt_bank.Prelude.{
  ℕ, zero, suc, ◌≤◌, ◌≡◌, refl, sym, ◌∙◌, Option, some, List, [], ◌∷◌, arith, nat_beq_iff, length,
  ◌>>=◌, >>=-eq-some,
}
use crypt_bank.Primitives.{Block}
use crypt_bank.Env.{Env}
use crypt_bank.Chain.{Chain, look_up, get_block, get_active_chain_hashes}
use crypt_bank.Chain.Reorg.{forked_hashes, mismatch, stack_blocks, get_forked_blocks_stack}
use crypt_bank.Chain.Queries.{
  SameCore, SameCore-trans, look_up-SameCore, get_block-SameCore, forked_hashes-SameCore,
  get_active_chain_hashes-SameCore,
}

module _ (env : Env) where
  -- The second loop of `get_forked_blocks_stack` begins at the ancestor where it is to end.
  pub stack_blocks-suc :
      (n ancestor : ℕ) (c : Chain)
      → stack_blocks env (suc n) ancestor ancestor [] c
        ≡ (get_block env c ancestor >>= λ p. some (p.0 ∷ [], p.1))
  unfolding stack_blocks
  stack_blocks-suc n ancestor c = rw ((nat_beq_iff ancestor ancestor).1 refl, stack_blocks)

  stack_blocks-ancestor :
      (n ancestor : ℕ) (bs : List (Option Block)) (c c' : Chain)
      → stack_blocks env n ancestor ancestor [] c ≡ some (bs, c')
      → (length bs ≤ 1) × SameCore env c c'
  stack_blocks-ancestor zero ancestor bs c c' e =
      unfold stack_blocks in (ground arith, ground arith)
  stack_blocks-ancestor (suc n) ancestor bs c c' e =
      let (p, got, e1) =
        >>=-eq-some (get_block env c ancestor) _ (sym (stack_blocks-suc n ancestor c) ∙ e) in
      (ground arith, ground (arith, get_block-SameCore env c ancestor p.0 p.1 got))

  -- Where `get_forked_blocks_stack` does not fault, it returns one block at most, however long the
  -- fork is, and changes neither the length, the last block, the writer, the coins nor the files.
  pub get_forked_blocks_stack-one :
      (c c' : Chain) (hash : ℕ) (bs : List (Option Block))
      → get_forked_blocks_stack env c hash ≡ some (bs, c')
      → (length bs ≤ 1) × SameCore env c c'
  unfolding get_forked_blocks_stack
  get_forked_blocks_stack-one c c' hash bs e =
      let (p, e1, e2) = >>=-eq-some (get_active_chain_hashes env c 1 c.active_chain_length) _ e in
      let c2 : Chain = (look_up env p.1 hash).1 in
      let c3 : Chain = (forked_hashes env (look_up env p.1 hash).0.height hash [] c2).1 in
      let (m, e3, e4) =
        >>=-eq-some (mismatch p.0 (forked_hashes env (look_up env p.1 hash).0.height hash [] c2).0)
          _ e2 in
      let (short, same) = stack_blocks-ancestor _ _ bs (look_up env c3 m).1 c' e4 in
      (
        short,
        SameCore-trans env (get_active_chain_hashes-SameCore env c p.1 _ _ p.0 e1) (
            SameCore-trans env (look_up-SameCore env p.1 hash) (
              SameCore-trans env (forked_hashes-SameCore env _ hash [] c2)
                (SameCore-trans env (look_up-SameCore env c3 m) same))),
      )
