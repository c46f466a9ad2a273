-- ===== src/Coins/Reachable.antt =====
-- The states of a `CoinDatabase` that its public operations reach, and what holds of all of them.
use crypt_bank.Prelude.{◌≡◌, refl, ap, Bool, some, List, arith, nat_beq_iff, nat_eq}
use crypt_bank.Primitives.{Transaction}
use crypt_bank.Env.{Env}
use crypt_bank.Coins.{
  CoinDatabase, empty, validate_transaction, validate_block, flush_main_cache, store_block,
  store_transaction_in_mempool, store_transaction,
}
use crypt_bank.Coins.Undo.{undo_coins, undo_coins-no_effect}
use crypt_bank.Records.{UndoBlock}
use crypt_bank.Coins.Bounds.{IsBounded, flush_main_cache-Keeps}
use crypt_bank.Coins.Growth.{
  Grows, Grows-trans, Grows-same, store_block-Grows, store_transaction-Grows, validate_inputs-Grows,
  validate_block-Grows,
}

-- One call of an operation that does not fault.
pub data Step (env : Env) (c : CoinDatabase) : CoinDatabase → Type 0 where
  on_validate_transaction :
      (t : Transaction) {ok : Bool} {c' : CoinDatabase}
      → validate_transaction env c t ≡ some (ok, c')
      → Step env c c'
  on_validate_block :
      (ts : List Transaction) {ok : Bool} {c' : CoinDatabase}
      → validate_block env c ts ≡ some (ok, c')
      → Step env c c'
  on_store_block :
      (ts : List Transaction) {c' : CoinDatabase} → store_block env c ts ≡ some c' → Step env c c'
  on_store_transaction : (t : Transaction) → Step env c (store_transaction env c t)
  on_flush_main_cache : {c' : CoinDatabase} → flush_main_cache env c ≡ some c' → Step env c c'
  on_undo_coins :
      (us : List UndoBlock) {c' : CoinDatabase} → undo_coins env c us ≡ some c' → Step env c c'

pub data Steps (env : Env) (c : CoinDatabase) : CoinDatabase → Type 0 where
  here : Steps env c c
  after : {c1 c2 : CoinDatabase} → Steps env c c1 → Step env c1 c2 → Steps env c c2

module _ (env : Env) where
  Step-Grows : (c c' : CoinDatabase) → IsBounded c → Step env c c' → Grows c c'
  Step-Grows c c' h (on_validate_transaction t {ok} e) =
      validate_inputs-Grows env c c' t.transaction_inputs ok h (unfold validate_transaction in e)
  Step-Grows c c' h (on_validate_block ts {ok} e) = validate_block-Grows env c c' ts ok h e
  Step-Grows c c' h (on_store_block ts e) = store_block-Grows env c c' ts h e
  Step-Grows c c' h (on_store_transaction t) = store_transaction-Grows env c t h
  Step-Grows c c' h (on_flush_main_cache e) =
      let k = flush_main_cache-Keeps env c c' e in
      record {
        bounded = record {
          cached = k.cached;
          cache_capacity = k.cache_capacity;
          pending = ground (arith, k.mempool, k.mempool_size, h.pending);
          mempool_capacity = ground (arith, k.mempool_size, h.mempool_capacity);
        };
        no_less = ground (arith, k.mempool_size);
      }
  Step-Grows c c' h (on_undo_coins us e) =
      let same : c' ≡ c = ground (arith, undo_coins-no_effect env c us) in
      Grows-same c c' h (ap (λ d. d.main_cache) same) (ap (λ d. d.main_cache_size) same)
        (ap (λ d. d.mempool_cache) same) (ap (λ d. d.mempool_size) same)

  Steps-Grows : (c c' : CoinDatabase) → IsBounded c → Steps env c c' → Grows c c'
  Steps-Grows c c' h here = record { bounded = h; no_less = omega arith }
  Steps-Grows c c' h (after {c1} steps last) =
      let g = Steps-Grows c c1 h steps in Grows-trans g (Step-Grows c1 c' g.bounded last)

  empty-IsBounded : IsBounded empty
  empty-IsBounded = record {
    cached = omega arith;
    cache_capacity = omega arith;
    pending = omega arith;
    mempool_capacity = omega arith;
  }

  -- In every state that a new coin database reaches by its operations, the cache holds no more coins
  -- than its counter says and the mempool no more transactions than its own, and both counters are
  -- at most 70: neither the increments nor the decrements of the 16-bit counters wrap.
  pub Steps-IsBounded : (c : CoinDatabase) → Steps env empty c → IsBounded c
  Steps-IsBounded c steps = (Steps-Grows empty c empty-IsBounded steps).bounded

  -- Once the mempool counter of a reachable state is 70, the mempool never takes a transaction again:
  -- whatever operations follow, storing a transaction changes nothing.
  pub store_transaction-full :
      (c c' : CoinDatabase) (t : Transaction)
      → Steps env empty c
      → c.mempool_size ≡ 70
      → Steps env c c'
      → store_transaction env c' t ≡ c'
  unfolding store_transaction store_transaction_in_mempool
  store_transaction-full c c' t reached full steps =
      let g = Steps-Grows c c' (Steps-IsBounded c reached) steps in
      let still : 70 ≡ c'.mempool_size = omega (arith, g.no_less, g.bounded.mempool_capacity) in
      rw ((nat_beq_iff 70 c'.mempool_size).1 still) refl
