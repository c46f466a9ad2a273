-- ===== src/Coins/Growth.antt =====
-- What each operation of `CoinDatabase` keeps of the counters' bounds.
use crypt_bank.Prelude.{
  ℕ, ◌+◌, ◌≤◌, ◌≡◌, refl, sym, ◌∙◌, ◌≢◌, inl, inr, Bool, not, none, some, List, [], ◌∷◌, arith,
  nat_beq, nat_beq_iff, Bool-cases, Option-cases, length, nat_eq, bytes_eq, ◌>>=◌, >>=-eq-some,
}
use crypt_bank.Locator.{serialize_from_construct}
use crypt_bank.Text.{to_string}
use crypt_bank.Prelude.Map.{find, erase, length-erase-le, length-insert}
use crypt_bank.Primitives.{TransactionInput, TransactionOutput, Transaction}
use crypt_bank.Env.{Env, transaction_hash}
use crypt_bank.Coins.{
  Coin, contains_index, CoinDatabase, load_record, validate_input, validate_inputs,
  validate_transaction, validate_block, remove_transactions_from_mempool, spend_input, spend_inputs,
  add_output, add_outputs, store_transactions_to_main_cache, store_block,
  store_transaction_in_mempool, store_transaction,
}
use crypt_bank.Coins.Bounds.{IsBounded, Keeps, Keeps-trans, spend_input-Keeps, add_output-Keeps}

-- The counters of `c'` are within bounds and its mempool counter is no less than that of `c`.
pub record Grows (c c' : CoinDatabase) : Type 0 where
  pub bounded : IsBounded c'
  pub no_less : c.mempool_size ≤ c'.mempool_size

pub Grows-trans : {a b c : CoinDatabase} → Grows a b → Grows b c → Grows a c
Grows-trans g k = record { bounded = k.bounded; no_less = omega (arith, g.no_less, k.no_less) }

pub Grows-same :
    (c c' : CoinDatabase)
    → IsBounded c
    → c'.main_cache ≡ c.main_cache
    → c'.main_cache_size ≡ c.main_cache_size
    → c'.mempool_cache ≡ c.mempool_cache
    → c'.mempool_size ≡ c.mempool_size
    → Grows c c'
Grows-same c c' h m ms p ps = record {
  bounded = record {
    cached = rw (m, ms) h.cached;
    cache_capacity = rw ms h.cache_capacity;
    pending = rw (p, ps) h.pending;
    mempool_capacity = rw ps h.mempool_capacity;
  };
  no_less = omega (arith, ps);
}

module _ (env : Env) where
  spend_inputs-Keeps :
      (c c' : CoinDatabase) (is : List TransactionInput)
      → length c.main_cache ≤ c.main_cache_size
      → c.main_cache_size ≤ 70
      → spend_inputs env c is ≡ some c'
      → Keeps c c'
  unfolding spend_inputs
  spend_inputs-Keeps c c' [] cached room e = record {
    cached = ground arith;
    cache_capacity = ground arith;
    mempool = ground arith;
    mempool_size = ground arith;
  }
  spend_inputs-Keeps c c' (i ∷ is) cached room e =
      let (c1, e1, e2) = >>=-eq-some (spend_input env c i) _ e in
      let k = spend_input-Keeps env c c1 i cached room e1 in
      Keeps-trans k (spend_inputs-Keeps c1 c' is k.cached k.cache_capacity e2)

  add_outputs-Keeps :
      (c c' : CoinDatabase) (hash count : ℕ) (os : List TransactionOutput)
      → length c.main_cache ≤ c.main_cache_size
      → c.main_cache_size ≤ 70
      → add_outputs env c hash count os ≡ some c'
      → Keeps c c'
  unfolding add_outputs
  add_outputs-Keeps c c' hash count [] cached room e = record {
    cached = ground arith;
    cache_capacity = ground arith;
    mempool = ground arith;
    mempool_size = ground arith;
  }
  add_outputs-Keeps c c' hash count (o ∷ os) cached room e =
      let (c1, e1, e2) = >>=-eq-some (add_output env c hash count o) _ e in
      let k = add_output-Keeps env c c1 hash count o cached room e1 in
      Keeps-trans k (add_outputs-Keeps c1 c' hash (count + 1) os k.cached k.cache_capacity e2)

  store_transactions-Keeps :
      (c c' : CoinDatabase) (ts : List Transaction)
      → length c.main_cache ≤ c.main_cache_size
      → c.main_cache_size ≤ 70
      → store_transactions_to_main_cache env c ts ≡ some c'
      → Keeps c c'
  unfolding store_transactions_to_main_cache
  store_transactions-Keeps c c' [] cached room e = record {
    cached = ground arith;
    cache_capacity = ground arith;
    mempool = ground arith;
    mempool_size = ground arith;
  }
  store_transactions-Keeps c c' (t ∷ ts) cached room e =
      let (c1, e1, e2) = >>=-eq-some (spend_inputs env c t.transaction_inputs) _ e in
      let (c2, e3, e4) =
        >>=-eq-some (add_outputs env c1 (transaction_hash env t) 0 t.transaction_outputs) _ e2 in
      let k1 = spend_inputs-Keeps c c1 t.transaction_inputs cached room e1 in
      let k2 =
        add_outputs-Keeps c1 c2 (transaction_hash env t) 0 t.transaction_outputs k1.cached
          k1.cache_capacity e3 in
      Keeps-trans k1
        (Keeps-trans k2 (store_transactions-Keeps c2 c' ts k2.cached k2.cache_capacity e4))

  -- Taking transactions out leaves the counter and the cache.
  remove_transactions-IsBounded :
      (c : CoinDatabase) (ts : List Transaction)
      → IsBounded c
      → Grows c (remove_transactions_from_mempool env c ts)
  unfolding remove_transactions_from_mempool
  remove_transactions-IsBounded c [] h = record { bounded = h; no_less = omega arith }
  remove_transactions-IsBounded c (t ∷ ts) h =
      let fewer = length-erase-le (transaction_hash env t) c.mempool_cache in
      let rest =
        remove_transactions-IsBounded
          (record c { mempool_cache = erase (transaction_hash env t) c.mempool_cache }) ts
          (record {
            cached = h.cached;
            cache_capacity = h.cache_capacity;
            pending = omega (arith, fewer, h.pending);
            mempool_capacity = h.mempool_capacity;
          }) in
      record { bounded = rest.bounded; no_less = rest.no_less }

  pub store_block-Grows :
      (c c' : CoinDatabase) (ts : List Transaction)
      → IsBounded c
      → store_block env c ts ≡ some c'
      → Grows c c'
  unfolding store_block
  store_block-Grows c c' ts h e =
      let g = remove_transactions-IsBounded c ts h in
      let k =
        store_transactions-Keeps (remove_transactions_from_mempool env c ts) c' ts g.bounded.cached
          g.bounded.cache_capacity e in
      record {
        bounded = record {
          cached = k.cached;
          cache_capacity = k.cache_capacity;
          pending = ground (arith, k.mempool, k.mempool_size, g.bounded.pending);
          mempool_capacity = ground (arith, k.mempool_size, g.bounded.mempool_capacity);
        };
        no_less = ground (arith, k.mempool_size, g.no_less);
      }

  pub store_transaction-Grows :
      (c : CoinDatabase) (t : Transaction) → IsBounded c → Grows c (store_transaction env c t)
  unfolding store_transaction store_transaction_in_mempool
  store_transaction-Grows c t h = elim (Bool-cases (nat_beq 70 c.mempool_size)) [
    | inl full ↦ rw full (record { bounded = h; no_less = omega arith })
    | inr space ↦
        let more = length-insert (transaction_hash env t) t c.mempool_cache in
        let differ : 70 ≢ c.mempool_size =
          λ e. ground (arith, space, nat_beq_iff 70 c.mempool_size) in
        rw space (record {
          bounded = record {
            cached = h.cached;
            cache_capacity = h.cache_capacity;
            pending = ground (arith, more, h.pending, h.mempool_capacity, differ);
            mempool_capacity = ground (arith, h.mempool_capacity, differ);
          };
          no_less = ground (arith, h.mempool_capacity);
        })
  ]

  pub validate_input-missing :
      (c : CoinDatabase) (i : TransactionInput)
      → find (serialize_from_construct i.reference_transaction_hash i.utxo_index) c.main_cache
        ≡ none
      → validate_input env c i ≡ (
          load_record env c.database (to_string i.reference_transaction_hash) >>= λ p.
          some (contains_index i.utxo_index p.0.utxo, record c { database = p.1 }))
  unfolding validate_input
  validate_input-missing c i missing = rw (validate_input, missing) refl

  pub validate_input-cached :
      (c : CoinDatabase) (i : TransactionInput) (coin : Coin)
      → find (serialize_from_construct i.reference_transaction_hash i.utxo_index) c.main_cache
        ≡ some coin
      → validate_input env c i ≡ some (not coin.is_spent, c)
  unfolding validate_input
  validate_input-cached c i coin found = rw (validate_input, found) refl

  -- Validation changes the database only.
  validate_input-Grows :
      (c c' : CoinDatabase) (i : TransactionInput) (ok : Bool)
      → IsBounded c
      → validate_input env c i ≡ some (ok, c')
      → Grows c c'
  validate_input-Grows c c' i ok h e =
      elim (Option-cases
        (find (serialize_from_construct i.reference_transaction_hash i.utxo_index) c.main_cache)) [
          | inl missing ↦
              let (p, e1, e2) =
                >>=-eq-some (load_record env c.database (to_string i.reference_transaction_hash)) _
                  (sym (validate_input-missing c i missing) ∙ e) in
              Grows-same c c' h (ground (arith, e2)) (ground (arith, e2)) (ground (arith, e2))
                (ground (arith, e2))
          | inr (coin, found) ↦
              let e1 = sym (validate_input-cached c i coin found) ∙ e in
              Grows-same c c' h (ground (arith, e1)) (ground (arith, e1)) (ground (arith, e1))
                (ground (arith, e1))
        ]

  pub validate_inputs-Grows :
      (c c' : CoinDatabase) (is : List TransactionInput) (ok : Bool)
      → IsBounded c
      → validate_inputs env c is ≡ some (ok, c')
      → Grows c c'
  unfolding validate_inputs
  validate_inputs-Grows c c' [] ok h e =
      Grows-same c c' h (ground (arith, e)) (ground (arith, e)) (ground (arith, e))
        (ground (arith, e))
  validate_inputs-Grows c c' (i ∷ is) ok h e =
      let (p, e1, e2) = >>=-eq-some (validate_input env c i) _ e in
      let g = validate_input-Grows c p.1 i p.0 h e1 in
      elim (Bool-cases p.0) [
        | inl goes_on ↦
            Grows-trans g (validate_inputs-Grows p.1 c' is ok g.bounded (rw goes_on at e2))
        | inr stops ↦
            let e3 = rw stops at e2 in
            Grows-trans g (
              Grows-same p.1 c' g.bounded (ground (arith, e3)) (ground (arith, e3))
                (ground (arith, e3)) (ground (arith, e3)))
      ]

  pub validate_block-Grows :
      (c c' : CoinDatabase) (ts : List Transaction) (ok : Bool)
      → IsBounded c
      → validate_block env c ts ≡ some (ok, c')
      → Grows c c'
  unfolding validate_block validate_transaction
  validate_block-Grows c c' [] ok h e =
      Grows-same c c' h (ground (arith, e)) (ground (arith, e)) (ground (arith, e))
        (ground (arith, e))
  validate_block-Grows c c' (t ∷ ts) ok h e =
      let (p, e1, e2) = >>=-eq-some (validate_inputs env c t.transaction_inputs) _ e in
      let g = validate_inputs-Grows c p.1 t.transaction_inputs p.0 h e1 in
      elim (Bool-cases p.0) [
        | inl goes_on ↦
            Grows-trans g (validate_block-Grows p.1 c' ts ok g.bounded (rw goes_on at e2))
        | inr stops ↦
            let e3 = rw stops at e2 in
            Grows-trans g (
              Grows-same p.1 c' g.bounded (ground (arith, e3)) (ground (arith, e3))
                (ground (arith, e3)) (ground (arith, e3)))
      ]
