-- ===== src/Chain/Beside.antt =====
-- What `Chain` does that leaves the active chain as it is: a block that is rejected, a block that goes
-- on a fork, and a transaction.
use crypt_bank.Prelude.{
  ◌≤◌, ◌≡◌, refl, ap, ◌∙◌, ◌≢◌, inl, inr, false, not, ◌&&◌, some, List, ◌∷◌, nat_beq, if◌then◌else◌,
  nat_beq_iff, Bool-cases, nat_eq, bytes_eq,
}
use crypt_bank.Prelude.Map.{insert}
use crypt_bank.Primitives.{Block, Transaction, new_transaction, get_transactions}
use crypt_bank.Primitives.InRange.{IsBlock}
use crypt_bank.Env.{Env, block_hash, transaction_hash}
use crypt_bank.Coins.{
  CoinDatabase, validate_and_store_transaction, store_transaction, store_transaction_in_mempool,
}
use crypt_bank.Coins.View.{copies}
use crypt_bank.Coins.Validate.{CoinSet, covers, covers_block, validate_transaction-covers}
use crypt_bank.Coins.Represents.{Represents, SameCoins-Represents}
use crypt_bank.Coins.Apply.{has_coin-Represents, validate_block-Represents}
use crypt_bank.Chain.{Chain, look_up, get_block}
use crypt_bank.Chain.Handle.{handle_block, handle_transaction}
use crypt_bank.Chain.Active.{last_hash}
use crypt_bank.Chain.Side.{height_above, side_chain, side_chain-IsSide, handle_block-side_chain}
use crypt_bank.Chain.History.{IsFresh, IsHistory, IsHistory-IsSpine}
use crypt_bank.Chain.Aside.{Fits, aside, aside-IsSpine}

module _ (env : Env) where
  -- `get_block` returns the block of a hash.
  abbrev pub Found : Chain → Block → Type 0
  Found c b = (c' : Chain) × (get_block env c (block_hash env b) ≡ some (some b, c'))

  with_coins-IsHistory :
      (c : Chain) (coins : CoinDatabase) (last : Block) (bs : List Block) (s : CoinSet)
      → IsHistory env c last bs s
      → Represents env coins s
      → IsHistory env (record c { coin_database = coins }) last bs s
  with_coins-IsHistory c coins last bs s h r = record {
    length_is = h.length_is;
    last_is = h.last_is;
    kept = h.kept;
    linked = h.linked;
    coins = r;
    ready = h.ready;
  }

  -- Only the coin database changes.
  pub handle_block-rejected_coins :
      (c : Chain) (b last : Block) (bs : List Block) (s : CoinSet)
      → IsHistory env c last bs s
      → b.block_header.previous_block_hash ≡ block_hash env last
      → covers_block s (get_transactions b) ≡ false
      → (cv : CoinDatabase) × (handle_block env c b ≡ some (record c { coin_database = cv }))
        × Represents env cv s
  unfolding handle_block
  handle_block-rejected_coins c b last bs s h parent not_covered =
      let (cv, ev, rv) =
        validate_block-Represents env c.coin_database s (get_transactions b) h.coins in
      let c1 : Chain = record c { coin_database = cv } in
      (
        cv,
        rw
            (
              ev,
              not_covered,
              last_hash env c1 last h.kept.0.in_range h.last_is,
              (nat_beq_iff b.block_header.previous_block_hash (block_hash env last)).1 parent,
            )
            refl,
        rv,
      )

  -- On a chain made of kept blocks with a set of coins, a block whose parent is the last block and
  -- that has an input which names no coin of the set is rejected without a fault: the chain is
  -- still made of the same blocks, and the coins stay.
  pub handle_block-rejected :
      (c : Chain) (b last : Block) (bs : List Block) (s : CoinSet)
      → IsHistory env c last bs s
      → b.block_header.previous_block_hash ≡ block_hash env last
      → covers_block s (get_transactions b) ≡ false
      → (c' : Chain) × (handle_block env c b ≡ some c') × IsHistory env c' last bs s
  handle_block-rejected c b last bs s h parent not_covered =
      let (cv, e, rv) = handle_block-rejected_coins c b last bs s h parent not_covered in
      (record c { coin_database = cv }, e, with_coins-IsHistory c cv last bs s h rv)

  pub aside-IsHistory :
      (c : Chain) (b last : Block) (bs : List Block) (s : CoinSet) (hb : IsBlock b)
      (fits : Fits env c b) (h : IsHistory env c last bs s)
      → IsFresh env (block_hash env b) (last ∷ bs)
      → IsHistory env (aside env c b hb fits h.ready) last bs s
  unfolding look_up
  aside-IsHistory c b last bs s hb fits h fresh =
      let spine = aside-IsSpine env c b hb fits h.ready last bs (IsHistory-IsSpine env h) fresh in
      record {
        length_is = spine.length_is;
        last_is = spine.last_is;
        kept = spine.kept;
        linked = spine.linked;
        coins = h.coins;
        ready = spine.ready;
      }

  -- On a chain made of kept blocks with a set of coins, a block in range whose parent is not the
  -- last block, whose hash no block of the chain has and that is not higher than the chain goes on
  -- a fork without a fault, valid or not, where every append opens, the file number has room and
  -- the text fits a file: `get_block` returns it for its hash, the chain is still made of the same
  -- blocks, all of them kept, and the coins stay.
  pub handle_block-forked :
      (c : Chain) (b last : Block) (bs : List Block) (s : CoinSet)
      → IsHistory env c last bs s
      → IsBlock b
      → b.block_header.previous_block_hash ≢ block_hash env last
      → IsFresh env (block_hash env b) (last ∷ bs)
      → Fits env c b
      → height_above env c b ≤ c.active_chain_length
      → (c' : Chain) × (handle_block env c b ≡ some c') × IsHistory env c' last bs s × Found c' b
  unfolding with_coins-IsHistory
  handle_block-forked c b last bs s h hb other fresh fits low =
      let (cv, ev, rv) =
        validate_block-Represents env c.coin_database s (get_transactions b) h.coins in
      let c1 : Chain = record c { coin_database = cv } in
      (
        side_chain env c1 b hb fits.may h.ready.block h.ready.block_offset fits.number fits.small,
        handle_block-side_chain env c b _ cv (block_hash env last) hb fits.may h.ready.block
            h.ready.block_offset fits.number fits.small ev
            (last_hash env c1 last h.kept.0.in_range h.last_is) other low,
        aside-IsHistory c1 b last bs s hb
            (record { may = fits.may; number = fits.number; small = fits.small })
            (with_coins-IsHistory c cv last bs s h rv) fresh,
        (side_chain-IsSide env c1 b hb fits.may h.ready.block h.ready.block_offset fits.number
            fits.small).in_file,
      )

  mempool-store_transaction :
      (c c' : CoinDatabase) (t : Transaction)
      → c'.mempool_cache ≡ c.mempool_cache
      → c'.mempool_size ≡ c.mempool_size
      → (store_transaction env c' t).mempool_cache ≡ (
          if not (nat_beq 70 c.mempool_size)
          then insert (transaction_hash env t) t c.mempool_cache
          else c.mempool_cache)
  unfolding store_transaction store_transaction_in_mempool
  mempool-store_transaction c c' t same size = elim (Bool-cases (nat_beq 70 c.mempool_size)) [
    | inl full ↦ rw (full, size, full) same
    | inr room ↦ rw (room, size, room) (ap (insert (transaction_hash env t) t) same)
  ]

  -- The transaction as `handle_transaction` rebuilds it.
  abbrev rebuilt : Transaction → Transaction
  rebuilt t = new_transaction t.transaction_inputs t.transaction_outputs

  store_transaction-Represents :
      (c : CoinDatabase) (t : Transaction) (s : CoinSet)
      → Represents env c s
      → Represents env (store_transaction env c t) s
  unfolding store_transaction store_transaction_in_mempool
  store_transaction-Represents c t s r = elim (Bool-cases (nat_beq 70 c.mempool_size)) [
    | inl full ↦ rw full r
    | inr room ↦ rw room (record {
      sound = record { records = r.sound.records; cached = r.sound.cached };
      copies = λ h i. unfold copies in r.copies h i;
    })
  ]

  -- On a chain made of kept blocks with a set of coins, a transaction never faults and leaves the
  -- blocks and the coins: it is put into the mempool, rebuilt with version and lock time 0 and
  -- unless its hash is there, where each of its inputs names a coin of the set and the counter of
  -- the mempool is not at 70, and else the mempool stays.
  pub handle_transaction-IsHistory :
      (c : Chain) (t : Transaction) (last : Block) (bs : List Block) (s : CoinSet)
      → IsHistory env c last bs s
      → (c' : Chain) × (handle_transaction env c t ≡ some c')
        × IsHistory env c' last bs s
        × (c'.coin_database.mempool_cache ≡ (
            if covers s t.transaction_inputs && not (nat_beq 70 c.coin_database.mempool_size)
            then insert (transaction_hash env (rebuilt t)) (rebuilt t) c.coin_database.mempool_cache
            else c.coin_database.mempool_cache))
  unfolding handle_transaction validate_and_store_transaction new_transaction
  handle_transaction-IsHistory c t last bs s h =
      let (cv, ev, same) =
        validate_transaction-covers env c.coin_database (rebuilt t) h.coins.sound in
      let rv = SameCoins-Represents env same h.coins in
      let e =
        ev
        ∙ ap (λ v. some (covers v t.transaction_inputs, cv))
            (has_coin-Represents env c.coin_database s h.coins) in
      elim (Bool-cases (covers s t.transaction_inputs)) [
        | inl held ↦ (
          record c { coin_database = store_transaction env cv (rebuilt t) },
          rw e (rw held refl),
          with_coins-IsHistory c _ last bs s h (store_transaction-Represents cv (rebuilt t) s rv),
          rw held (
              mempool-store_transaction c.coin_database cv (rebuilt t) same.mempool
                same.mempool_size),
        )
        | inr unknown ↦ (
          record c { coin_database = cv },
          rw e (rw unknown refl),
          with_coins-IsHistory c cv last bs s h rv,
          rw unknown same.mempool,
        )
      ]
