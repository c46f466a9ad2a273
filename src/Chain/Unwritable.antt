-- ===== src/Chain/Unwritable.antt =====
-- `handle_block` where no file can be opened for writing.
use mathlib.Core.Path.{fun_ext}
use crypt_bank.Prelude.{
  ℕ, ◌≡◌, refl, ap, ◌∙◌, ◌⊎◌, inl, inr, Bool, true, false, not, ◌||◌, none, some, List, [], ◌∷◌,
  arith, nat_beq, if◌then◌else◌, nat_beq_iff, Bool-cases, Option-cases, Bytes, ◌>>=◌,
}
use crypt_bank.Primitives.{TransactionInput, Transaction, Block, get_transactions, serialize_block}
use crypt_bank.Records.{serialize_undo_block}
use crypt_bank.Env.{Env, block_hash}
use crypt_bank.Coins
use crypt_bank.Coins.{
  CoinDatabase, validate_input, validate_inputs, validate_transaction, load_record,
}
use crypt_bank.Coins.Validate.{CoinSet, covers_block}
use crypt_bank.Coins.Apply.{validate_block-Represents}
use crypt_bank.Writer
use crypt_bank.Writer.{ChainWriter, FileSystem, append_file, make_undo_block, write_block}
use crypt_bank.Chain.{Chain, look_up, get_last_block, get_last_block_hash}
use crypt_bank.Chain.Active.{last_hash}
use crypt_bank.Chain.Side.{or_true}
use crypt_bank.Chain.History.{IsHistory}
use crypt_bank.Chain.Grow.{handle_block-IsHistory}
use crypt_bank.Chain.Beside.{handle_block-forked}
use crypt_bank.Chain.Grown.{IsNext, IsAside}
use crypt_bank.Chain.Handle.{extend_chain, fork_chain, handle_block}

module _ (env : Env) (closed : (p : Bytes) → env.may_append p ≡ false) where
  append_file-none : (fs : FileSystem) (path s : Bytes) → append_file env fs path s ≡ none
  unfolding append_file
  append_file-none fs path s = rw (closed path) (ground arith)

  write_block-none :
      (w : ChainWriter) (fs : FileSystem) (s : Bytes) → (write_block env w fs s).0 ≡ none
  unfolding write_block
  write_block-none w fs s =
      rw (append_file-none (record fs { has_directory = true }), write_block) refl

  store_block-none :
      (w : ChainWriter) (fs : FileSystem) (b : Block) (height : ℕ)
      → Writer.store_block env w fs b height ≡ none
  unfolding Writer.store_block
  store_block-none w fs b height =
      elim (Option-cases (serialize_undo_block env.proto (make_undo_block env b))) [
        | inl fault ↦ rw fault refl
        | inr (u, made) ↦ rw (made, write_block-none w fs (serialize_block env.proto b)) refl
      ]

  extend_chain-none : (c : Chain) (b : Block) (hash : ℕ) → extend_chain env c b hash ≡ none
  unfolding extend_chain
  extend_chain-none c b hash =
      elim (Option-cases (Coins.store_block env c.coin_database (get_transactions b))) [
        | inl fault ↦ rw fault refl
        | inr (coins, stored) ↦ rw (stored, store_block-none c.chain_writer c.file_system b _) refl
      ]

  fork_chain-none : (c : Chain) (b : Block) (hash : ℕ) → fork_chain env c b hash ≡ none
  unfolding fork_chain look_up
  fork_chain-none c b hash =
      rw (write_block-none c.chain_writer c.file_system (serialize_block env.proto b)) refl

  handle_block-none :
      (c : Chain) (b : Block) (valid : Bool) (validated : CoinDatabase) (last : ℕ)
      → Coins.validate_block env c.coin_database (get_transactions b) ≡ some (valid, validated)
      → get_last_block_hash env (record c { coin_database = validated }) ≡ some last
      → (valid || not (nat_beq b.block_header.previous_block_hash last)) ≡ true
      → handle_block env c b ≡ none
  unfolding handle_block
  handle_block-none c b valid validated last checked known passes =
      let c1 : Chain = record c { coin_database = validated } in
      elim (Bool-cases (nat_beq b.block_header.previous_block_hash last)) [
        | inl on_top ↦
            rw (checked, known, passes, on_top) (extend_chain-none c1 b (block_hash env b))
        | inr aside ↦ rw (checked, known, passes, aside) (fork_chain-none c1 b (block_hash env b))
      ]

-- The environment in which no file can be opened for writing, and all else is as it is.
abbrev pub closed : Env → Env
closed env = record env { may_append = λ path. false }

module _ (env : Env) where
  validate_input-closed :
      (c : CoinDatabase) (i : TransactionInput)
      → validate_input (closed env) c i ≡ validate_input env c i
  unfolding validate_input load_record
  validate_input-closed c i = refl

  validate_inputs-closed :
      (c : CoinDatabase) (is : List TransactionInput)
      → validate_inputs (closed env) c is ≡ validate_inputs env c is
  unfolding validate_inputs
  validate_inputs-closed c [] = refl
  validate_inputs-closed c (i ∷ is) =
      ap (λ r. r >>= λ p. if p.0 then validate_inputs (closed env) p.1 is else some (false, p.1))
        (validate_input-closed c i)
      ∙ ap (λ rest. validate_input env c i >>= rest)
          (fun_ext
            λ p. ap (λ t. if p.0 then t else some (false, p.1)) (validate_inputs-closed p.1 is))

  validate_block-closed :
      (c : CoinDatabase) (ts : List Transaction)
      → Coins.validate_block (closed env) c ts ≡ Coins.validate_block env c ts
  unfolding Coins.validate_block validate_transaction
  validate_block-closed c [] = refl
  validate_block-closed c (t ∷ ts) =
      ap
        (λ r.
          r >>= λ p. if p.0 then Coins.validate_block (closed env) p.1 ts else some (false, p.1))
        (validate_inputs-closed c t.transaction_inputs)
      ∙ ap (λ rest. validate_inputs env c t.transaction_inputs >>= rest)
          (fun_ext
            λ p. ap (λ u. if p.0 then u else some (false, p.1)) (validate_block-closed p.1 ts))

  last_hash-closed : (c : Chain) → get_last_block_hash (closed env) c ≡ get_last_block_hash env c
  unfolding get_last_block_hash get_last_block block_hash
  last_hash-closed c = refl

  handle_block-closed :
      (c : Chain) (b last : Block) (bs : List Block) (s : CoinSet)
      → IsHistory env c last bs s
      → (covers_block s (get_transactions b)
          || not (nat_beq b.block_header.previous_block_hash (block_hash env last)))
        ≡ true
      → handle_block (closed env) c b ≡ none
  handle_block-closed c b last bs s h passes =
      let (cv, ev, rv) =
        validate_block-Represents env c.coin_database s (get_transactions b) h.coins in
      let c1 : Chain = record c { coin_database = cv } in
      handle_block-none (closed env) (λ path. refl) c b (covers_block s (get_transactions b)) cv
        (block_hash env last) (validate_block-closed c.coin_database (get_transactions b) ∙ ev)
        (last_hash-closed c1 ∙ last_hash env c1 last h.kept.0.in_range h.last_is) passes

  -- On a chain made of kept blocks with a set of coins, `handle_block` takes a block that can go on top
  -- as `IsNext` says or goes on a fork as `IsAside` says. With the same chain and block, and in the
  -- same environment but that no file can be opened for writing, `write_block` returns a null
  -- `FileInfo` for the block's text, and `handle_block` faults in place of a result.
  pub handle_block-unwritable :
      (c : Chain) (b last : Block) (bs : List Block) (s : CoinSet)
      → IsHistory env c last bs s
      → IsNext env c last bs s b ⊎ IsAside env c last bs b
      → (c' : Chain) × (handle_block env c b ≡ some c')
        × ((write_block (closed env) c.chain_writer c.file_system (serialize_block env.proto b)).0
            ≡ none)
        × (handle_block (closed env) c b ≡ none)
  handle_block-unwritable c b last bs s h (inl n) =
      let (c', e, h') =
        handle_block-IsHistory env c b last bs s h n.in_range n.parent n.fresh n.covered n.can
          n.storable n.room in
      (
        c',
        e,
        write_block-none (closed env) (λ path. refl) c.chain_writer c.file_system _,
        handle_block-closed c b last bs s h (rw n.covered refl),
      )
  handle_block-unwritable c b last bs s h (inr f) =
      let (c', e, h', found) =
        handle_block-forked env c b last bs s h f.in_range f.other f.fresh f.fits f.low in
      let other : nat_beq b.block_header.previous_block_hash (block_hash env last) ≡ false =
        ground
          (arith, nat_beq_iff b.block_header.previous_block_hash (block_hash env last), f.other) in
      (
        c',
        e,
        write_block-none (closed env) (λ path. refl) c.chain_writer c.file_system _,
        handle_block-closed c b last bs s h
            (rw other (or_true (covers_block s (get_transactions b)))),
      )
