-- ===== src/Chain/NoUndo.antt =====
-- A fork that takes over from a chain whose last block came by a takeover, or has no undo block for
-- another reason.
use crypt_bank.Prelude.{
  ℕ, zero, suc, ◌-◌, ◌≤◌, ◌≡◌, refl, ap, ◌∙◌, ◌≢◌, inl, inr, Bool, false, Option, none, some, List,
  [], ◌∷◌, ◌++◌, arith, ltb, Option-cases, length, length-append, bytes_eq, >>=-eq-some,
}
use crypt_bank.Prelude.Map.{find}
use crypt_bank.Primitives.{Block, get_transactions, serialize_block}
use crypt_bank.Records.{UndoBlock, new_file_info, deserialize_undo_block}
use crypt_bank.Records.RoundTrip.{deserialize_undo_block-nil}
use crypt_bank.Env.{Env, block_hash}
use crypt_bank.BlockInfo.Lookup.{record_at, get_block_record-record_at}
use crypt_bank.Coins
use crypt_bank.Coins.{CoinDatabase}
use crypt_bank.Coins.Undo.{undo_coins, undo_coins-no_effect}
use crypt_bank.Writer.{block_path, read_block, read_undo_block}
use crypt_bank.Chain.{Chain, look_up, undo_location}
use crypt_bank.Chain.Reorg.{
  get_forked_blocks_stack, get_undo_blocks_queue, undo_blocks_loop, take_over,
}
use crypt_bank.Chain.Handle.{handle_block}
use crypt_bank.Chain.Active.{last_hash}
use crypt_bank.Chain.Queries.{SameCore}
use crypt_bank.Chain.History.{IsSpine}
use crypt_bank.Chain.Aside.{Fits, aside, aside_find, aside_record_at}
use crypt_bank.Chain.Ancestor.{get_forked_blocks_stack-ancestor}
use crypt_bank.Chain.Longer.{
  IsLonger, validated_chain, still_fits, with_fork, with_fork-IsSpine, with_fork-ChainKeeps,
  handle_block-take_over,
}
use crypt_bank.Chain.Overtake.{IsSpine-SameCore}
use crypt_bank.Chain.Overtaken.{TookOver}
use crypt_bank.Writer.Undos.{Appends-find, write_block-Appends}
use crypt_bank.Writer.Store.{IsReady}
use crypt_bank.Primitives.InRange.{IsBlock}

-- The record of the block names the empty path, under which there is no file.
pub record NoUndo (env : Env) (c : Chain) (b : Block) : Type 0 where
  pub undo_file :
      undo_location (record_at env.proto c.block_info_database (block_hash env b))
      ≡ new_file_info [] 0 0
  pub no_file : find [] c.file_system.files ≡ none

pub block_path-nonempty : (n : ℕ) → block_path n ≢ []
unfolding block_path
block_path-nonempty n e = absurd (omega (arith, ap length e))

module _ (env : Env) where
  abbrev no_undo_block : UndoBlock
  no_undo_block = record { transaction_hashes = []; undo_coin_records = [] }

  NoUndo-SameCore :
      (c c' : Chain) (b : Block) → SameCore env c c' → NoUndo env c b → NoUndo env c' b
  NoUndo-SameCore c c' b same k = record {
    undo_file = ap undo_location (same.records (block_hash env b)) ∙ k.undo_file;
    no_file = rw same.file_system k.no_file;
  }

  read_undo_block-NoUndo :
      (c : Chain) (b : Block)
      → NoUndo env c b
      → read_undo_block c.file_system
          (undo_location (record_at env.proto c.block_info_database (block_hash env b)))
        ≡ some []
  unfolding read_undo_block read_block
  read_undo_block-NoUndo c b k = ap (read_undo_block c.file_system) k.undo_file ∙ rw k.no_file refl

  undo_blocks_loop-prefix :
      (n prev : ℕ) (u : UndoBlock) (result us : List UndoBlock) (c c' : Chain)
      → undo_blocks_loop env n prev (u ∷ result) c ≡ some (us, c')
      → (more : List UndoBlock) × (us ≡ u ∷ more)
  unfolding undo_blocks_loop
  undo_blocks_loop-prefix zero prev u result us c c' e = (result, ground arith)
  undo_blocks_loop-prefix (suc n) prev u result us c c' e =
      let (s, read, e1) = >>=-eq-some (read_undo_block (look_up env c prev).1.file_system _) _ e in
      let (u', made, e2) = >>=-eq-some (deserialize_undo_block env.proto s) _ e1 in
      undo_blocks_loop-prefix n _ u (result ++ (u' ∷ [])) us (look_up env c prev).1 c' e2

  undo_blocks_loop-NoUndo :
      (n : ℕ) (b : Block) (us : List UndoBlock) (c c' : Chain)
      → NoUndo env c b
      → undo_blocks_loop env (suc n) (block_hash env b) [] c ≡ some (us, c')
      → (more : List UndoBlock) × (us ≡ no_undo_block ∷ more)
  unfolding undo_blocks_loop look_up
  undo_blocks_loop-NoUndo n b us c c' k e = undo_blocks_loop-prefix n _ no_undo_block [] us _ c' (
      rw
        (
          get_block_record-record_at env.proto c.block_info_database (block_hash env b),
          read_undo_block-NoUndo c b k,
          deserialize_undo_block-nil env.proto,
        )
        at e)

  get_undo_blocks_queue-NoUndo :
      (c c' : Chain) (last : Block) (bs : List Block) (us : List UndoBlock)
      → IsSpine env c last bs
      → 1 ≤ length bs
      → NoUndo env c last
      → get_undo_blocks_queue env c 1 ≡ some (us, c')
      → (more : List UndoBlock) × (us ≡ no_undo_block ∷ more)
  unfolding get_undo_blocks_queue
  get_undo_blocks_queue-NoUndo c c' last [] us h long k e = absurd (omega (arith, long))
  get_undo_blocks_queue-NoUndo c c' last (x ∷ bs) us h long k e =
      let not_higher : ltb c.active_chain_length 1 ≡ false = ground (arith, h.length_is) in
      let count : c.active_chain_length - 1 ≡ suc (length bs) = omega (arith, h.length_is) in
      undo_blocks_loop-NoUndo (length bs) last us c c' k
        (rw (last_hash env c last h.kept.0.in_range h.last_is, not_higher, count) at e)

  undo_coins-NoUndo :
      (coins : CoinDatabase) (us more : List UndoBlock)
      → us ≡ no_undo_block ∷ more
      → undo_coins env coins us ≡ none
  undo_coins-NoUndo coins us more e = undo_coins-no_effect env coins us ∙ rw e refl

  take_over-NoUndo :
      (c c1 : Chain) (last b : Block) (bs : List Block) (hash : ℕ) (a : Option Block)
      → get_forked_blocks_stack env c hash ≡ some (a ∷ [], c1)
      → IsSpine env c1 last bs
      → 1 ≤ length bs
      → NoUndo env c1 last
      → take_over env c b hash ≡ none
  unfolding take_over
  take_over-NoUndo c c1 last b bs hash a e h long k =
      elim (Option-cases (get_undo_blocks_queue env c1 1)) [
        | inl fault ↦ rw (e, fault) refl
        | inr ((us, c2), queued) ↦
            let (more, first) = get_undo_blocks_queue-NoUndo c1 c2 last bs us h long k queued in
            rw (e, queued, undo_coins-NoUndo c2.coin_database us more first) refl
      ]

  pub aside-NoUndo :
      (c : Chain) (b last : Block) (hb : IsBlock b) (fits : Fits env c b)
      (ready : IsReady c.chain_writer c.file_system)
      → block_hash env b ≢ block_hash env last
      → NoUndo env c last
      → NoUndo env (aside env c b hb fits ready) last
  aside-NoUndo c b last hb fits ready other k = record {
    undo_file = ap undo_location (aside_record_at env c b hb fits ready last other) ∙ k.undo_file;
    no_file = aside_find env c b hb fits ready [] block_path-nonempty ∙ k.no_file;
  }

  -- A block that made a fork take over has no undo block.
  pub TookOver-NoUndo :
      (c c' : Chain) (former : List Block) (b : Block)
      → TookOver env c former b c'
      → find [] c.file_system.files ≡ none
      → NoUndo env c' b
  TookOver-NoUndo c c' former b took e = record {
    undo_file = took.undo_file;
    no_file =
        ap (λ fs. find [] fs.files) took.files
        ∙ Appends-find block_path c.file_system.files _ [] block_path-nonempty
            (write_block-Appends env c.chain_writer c.file_system (serialize_block env.proto b))
        ∙ e;
  }

  longer-length :
      (c : Chain) (last : Block) (bs : List Block) (b p : Block) (side : List Block)
      → IsLonger env c last bs b p side
      → 1 ≤ length bs
  longer-length c last bs b p side o =
      let split =
        ap length o.parted.active_is
        ∙ length-append o.parted.newer_active
            (o.parted.first_active ∷ o.parted.ancestor ∷ o.parted.older) in
      omega (arith, split)

  taken_over :
      (c : Chain) (last : Block) (bs : List Block) (b p : Block) (side : List Block)
      (o : IsLonger env c last bs b p side) (h : IsSpine env c last bs)
      → NoUndo env c last
      → (valid : Bool) (validated : CoinDatabase)
      → Coins.validate_block env c.coin_database (get_transactions b) ≡ some (valid, validated)
      → handle_block env c b ≡ none
  taken_over c last bs b p side o h k valid validated checked =
      let c2 = with_fork env c validated last bs b p side h o in
      let h2 = with_fork-IsSpine env c validated last bs b p side h o in
      let (c3, e, same) =
        get_forked_blocks_stack-ancestor env c2 last bs o.parted.newer_active o.parted.newer_side
          o.parted.older o.parted.first_active o.parted.first_side o.parted.ancestor b (p ∷ side) h2
          o.parted.active_is o.parted.side_is o.parted.differ
          (with_fork-ChainKeeps env c validated last bs b p side h o) o.linked in
      handle_block-take_over env c validated last bs b p side h o valid checked
      ∙ take_over-NoUndo c2 c3 last b bs (block_hash env b) _ e
          (IsSpine-SameCore env c2 c3 last bs same h2) (longer-length c last bs b p side o)
          (NoUndo-SameCore c2 c3 last same (
            aside-NoUndo (validated_chain env c validated last bs b p side h o) b last o.in_range
              (still_fits env c validated last bs b p side h o) h.ready o.fresh.0
              (record { undo_file = k.undo_file; no_file = k.no_file })))

  -- Where the record of the last block names no undo file, as it is for a block that made a fork take
  -- over, and no file has the empty path, the next takeover faults: a block in range on top of a
  -- fork of kept blocks as long as the chain, which parts from it above a common ancestor, is not
  -- taken, whatever it spends, though no block of either has its hash, the disk has room for it and
  -- the heights stay below 2 ^ 31.
  pub handle_block-NoUndo :
      (c : Chain) (last : Block) (bs : List Block) (b p : Block) (side : List Block)
      → IsLonger env c last bs b p side
      → IsSpine env c last bs
      → NoUndo env c last
      → handle_block env c b ≡ none
  unfolding handle_block
  handle_block-NoUndo c last bs b p side o h k =
      elim (Option-cases (Coins.validate_block env c.coin_database (get_transactions b))) [
        | inl fault ↦ rw fault refl
        | inr ((valid, validated), checked) ↦
            taken_over c last bs b p side o h k valid validated checked
      ]
