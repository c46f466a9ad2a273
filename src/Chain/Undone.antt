-- ===== src/Chain/Undone.antt =====
-- `get_undo_blocks_queue` on an active chain whose undo blocks stand in the files.
use crypt_bank.Prelude.{
  ℕ, suc, ◌+◌, ◌-◌, ◌≤◌, ◌≡◌, refl, sym, ap, ◌∙◌, false, some, List, [], ◌∷◌, ◌++◌, append_assoc,
  append-nil, arith, ltb, nat_beq, length, All, length-append, Bytes,
}
use mathlib.Core.Path.{subst}
use crypt_bank.Primitives.{Block}
use crypt_bank.Records.{UndoBlock, FileInfo, deserialize_undo_block}
use crypt_bank.Env.{Env, block_hash}
use crypt_bank.BlockInfo.{BlockInfoDatabase}
use crypt_bank.BlockInfo.Lookup.{record_at, get_block_record-record_at}
use crypt_bank.Writer.{FileSystem, read_undo_block}
use crypt_bank.Writer.Append.{Stored, read_block-Stored}
use crypt_bank.Chain.{Chain, undo_location, look_up}
use crypt_bank.Chain.Reorg.{undo_blocks_loop, get_undo_blocks_queue}
use crypt_bank.Chain.Queries.{SameCore, look_up-SameCore, undo_blocks_loop-SameCore}
use crypt_bank.Chain.Active.{last_hash}
use crypt_bank.Chain.History.{IsSpine}
use crypt_bank.Chain.Walk.{LinkedFrom, LinkedFrom-Linked}

-- What the loop finds under the hash of a block: its parent, and where a text stands that reads as
-- the undo block `u`.
pub record Undone (env : Env) (info : BlockInfoDatabase) (fs : FileSystem) (b : Block)
    (u : UndoBlock) : Type 0 where
  pub text : Bytes
  pub parent_is :
      (record_at env.proto info (block_hash env b)).block_header.previous_block_hash
      ≡ b.block_header.previous_block_hash
  pub stored : Stored fs.files (undo_location (record_at env.proto info (block_hash env b))) text
  pub read : deserialize_undo_block env.proto text ≡ some u

read_undo_block-Stored :
    (fs : FileSystem) (location : FileInfo) (s : Bytes)
    → Stored fs.files location s
    → read_undo_block fs location ≡ some s
unfolding read_undo_block
read_undo_block-Stored = read_block-Stored

module _ (env : Env) where
  -- Blocks and their undo blocks, side by side.
  abbrev pub UndoneBy : BlockInfoDatabase → FileSystem → List Block → List UndoBlock → Type 0
  UndoneBy info fs [] [] = Unit
  UndoneBy info fs [] (u ∷ us) = ⊥
  UndoneBy info fs (b ∷ bs) [] = ⊥
  UndoneBy info fs (b ∷ bs) (u ∷ us) = Undone env info fs b u × UndoneBy info fs bs us

  abbrev pub AllUndone : Chain → List Block → List UndoBlock → Type 0
  AllUndone c bs us = UndoneBy c.block_info_database c.file_system bs us

  -- The blocks above the lowest have undo blocks, each of which names a transaction.
  pub record Undoable (c : Chain) (active : List Block) : Type 0 where
    pub above : List Block
    pub lowest : Block
    pub active_is : active ≡ above ++ (lowest ∷ [])
    pub undos : List UndoBlock
    pub undone : AllUndone c above undos
    pub named : All (λ u. 1 ≤ length u.transaction_hashes) undos

  pub Undone-SameCore :
      (c c' : Chain) (b : Block) (u : UndoBlock)
      → SameCore env c c'
      → Undone env c.block_info_database c.file_system b u
      → Undone env c'.block_info_database c'.file_system b u
  Undone-SameCore c c' b u same k =
      let e = same.records (block_hash env b) in
      record {
        text = k.text;
        parent_is = ap (λ r. r.block_header.previous_block_hash) e ∙ k.parent_is;
        stored = rw (e, same.file_system) k.stored;
        read = k.read;
      }

  pub AllUndone-SameCore :
      (c c' : Chain) (bs : List Block) (us : List UndoBlock)
      → SameCore env c c'
      → AllUndone c bs us
      → AllUndone c' bs us
  AllUndone-SameCore c c' [] [] same k = tt
  AllUndone-SameCore c c' [] (u ∷ us) same k = absurd k
  AllUndone-SameCore c c' (b ∷ bs) [] same k = absurd k
  AllUndone-SameCore c c' (b ∷ bs) (u ∷ us) same (kb, k) =
      (Undone-SameCore c c' b u same kb, AllUndone-SameCore c c' bs us same k)

  undo_blocks_loop-step :
      (n : ℕ) (b : Block) (u : UndoBlock) (result : List UndoBlock) (c : Chain)
      → Undone env c.block_info_database c.file_system b u
      → undo_blocks_loop env (suc n) (block_hash env b) result c
        ≡ undo_blocks_loop env n b.block_header.previous_block_hash
            (result ++ (u ∷ []))
            (look_up env c (block_hash env b)).1
  unfolding undo_blocks_loop look_up
  undo_blocks_loop-step n b u result c k =
      rw
        (
          get_block_record-record_at env.proto c.block_info_database (block_hash env b),
          read_undo_block-Stored c.file_system _ k.text k.stored,
          k.read,
          k.parent_is,
        )
        refl

  undo_blocks_loop-undone :
      (bs : List Block) (us : List UndoBlock) (prev : ℕ) (result : List UndoBlock) (c : Chain)
      → AllUndone c bs us
      → LinkedFrom env prev bs
      → (c' : Chain) × (undo_blocks_loop env (length bs) prev result c ≡ some (result ++ us, c'))
  unfolding undo_blocks_loop
  undo_blocks_loop-undone [] (u ∷ us) prev result c k l = absurd k
  undo_blocks_loop-undone (b ∷ bs) [] prev result c k l = absurd k
  undo_blocks_loop-undone [] [] prev result c k l =
      (c, ap (λ r. some (r, c)) (sym (append-nil result)))
  undo_blocks_loop-undone (b ∷ bs) (u ∷ us) prev result c (kb, k) (e, l) =
      let looked = (look_up env c (block_hash env b)).1 in
      let (c', h) =
        undo_blocks_loop-undone bs us b.block_header.previous_block_hash (result ++ (u ∷ [])) looked
          (AllUndone-SameCore c looked bs us (look_up-SameCore env c (block_hash env b)) k) l in
      (
        c',
        rw e (
            undo_blocks_loop-step (length bs) b u result c kb
            ∙ h
            ∙ ap (λ r. some (r, c')) (append_assoc result (u ∷ []) us)),
      )

  LinkedFrom-prefix :
      (prev : ℕ) (xs zs : List Block) → LinkedFrom env prev (xs ++ zs) → LinkedFrom env prev xs
  LinkedFrom-prefix prev [] zs l = tt
  LinkedFrom-prefix prev (x ∷ xs) zs (e, l) =
      (e, LinkedFrom-prefix x.block_header.previous_block_hash xs zs l)

  -- On an active chain of kept blocks, those above a height of at least 1 with undo blocks that
  -- their records name and the files hold, `get_undo_blocks_queue` of that height does not fault
  -- and returns these undo blocks, from the newest block down, and changes no record.
  pub get_undo_blocks_queue-undone :
      (c : Chain) (last : Block) (bs above rest : List Block) (us : List UndoBlock)
      → IsSpine env c last bs
      → last ∷ bs ≡ above ++ rest
      → 1 ≤ length rest
      → AllUndone c above us
      → (c' : Chain) × (get_undo_blocks_queue env c (length rest) ≡ some (us, c'))
        × SameCore env c c'
  unfolding get_undo_blocks_queue
  get_undo_blocks_queue-undone c last bs above rest us h split low undone =
      let whole : c.active_chain_length ≡ length above + length rest =
        h.length_is ∙ ap length split ∙ length-append above rest in
      let positive : nat_beq (length rest) 0 ≡ false = ground (arith, low) in
      let not_higher : ltb c.active_chain_length (length rest) ≡ false = ground (arith, whole) in
      let count : c.active_chain_length - length rest ≡ length above = omega (arith, whole) in
      let (c', e) = undo_blocks_loop-undone above us (block_hash env last) [] c undone (
        LinkedFrom-prefix (block_hash env last) above rest (
          subst (λ t. LinkedFrom env (block_hash env last) t) split
            (LinkedFrom-Linked env last bs h.linked))) in
      (
        c',
        rw (last_hash env c last h.kept.0.in_range h.last_is, positive, not_higher, count) e,
        undo_blocks_loop-SameCore env (length above) (block_hash env last) [] us c c' e,
      )
