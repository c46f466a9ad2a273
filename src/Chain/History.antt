-- ===== src/Chain/History.antt =====
-- The whole active chain: which blocks it is made of, and that each of them stays readable.
use crypt_bank.Prelude.{ℕ, ◌^◌, ◌<◌, ◌≡◌, refl, ap, ◌∙◌, ◌≢◌, List, [], ◌∷◌, ◌++◌, length, Bytes}
use crypt_bank.Primitives.{Block, serialize_block}
use crypt_bank.Primitives.InRange.{IsBlock}
use crypt_bank.Records.{BlockRecord, FileInfo, new_block_record}
use crypt_bank.Env.{Env, block_hash}
use crypt_bank.BlockInfo.{BlockInfoDatabase, store_block_record}
use crypt_bank.BlockInfo.Lookup.{
  record_at, record_at-store_block_record_self, record_at-store_block_record_ne,
}
use crypt_bank.Coins.{CoinDatabase}
use crypt_bank.Coins.Validate.{CoinSet}
use crypt_bank.Coins.Represents.{Represents}
use crypt_bank.Writer.Append.{Stored}
use crypt_bank.Writer.Store.{IsReady}
use crypt_bank.Writer.{ChainWriter, FileSystem}
use crypt_bank.Chain.{Chain, get_active_chain_length, block_location}
use crypt_bank.Chain.Extend.{record-IsBlockRecord}
use crypt_bank.Chain.Active.{Storable, stored, new_record, with_block}

-- A block is known under its hash: its height, its parent and its text.
pub record Kept (env : Env) (info : BlockInfoDatabase) (fs : FileSystem) (b : Block) (height : ℕ)
    : Type 0 where
  pub in_range : IsBlock b
  pub height_is : (record_at env.proto info (block_hash env b)).height ≡ height
  pub parent_is :
      (record_at env.proto info (block_hash env b)).block_header.previous_block_hash
      ≡ b.block_header.previous_block_hash
  pub in_file :
      Stored fs.files
        (block_location (record_at env.proto info (block_hash env b)))
        (serialize_block env.proto b)

module _ (env : Env) where
  -- Blocks from the newest down: each is kept at its height, and names the next as its parent.
  abbrev pub KeptAll : BlockInfoDatabase → FileSystem → List Block → Type 0
  KeptAll info fs [] = Unit
  KeptAll info fs (b ∷ bs) = Kept env info fs b (length (b ∷ bs)) × KeptAll info fs bs

  abbrev pub Linked : Block → List Block → Type 0
  Linked b [] = Unit
  Linked b (p ∷ bs) = (b.block_header.previous_block_hash ≡ block_hash env p) × Linked p bs

  -- A hash that none of the blocks has.
  abbrev pub IsFresh : ℕ → List Block → Type 0
  IsFresh hash [] = Unit
  IsFresh hash (b ∷ bs) = (hash ≢ block_hash env b) × IsFresh hash bs

  pub IsFresh-prefix : (hash : ℕ) (xs zs : List Block) → IsFresh hash (xs ++ zs) → IsFresh hash xs
  IsFresh-prefix hash [] zs f = tt
  IsFresh-prefix hash (x ∷ xs) zs (fx, f) = (fx, IsFresh-prefix hash xs zs f)

  pub Kept-later :
      (info : BlockInfoDatabase) (fs fs' : FileSystem) (hash : ℕ) (r : BlockRecord) (b : Block)
      (height : ℕ)
      → ((location : FileInfo) (t : Bytes)
          → Stored fs.files location t
          → Stored fs'.files location t)
      → hash ≢ block_hash env b
      → Kept env info fs b height
      → Kept env (store_block_record env.proto info hash r) fs' b height
  Kept-later info fs fs' hash r b height keeps other k =
      let e = record_at-store_block_record_ne env.proto info hash (block_hash env b) r other in
      record {
        in_range = k.in_range;
        height_is = ap (λ x. x.height) e ∙ k.height_is;
        parent_is = ap (λ x. x.block_header.previous_block_hash) e ∙ k.parent_is;
        in_file = rw e (keeps _ _ k.in_file);
      }

  pub KeptAll-later :
      (info : BlockInfoDatabase) (fs fs' : FileSystem) (hash : ℕ) (r : BlockRecord)
      (bs : List Block)
      → ((location : FileInfo) (t : Bytes)
          → Stored fs.files location t
          → Stored fs'.files location t)
      → IsFresh hash bs
      → KeptAll info fs bs
      → KeptAll (store_block_record env.proto info hash r) fs' bs
  KeptAll-later info fs fs' hash r [] keeps fresh k = tt
  KeptAll-later info fs fs' hash r (b ∷ bs) keeps (other, fresh) (kb, k) = (
    Kept-later info fs fs' hash r b (length (b ∷ bs)) keeps other kb,
    KeptAll-later info fs fs' hash r bs keeps fresh k,
  )

  -- The active chain is `b` on top of `bs`, all kept, and the writer is ready.
  pub record IsSpine (c : Chain) (b : Block) (bs : List Block) : Type 0 where
    pub length_is : get_active_chain_length c ≡ length (b ∷ bs)
    pub last_is : c.active_chain_last_block ≡ b
    pub kept : KeptAll c.block_info_database c.file_system (b ∷ bs)
    pub linked : Linked b bs
    pub ready : IsReady c.chain_writer c.file_system

  -- The active chain is `b` on top of `bs`, and its coins are the set `s`.
  pub record IsHistory (c : Chain) (b : Block) (bs : List Block) (s : CoinSet) : Type 0 where
    pub length_is : get_active_chain_length c ≡ length (b ∷ bs)
    pub last_is : c.active_chain_last_block ≡ b
    pub kept : KeptAll c.block_info_database c.file_system (b ∷ bs)
    pub linked : Linked b bs
    pub coins : Represents env c.coin_database s
    pub ready : IsReady c.chain_writer c.file_system

  pub IsHistory-IsSpine :
      {c : Chain} {b : Block} {bs : List Block} {s : CoinSet} → IsHistory c b bs s → IsSpine c b bs
  IsHistory-IsSpine h = record {
    length_is = h.length_is;
    last_is = h.last_is;
    kept = h.kept;
    linked = h.linked;
    ready = h.ready;
  }

  module _ (b : Block) (height : ℕ) (coins : CoinDatabase) (w : ChainWriter) (fs : FileSystem)
      (info : BlockInfoDatabase) (in_range : IsBlock b) (height_range : height < 2 ^ 32)
      (storable : Storable env w fs b) where
    abbrev c' : Chain
    c' = with_block env b height coins w fs info in_range height_range storable

    with_block-Kept : Kept env c'.block_info_database c'.file_system b height
    unfolding new_block_record
    with_block-Kept =
        let st = stored env b height coins w fs info in_range height_range storable in
        let r = new_record env b height coins w fs info in_range height_range storable in
        let e =
          record_at-store_block_record_self env.proto info (block_hash env b) r (
            record-IsBlockRecord env b height storable.undo_text w fs _ st in_range height_range) in
        record {
          in_range = in_range;
          height_is = ap (λ x. x.height) e;
          parent_is = ap (λ x. x.block_header.previous_block_hash) e;
          in_file = rw e st.block_stored;
        }

    pub with_block-IsHistory :
        (bs : List Block) (s : CoinSet)
        → height ≡ length (b ∷ bs)
        → KeptAll info fs bs
        → Linked b bs
        → IsFresh (block_hash env b) bs
        → Represents env coins s
        → IsHistory c' b bs s
    with_block-IsHistory bs s e kept linked fresh represented =
        let st = stored env b height coins w fs info in_range height_range storable in
        record {
          length_is = e;
          last_is = refl;
          kept = (
            rw (← e) with_block-Kept,
            KeptAll-later info fs c'.file_system (block_hash env b) _ bs st.keeps fresh kept,
          );
          linked = linked;
          coins = represented;
          ready = st.ready;
        }
