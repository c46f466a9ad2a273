-- ===== src/Chain/Walk.antt =====
-- The walk of the queries down the active chain: each look-up keeps what is known of the blocks.
use crypt_bank.Prelude.{ℕ, ◌≡◌, refl, ap, ◌∙◌, some, List, [], ◌∷◌, length}
use crypt_bank.Primitives.{Block, serialize_block}
use crypt_bank.Primitives.RoundTrip.{deserialize_block-serialize_block}
use crypt_bank.Env.{Env, block_hash}
use crypt_bank.BlockInfo.{BlockInfoDatabase, get_block_record}
use crypt_bank.BlockInfo.Lookup.{get_block_record-record_at, record_at-get_block_record}
use crypt_bank.Writer.{FileSystem}
use crypt_bank.Writer.Append.{read_block-Stored}
use crypt_bank.Chain.{Chain, look_up, get_block}
use crypt_bank.Chain.History.{Kept, KeptAll, Linked}

module _ (env : Env) where
  pub Kept-look_up :
      (info : BlockInfoDatabase) (fs : FileSystem) (hash : ℕ) (b : Block) (height : ℕ)
      → Kept env info fs b height
      → Kept env (get_block_record env.proto info hash).1 fs b height
  Kept-look_up info fs hash b height k =
      let e = record_at-get_block_record env.proto info hash (block_hash env b) in
      record {
        in_range = k.in_range;
        height_is = ap (λ x. x.height) e ∙ k.height_is;
        parent_is = ap (λ x. x.block_header.previous_block_hash) e ∙ k.parent_is;
        in_file = rw e k.in_file;
      }

  -- What is known of a chain: its blocks are kept.
  abbrev pub ChainKeeps : Chain → List Block → Type 0
  ChainKeeps c bs = KeptAll env c.block_info_database c.file_system bs

  pub ChainKeeps-look_up :
      (c : Chain) (hash : ℕ) (bs : List Block)
      → ChainKeeps c bs
      → ChainKeeps (look_up env c hash).1 bs
  unfolding look_up
  ChainKeeps-look_up c hash [] k = tt
  ChainKeeps-look_up c hash (b ∷ bs) (kb, k) = (
    Kept-look_up c.block_info_database c.file_system hash b (length (b ∷ bs)) kb,
    ChainKeeps-look_up c hash bs k,
  )

  -- Each block's hash is what its successor, and at the top `prev`, names.
  abbrev pub LinkedFrom : ℕ → List Block → Type 0
  LinkedFrom prev [] = Unit
  LinkedFrom prev (b ∷ bs) =
      (prev ≡ block_hash env b) × LinkedFrom b.block_header.previous_block_hash bs

  pub parent-look_up :
      (c : Chain) (b : Block) (height : ℕ)
      → Kept env c.block_info_database c.file_system b height
      → (look_up env c (block_hash env b)).0.block_header.previous_block_hash
        ≡ b.block_header.previous_block_hash
  unfolding look_up
  parent-look_up c b height k =
      ap (λ r. r.block_header.previous_block_hash)
        (get_block_record-record_at env.proto c.block_info_database (block_hash env b))
      ∙ k.parent_is

  pub block_hash-get_block :
      (c : Chain) (b : Block) (height : ℕ)
      → Kept env c.block_info_database c.file_system b height
      → get_block env c (block_hash env b) ≡ some (some b, (look_up env c (block_hash env b)).1)
  unfolding get_block look_up
  block_hash-get_block c b height k =
      rw (get_block_record-record_at env.proto c.block_info_database (block_hash env b)) (
        rw (read_block-Stored c.file_system _ (serialize_block env.proto b) k.in_file)
          (rw (deserialize_block-serialize_block env.proto b k.in_range) refl))

  pub LinkedFrom-Linked :
      (b : Block) (bs : List Block) → Linked env b bs → LinkedFrom (block_hash env b) (b ∷ bs)
  LinkedFrom-Linked b [] l = (refl, tt)
  LinkedFrom-Linked b (p ∷ bs) (e, l) = (refl, rw e (LinkedFrom-Linked p bs l))
