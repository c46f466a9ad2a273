-- ===== src/Chain/Queries.antt =====
-- What the lookups of `Chain` leave as it is: all but the block info database, in which a lookup of
-- an unknown hash adds an empty entry.
use crypt_bank.Prelude.{
  ℕ, zero, suc, ◌-◌, ◌≡◌, refl, ◌∙◌, inl, inr, ◌||◌, Option, some, List, [], ◌∷◌, ◌++◌, arith, ltb,
  nat_beq, if◌then◌else◌, Bool-cases, >>=-eq-some,
}
use crypt_bank.Primitives.{Block}
use crypt_bank.Records.{UndoBlock, deserialize_undo_block}
use crypt_bank.Env.{Env}
use crypt_bank.BlockInfo.Lookup.{record_at, record_at-get_block_record}
use crypt_bank.Writer.{read_block, read_undo_block}
use crypt_bank.Chain.{
  Chain, look_up, get_last_block_hash, get_block, hashes_loop, get_active_chain_hashes,
}
use crypt_bank.Chain.Reorg.{forked_hashes, undo_blocks_loop, get_undo_blocks_queue}

module _ (env : Env) where
  pub record SameCore (c c' : Chain) : Type 0 where
    pub active_chain_length : c'.active_chain_length ≡ c.active_chain_length
    pub last_block : c'.active_chain_last_block ≡ c.active_chain_last_block
    pub chain_writer : c'.chain_writer ≡ c.chain_writer
    pub coin_database : c'.coin_database ≡ c.coin_database
    pub file_system : c'.file_system ≡ c.file_system
    pub records :
        (hash : ℕ)
        → record_at env.proto c'.block_info_database hash
          ≡ record_at env.proto c.block_info_database hash

  pub SameCore-refl : (c : Chain) → SameCore c c
  SameCore-refl c = record {
    active_chain_length = refl;
    last_block = refl;
    chain_writer = refl;
    coin_database = refl;
    file_system = refl;
    records = λ hash. refl;
  }

  pub SameCore-trans : {a b c : Chain} → SameCore a b → SameCore b c → SameCore a c
  SameCore-trans h k = record {
    active_chain_length = k.active_chain_length ∙ h.active_chain_length;
    last_block = k.last_block ∙ h.last_block;
    chain_writer = k.chain_writer ∙ h.chain_writer;
    coin_database = k.coin_database ∙ h.coin_database;
    file_system = k.file_system ∙ h.file_system;
    records = λ hash. k.records hash ∙ h.records hash;
  }

  SameCore-of : {a b c : Chain} → b ≡ c → SameCore a b → SameCore a c
  SameCore-of e h = rw (← e) h

  pub look_up-SameCore : (c : Chain) (hash : ℕ) → SameCore c (look_up env c hash).1
  unfolding look_up
  look_up-SameCore c hash = record {
    active_chain_length = refl;
    last_block = refl;
    chain_writer = refl;
    coin_database = refl;
    file_system = refl;
    records = λ j. record_at-get_block_record env.proto c.block_info_database hash j;
  }

  pub get_block-SameCore :
      (c : Chain) (hash : ℕ) (b : Option Block) (c' : Chain)
      → get_block env c hash ≡ some (b, c')
      → SameCore c c'
  unfolding get_block
  get_block-SameCore c hash b c' e =
      let (s, read, e1) = >>=-eq-some (read_block (look_up env c hash).1.file_system _) _ e in
      SameCore-of (ground (arith, e1)) (look_up-SameCore c hash)

  pub hashes_loop-SameCore :
      (n start end prev : ℕ) (result : List ℕ) (c : Chain)
      → SameCore c (hashes_loop env n start end prev result c).1
  unfolding hashes_loop
  hashes_loop-SameCore zero start end prev result c = SameCore-refl c
  hashes_loop-SameCore (suc n) start end prev result c = elim (Bool-cases (ltb (suc n) start)) [
    | inl stop ↦ rw stop (SameCore-refl c)
    | inr more ↦ rw more (
        SameCore-trans (look_up-SameCore c prev)
          (hashes_loop-SameCore n start end _ _ (look_up env c prev).1))
  ]

  pub forked_hashes-SameCore :
      (n prev : ℕ) (forked : List ℕ) (c : Chain) → SameCore c (forked_hashes env n prev forked c).1
  unfolding forked_hashes
  forked_hashes-SameCore zero prev forked c = SameCore-refl c
  forked_hashes-SameCore (suc n) prev forked c =
      SameCore-trans (look_up-SameCore c prev)
        (forked_hashes-SameCore n _ (prev ∷ forked) (look_up env c prev).1)

  pub undo_blocks_loop-SameCore :
      (n prev : ℕ) (result us : List UndoBlock) (c c' : Chain)
      → undo_blocks_loop env n prev result c ≡ some (us, c')
      → SameCore c c'
  unfolding undo_blocks_loop
  undo_blocks_loop-SameCore zero prev result us c c' e =
      SameCore-of (ground arith) (SameCore-refl c)
  undo_blocks_loop-SameCore (suc n) prev result us c c' e =
      let (s, read, e1) = >>=-eq-some (read_undo_block (look_up env c prev).1.file_system _) _ e in
      let (u, made, e2) = >>=-eq-some (deserialize_undo_block env.proto s) _ e1 in
      SameCore-trans (look_up-SameCore c prev)
        (undo_blocks_loop-SameCore n _ (result ++ (u ∷ [])) us (look_up env c prev).1 c' e2)

  pub get_undo_blocks_queue-SameCore :
      (c c' : Chain) (height : ℕ) (us : List UndoBlock)
      → get_undo_blocks_queue env c height ≡ some (us, c')
      → SameCore c c'
  unfolding get_undo_blocks_queue
  get_undo_blocks_queue-SameCore c c' height us e =
      let (prev, last, e1) = >>=-eq-some (get_last_block_hash env c) _ e in
      elim (Bool-cases (nat_beq height 0 || ltb c.active_chain_length height)) [
        | inl skip ↦ SameCore-of (ground (arith, e1)) (SameCore-refl c)
        | inr run ↦
            undo_blocks_loop-SameCore (c.active_chain_length - height) prev [] us c c'
              (rw run at e1)
      ]

  pub get_active_chain_hashes-SameCore :
      (c c' : Chain) (start end : ℕ) (hs : List ℕ)
      → get_active_chain_hashes env c start end ≡ some (hs, c')
      → SameCore c c'
  unfolding get_active_chain_hashes
  get_active_chain_hashes-SameCore c c' start end hs e = elim (Bool-cases (ltb end start)) [
    | inl none_asked ↦ SameCore-of (ground arith) (SameCore-refl c)
    | inr asked ↦
        let (prev, last, e1) = >>=-eq-some (get_last_block_hash env c) _ (rw asked at e) in
        SameCore-of (ground (arith, e1)) (
          hashes_loop-SameCore c.active_chain_length (if nat_beq start 0 then 1 else start)
            (if ltb c.active_chain_length end then c.active_chain_length else end) prev [] c)
  ]
