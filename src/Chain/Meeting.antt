-- ===== src/Chain/Meeting.antt =====
-- Which block's coins `take_over` stores, whatever chain it starts with.
use crypt_bank.Prelude.{
  ℕ, zero, suc, ◌+◌, ◌%◌, ◌^◌, ◌≡◌, refl, sym, ap, ◌∙◌, ◌≢◌, inl, inr, Option, some, List, [], ◌∷◌,
  ◌++◌, append_assoc, append-nil, arith, nat_beq, nat_beq_iff, Bool-cases, length, >>=-eq-some,
}
use mathlib.Core.Path.{fun_ext, subst}
use mathlib.Core.Option.{some-injective, none-ne-some}
use crypt_bank.Primitives.{Block, get_transactions}
use crypt_bank.Records.{UndoBlock}
use crypt_bank.Env.{Env}
use crypt_bank.BlockInfo.Lookup.{record_at, get_block_record-record_at}
use crypt_bank.Coins
use crypt_bank.Coins.{CoinDatabase}
use crypt_bank.Coins.Undo.{undo_coins, undo_coins-no_effect}
use crypt_bank.Writer.{read_block}
use crypt_bank.BlockInfo.{get_block_record}
use crypt_bank.Chain.{Chain, block_location, look_up, get_block, get_active_chain_hashes}
use crypt_bank.Chain.Reorg.{
  forked_hashes, mismatch, stack_blocks, get_forked_blocks_stack, get_undo_blocks_queue,
  store_fetched, take_over,
}
use crypt_bank.Chain.Queries.{
  SameCore, SameCore-trans, look_up-SameCore, get_block-SameCore, forked_hashes-SameCore,
  get_undo_blocks_queue-SameCore, get_active_chain_hashes-SameCore,
}
use crypt_bank.Chain.Hashes.{parent_of, look_up-parent_of, parent_of-look_up}
use crypt_bank.Chain.Fork.{stack_blocks-suc}

-- The last `n` hashes of the branch that ends with `hash`, oldest first.
unfoldable pub branch : (ℕ → ℕ) → ℕ → ℕ → List ℕ
branch parent zero hash = []
branch parent (suc n) hash = branch parent n (parent hash) ++ (hash ∷ [])

-- Two lists of hashes agree at first, and then have `a` and `f`.
record PartAt (active forked : List ℕ) (a f : ℕ) : Type 0 where
  common : List ℕ
  newer_active : List ℕ
  newer_side : List ℕ
  active_is : active ≡ common ++ (a ∷ newer_active)
  side_is : forked ≡ common ++ (f ∷ newer_side)
  differ : a ≢ f

mismatch-PartAt :
    (active forked : List ℕ) (a : ℕ)
    → mismatch active forked ≡ some a
    → (f : ℕ) × PartAt active forked a f
unfolding mismatch
mismatch-PartAt [] fs a e = absurd (none-ne-some a e)
mismatch-PartAt (x ∷ xs) [] a e = absurd (none-ne-some a e)
mismatch-PartAt (x ∷ xs) (f ∷ fs) a e = elim (Bool-cases (nat_beq x f)) [
  | inl same ↦
      let (g, h) = mismatch-PartAt xs fs a (rw same at e) in
      let equal : x ≡ f = ground (arith, nat_beq_iff x f, same) in
      (
        g,
        record {
          common = x ∷ h.common;
          newer_active = h.newer_active;
          newer_side = h.newer_side;
          active_is = ap (λ t. x ∷ t) h.active_is;
          side_is = rw equal (ap (λ t. f ∷ t) h.side_is);
          differ = h.differ;
        },
      )
  | inr other ↦
      let here : x ≡ a = some-injective x a (rw other at e) in
      (
        f,
        record {
          common = [];
          newer_active = xs;
          newer_side = fs;
          active_is = ap (λ y. y ∷ xs) here;
          side_is = refl;
          differ = λ same. ground (arith, nat_beq_iff x f, other, here, same);
        },
      )
]

module _ (env : Env) where
  -- The hashes of the active chain and of the branch that ends with `hash` agree at first and then
  -- differ; `ancestor` is the parent of the first differing one of the active chain.
  pub record MeetAt (c : Chain) (hash ancestor : ℕ) : Type 0 where
    pub common : List ℕ
    pub newer_active : List ℕ
    pub newer_side : List ℕ
    pub first_active : ℕ
    pub first_side : ℕ
    pub known : Chain
    pub active_is :
        get_active_chain_hashes env c 1 c.active_chain_length
        ≡ some (common ++ (first_active ∷ newer_active), known)
    pub side_is :
        branch (parent_of env c) (record_at env.proto c.block_info_database hash).height hash
        ≡ common ++ (first_side ∷ newer_side)
    pub differ : first_active ≢ first_side
    pub above : parent_of env c first_active ≡ ancestor

  look_up-record_at :
      (c : Chain) (hash : ℕ)
      → (look_up env c hash).0 ≡ record_at env.proto c.block_info_database hash
  unfolding look_up
  look_up-record_at c hash = get_block_record-record_at env.proto c.block_info_database hash

  parent_of-SameCore : (c c' : Chain) → SameCore env c c' → parent_of env c' ≡ parent_of env c
  unfolding parent_of
  parent_of-SameCore c c' same =
      fun_ext λ h. ap (λ r. r.block_header.previous_block_hash) (same.records h)

  forked_hashes-branch :
      (n prev : ℕ) (forked : List ℕ) (c : Chain)
      → (forked_hashes env n prev forked c).0 ≡ branch (parent_of env c) n prev ++ forked
  unfolding forked_hashes branch
  forked_hashes-branch zero prev forked c = refl
  forked_hashes-branch (suc n) prev forked c =
      let looked = (look_up env c prev).1 in
      forked_hashes-branch n (look_up env c prev).0.block_header.previous_block_hash (prev ∷ forked)
        looked
      ∙ ap
          (λ p.
            branch p n (look_up env c prev).0.block_header.previous_block_hash ++ (prev ∷ forked))
          (parent_of-look_up env c prev)
      ∙ ap (λ h. branch (parent_of env c) n h ++ (prev ∷ forked)) (look_up-parent_of env c prev)
      ∙ sym (append_assoc (branch (parent_of env c) n (parent_of env c prev)) (prev ∷ []) forked)

  get_block-before :
      (c c' c2 : Chain) (hash : ℕ) (b : Option Block)
      → SameCore env c c'
      → get_block env c' hash ≡ some (b, c2)
      → (d : Chain) × (get_block env c hash ≡ some (b, d))
  unfolding get_block look_up
  get_block-before c c' c2 hash b same e =
      let r = get_block_record-record_at env.proto c.block_info_database hash in
      let r' = get_block_record-record_at env.proto c'.block_info_database hash in
      let (s, read, e1) =
        >>=-eq-some
          (read_block c'.file_system
            (block_location (get_block_record env.proto c'.block_info_database hash).0))
          _ e in
      let read1 : read_block c.file_system
            (block_location (get_block_record env.proto c.block_info_database hash).0)
          ≡ some s =
        ap (λ x. read_block c.file_system (block_location x)) (r ∙ sym (same.records hash) ∙ sym r')
        ∙ ap
            (λ fs.
              read_block fs
                (block_location (get_block_record env.proto c'.block_info_database hash).0))
            (sym same.file_system)
        ∙ read in
      (
        (look_up env c hash).1,
        rw read1
            (ap (λ o. some (o, (look_up env c hash).1)) (ap (λ t. t.0) (some-injective _ _ e1))),
      )

  -- A branch of no blocks has no mismatch.
  some_height :
      (n : ℕ) (active : List ℕ) (hash m : ℕ) (c : Chain)
      → mismatch active (forked_hashes env n hash [] c).0 ≡ some m
      → (k : ℕ) × (n ≡ suc k)
  unfolding forked_hashes mismatch
  some_height zero [] hash m c e = absurd (none-ne-some m e)
  some_height zero (a ∷ active) hash m c e = absurd (none-ne-some m e)
  some_height (suc k) active hash m c e = (k, refl)

  get_forked_blocks_stack-MeetAt :
      (c c' : Chain) (hash : ℕ) (bs : List (Option Block))
      → get_forked_blocks_stack env c hash ≡ some (bs, c')
      → (ancestor : ℕ) × (b : Option Block) × (d : Chain) × (bs ≡ b ∷ [])
        × MeetAt c hash ancestor
        × (get_block env c ancestor ≡ some (b, d))
        × SameCore env c c'
  unfolding get_forked_blocks_stack
  get_forked_blocks_stack-MeetAt c c' hash bs e =
      let (p, e1, e2) = >>=-eq-some (get_active_chain_hashes env c 1 c.active_chain_length) _ e in
      let height : ℕ = (look_up env p.1 hash).0.height in
      let c2 : Chain = (look_up env p.1 hash).1 in
      let c3 : Chain = (forked_hashes env height hash [] c2).1 in
      let (m, e3, e4) = >>=-eq-some (mismatch p.0 (forked_hashes env height hash [] c2).0) _ e2 in
      let ancestor : ℕ = (look_up env c3 m).0.block_header.previous_block_hash in
      let c4 : Chain = (look_up env c3 m).1 in
      let (k, some_rounds) = some_height height p.0 hash m c2 e3 in
      let (q, got, e5) = >>=-eq-some (get_block env c4 ancestor) _ (
        sym (stack_blocks-suc env k ancestor c4)
        ∙ ap (λ n. stack_blocks env n ancestor ancestor [] c4) (sym some_rounds)
        ∙ e4) in
      let same1 = get_active_chain_hashes-SameCore env c p.1 _ _ p.0 e1 in
      let same2 = SameCore-trans env same1 (look_up-SameCore env p.1 hash) in
      let same3 = SameCore-trans env same2 (forked_hashes-SameCore env height hash [] c2) in
      let same4 = SameCore-trans env same3 (look_up-SameCore env c3 m) in
      let (f, part) = mismatch-PartAt p.0 (forked_hashes env height hash [] c2).0 m e3 in
      let (d, read) = get_block-before c c4 q.1 ancestor q.0 same4 got in
      let height_is : height ≡ (record_at env.proto c.block_info_database hash).height =
        ap (λ r. r.height) (look_up-record_at p.1 hash ∙ same1.records hash) in
      (
        ancestor,
        q.0,
        d,
        sym (ap (λ t. t.0) (some-injective _ _ e5)),
        record {
          common = part.common;
          newer_active = part.newer_active;
          newer_side = part.newer_side;
          first_active = m;
          first_side = f;
          known = p.1;
          active_is = e1 ∙ ap (λ t. some (t, p.1)) part.active_is;
          side_is =
              ap (λ n. branch (parent_of env c) n hash) (sym height_is)
              ∙ ap (λ g. branch g height hash) (sym (parent_of-SameCore c c2 same2))
              ∙ sym (append-nil _)
              ∙ sym (forked_hashes-branch height hash [] c2)
              ∙ part.side_is;
          differ = part.differ;
          above =
              ap (λ g. g m) (sym (parent_of-SameCore c c3 same3))
              ∙ sym (look_up-parent_of env c3 m);
        },
        read,
        SameCore-trans env same4 (
            subst (SameCore env c4) (ap (λ t. t.1) (some-injective _ _ e5))
              (get_block-SameCore env c4 ancestor q.0 q.1 got)),
      )

  store_fetched-one :
      (coins coins' : CoinDatabase) (b : Option Block)
      → store_fetched env coins (b ∷ []) ≡ some coins'
      → (a : Block) × (b ≡ some a)
        × (Coins.store_block env coins (get_transactions a) ≡ some coins')
  unfolding store_fetched
  store_fetched-one coins coins' b e =
      let (a, e1, e2) = >>=-eq-some b _ e in
      let (coins1, e3, e4) = >>=-eq-some (Coins.store_block env coins (get_transactions a)) _ e2 in
      (a, e1, e3 ∙ e4)

  undo_coins-same :
      (coins coins' : CoinDatabase) (us : List UndoBlock)
      → undo_coins env coins us ≡ some coins'
      → coins' ≡ coins
  undo_coins-same coins coins' us e = ground (arith, undo_coins-no_effect env coins us)

  -- A takeover that does not fault, from any state, makes the new block the last one and the length one
  -- more. The hashes of the active chain and of the branch that ends with the given hash, followed
  -- by the records' parents down from the height of its record, agree at first and then differ. The
  -- block is read from the files that the record of the first differing hash of the active chain names
  -- as its parent, and the coin database is the one that there was with the transactions of that one
  -- block stored: no coin is undone, and the transactions of no other block are stored.
  pub take_over-coins :
      (c c' : Chain) (b : Block) (hash : ℕ)
      → take_over env c b hash ≡ some c'
      → (ancestor : ℕ) × (a : Block) × (d : Chain) × (c'.active_chain_length
          ≡ (c.active_chain_length + 1) % 2 ^ 32)
        × (c'.active_chain_last_block ≡ b)
        × MeetAt c hash ancestor
        × (get_block env c ancestor ≡ some (some a, d))
        × (Coins.store_block env c.coin_database (get_transactions a) ≡ some c'.coin_database)
  unfolding take_over
  take_over-coins c c' b hash e =
      let (f, e1, e2) = >>=-eq-some (get_forked_blocks_stack env c hash) _ e in
      let (q, e3, e4) = >>=-eq-some (get_undo_blocks_queue env f.1 (length f.0 % 2 ^ 32)) _ e2 in
      let (coins, e5, e6) = >>=-eq-some (undo_coins env q.1.coin_database q.0) _ e4 in
      let (coins', e7, e8) = >>=-eq-some (store_fetched env coins f.0) _ e6 in
      let (ancestor, o, d, single, meet, read, same) =
        get_forked_blocks_stack-MeetAt c f.1 hash f.0 e1 in
      let same' : SameCore env c q.1 =
        SameCore-trans env same (get_undo_blocks_queue-SameCore env f.1 q.1 _ q.0 e3) in
      let kept : coins ≡ c.coin_database =
        undo_coins-same q.1.coin_database coins q.0 e5 ∙ same'.coin_database in
      let final : c'.coin_database ≡ coins' = ground (arith, e8) in
      let (a, fetched, stored) =
        store_fetched-one coins coins' o (ap (store_fetched env coins) (sym single) ∙ e7) in
      (
        ancestor,
        a,
        d,
        ground (arith, e8, same'.active_chain_length),
        ground (arith, e8),
        meet,
        read ∙ ap (λ x. some (x, d)) fetched,
        ap (λ x. Coins.store_block env x (get_transactions a)) (sym kept)
            ∙ stored
            ∙ ap some (sym final),
      )
