-- ===== src/Chain/Grown.antt =====
-- Sequences of calls of `Chain`: the constructor, then `handle_block` and `handle_transaction`.
use mathlib.Core.Option.{some-injective}
use crypt_bank.Prelude.{
  ◌+◌, ◌^◌, ◌≤◌, ◌<◌, ◌≡◌, sym, ◌∙◌, ◌≢◌, true, false, Option, some, List, [], ◌∷◌, length, All,
}
use crypt_bank.Primitives.{Block, Transaction, get_transactions}
use crypt_bank.Primitives.InRange.{IsBlock}
use crypt_bank.Env.{Env, block_hash}
use crypt_bank.Coins.Validate.{CoinSet, covers_block}
use crypt_bank.Coins.Apply.{CanApply, apply_block}
use crypt_bank.Writer
use crypt_bank.Writer.{FileSystem}
use crypt_bank.Chain.{Chain}
use crypt_bank.Chain.Side.{height_above}
use crypt_bank.Chain.Aside.{Fits}
use crypt_bank.Chain.Beside.{
  Found, handle_block-rejected, handle_block-forked, handle_transaction-IsHistory,
}
use crypt_bank.Chain.Handle.{new_chain, construct_genesis_block, handle_block, handle_transaction}
use crypt_bank.Chain.Active.{Storable}
use crypt_bank.Chain.History.{KeptAll, IsFresh, IsHistory}
use crypt_bank.Chain.Grow.{handle_block-IsHistory}
use crypt_bank.Chain.Walk.{block_hash-get_block}
use crypt_bank.Chain.Genesis.{genesis_coins, new_chain-IsHistory}
use crypt_bank.Chain.Longer.{IsLonger}
use crypt_bank.Chain.Undone.{Undoable}
use crypt_bank.Chain.Overtaken.{handle_block-overtaken}

module _ (env : Env) where
  -- A block that can go on top of a chain: it is in range and names the last block as its parent, its
  -- hash is new, the set of coins covers it and can be changed by it, and the disk has room.
  pub record IsNext (c : Chain) (last : Block) (bs : List Block) (s : CoinSet) (b : Block)
      : Type 0 where
    pub in_range : IsBlock b
    pub parent : b.block_header.previous_block_hash ≡ block_hash env last
    pub fresh : IsFresh env (block_hash env b) (last ∷ bs)
    pub covered : covers_block s (get_transactions b) ≡ true
    pub can : CanApply env s (get_transactions b)
    pub storable : Storable env c.chain_writer c.file_system b
    pub room : length bs + 2 < 2 ^ 31

  -- A block in range that goes on a fork: its parent is not the last block, its hash is new, it is
  -- not higher than the chain, and the disk has room.
  pub record IsAside (c : Chain) (last : Block) (bs : List Block) (b : Block) : Type 0 where
    pub in_range : IsBlock b
    pub other : b.block_header.previous_block_hash ≢ block_hash env last
    pub fresh : IsFresh env (block_hash env b) (last ∷ bs)
    pub fits : Fits env c b
    pub low : height_above env c b ≤ c.active_chain_length

  -- A block that makes a fork longer than the chain: the blocks that the fork replaces have undo
  -- blocks, and the common ancestor's transactions can be applied to the coins.
  pub record IsOvertaking (c : Chain) (last : Block) (bs : List Block) (s : CoinSet) (b p : Block)
      (side : List Block) : Type 0 where
    pub longer : IsLonger env c last bs b p side
    pub undoable : Undoable env c (last ∷ bs)
    pub can : CanApply env s (get_transactions longer.parted.ancestor)

  -- The chains that the constructor makes and the calls after it: blocks that go on top, blocks that
  -- are not covered, blocks on forks that are not higher, blocks with which a fork takes over, and
  -- transactions. Each call is given what the call before it returned. Beside a chain stand its
  -- blocks and its coins: after a takeover the blocks are those of the fork, and the coins those of
  -- before with the transactions of the common ancestor applied once more.
  pub data Grown : Chain → Block → List Block → CoinSet → Type 0 where
    started :
        {c : Chain} (fs : FileSystem)
        → Storable env Writer.new_writer fs construct_genesis_block
        → new_chain env fs ≡ some c
        → Grown c construct_genesis_block [] (genesis_coins env)
    added :
        {c c' : Chain} {last : Block} {bs : List Block} {s : CoinSet} (b : Block)
        → Grown c last bs s
        → IsNext c last bs s b
        → handle_block env c b ≡ some c'
        → Grown c' b (last ∷ bs) (apply_block env s (get_transactions b))
    rejected :
        {c c' : Chain} {last : Block} {bs : List Block} {s : CoinSet} (b : Block)
        → Grown c last bs s
        → b.block_header.previous_block_hash ≡ block_hash env last
        → covers_block s (get_transactions b) ≡ false
        → handle_block env c b ≡ some c'
        → Grown c' last bs s
    forked :
        {c c' : Chain} {last : Block} {bs : List Block} {s : CoinSet} (b : Block)
        → Grown c last bs s
        → IsAside c last bs b
        → handle_block env c b ≡ some c'
        → Grown c' last bs s
    overtook :
        {c c' : Chain} {last : Block} {bs : List Block} {s : CoinSet} (b p : Block)
        (side : List Block)
        → Grown c last bs s
        → (o : IsOvertaking c last bs s b p side) → handle_block env c b ≡ some c'
        → Grown c' b (p ∷ side) (apply_block env s (get_transactions o.longer.parted.ancestor))
    pooled :
        {c c' : Chain} {last : Block} {bs : List Block} {s : CoinSet} (t : Transaction)
        → Grown c last bs s
        → handle_transaction env c t ≡ some c'
        → Grown c' last bs s

  next-IsHistory :
      (c : Chain) (last : Block) (bs : List Block) (s : CoinSet) (b : Block)
      → IsHistory env c last bs s
      → IsNext c last bs s b
      → (c' : Chain) × (handle_block env c b ≡ some c')
        × IsHistory env c' b (last ∷ bs) (apply_block env s (get_transactions b))
  next-IsHistory c last bs s b h n =
      handle_block-IsHistory env c b last bs s h n.in_range n.parent n.fresh n.covered n.can
        n.storable n.room

  same-IsHistory :
      (result : Option Chain) (c1 c2 : Chain) (b : Block) (bs : List Block) (s : CoinSet)
      → result ≡ some c1
      → result ≡ some c2
      → IsHistory env c1 b bs s
      → IsHistory env c2 b bs s
  same-IsHistory result c1 c2 b bs s e1 e2 h = rw (some-injective c2 c1 (sym e2 ∙ e1)) h

  -- After the constructor and any sequence of transactions and of blocks that each can go on top of
  -- the chain before it, or name its last block as their parent and are not covered by its coins, or
  -- go on a fork and are not higher, or make a fork of the same length take over as `IsOvertaking`
  -- says, the chain is made of the blocks that the sequence tells: one that goes on top is put on
  -- those before, one that takes over replaces them by its fork with itself on top, and the others
  -- leave them. Each is kept under its hash at its height and names the next as its parent, the
  -- length is their number, and the coins
  -- are those of applying in order the blocks that went on top and, for each takeover, the common
  -- ancestor's transactions once more.
  pub Grown-IsHistory :
      (c : Chain) (b : Block) (bs : List Block) (s : CoinSet)
      → Grown c b bs s
      → IsHistory env c b bs s
  Grown-IsHistory c b bs s (started fs storable e) =
      let (c', e', h) = new_chain-IsHistory env fs storable in
      same-IsHistory (new_chain env fs) c' c b bs s e' e h
  Grown-IsHistory c2 b2 bs2 s2 (added {c} {last} {bs} {s} b g n e) =
      let (c', e', h) = next-IsHistory c last bs s b (Grown-IsHistory c last bs s g) n in
      same-IsHistory (handle_block env c b) c' c2 b2 bs2 s2 e' e h
  Grown-IsHistory c2 last bs s (rejected {c} b g parent not_covered e) =
      let (c', e', h) =
        handle_block-rejected env c b last bs s (Grown-IsHistory c last bs s g) parent
          not_covered in
      same-IsHistory (handle_block env c b) c' c2 last bs s e' e h
  Grown-IsHistory c2 last bs s (forked {c} b g f e) =
      let (c', e', h, found) =
        handle_block-forked env c b last bs s (Grown-IsHistory c last bs s g) f.in_range f.other
          f.fresh f.fits f.low in
      same-IsHistory (handle_block env c b) c' c2 last bs s e' e h
  Grown-IsHistory c2 b2 bs2 s2 (overtook {c} {last} {bs} {s} b p side g o e) =
      let (c', e', h, took) =
        handle_block-overtaken env c last bs b p side s o.longer (Grown-IsHistory c last bs s g)
          o.undoable o.can in
      same-IsHistory (handle_block env c b) c' c2 b2 bs2 s2 e' e h
  Grown-IsHistory c2 last bs s (pooled {c} t g e) =
      let (c', e', h, mempool) =
        handle_transaction-IsHistory env c t last bs s (Grown-IsHistory c last bs s g) in
      same-IsHistory (handle_transaction env c t) c' c2 last bs s e' e h

  -- After the constructor and any sequence of transactions and of blocks that each can go on top of
  -- the chain before it, or are rejected as not covered, or go on a fork and are not higher, or
  -- make a fork of the same length take over as `IsOvertaking` says, a block that can go on top is
  -- taken without a fault and becomes the last block, and the sequence goes on with the chain that it
  -- makes.
  pub Grown-next :
      (c : Chain) (last : Block) (bs : List Block) (s : CoinSet) (b : Block)
      → Grown c last bs s
      → IsNext c last bs s b
      → (c' : Chain) × (handle_block env c b ≡ some c')
        × Grown c' b (last ∷ bs) (apply_block env s (get_transactions b))
  Grown-next c last bs s b g n =
      let (c', e, h) = next-IsHistory c last bs s b (Grown-IsHistory c last bs s g) n in
      (c', e, added b g n e)

  KeptAll-Found :
      (c : Chain) (bs : List Block)
      → KeptAll env c.block_info_database c.file_system bs
      → All (Found env c) bs
  KeptAll-Found c [] k = tt
  KeptAll-Found c (b ∷ bs) (kb, k) =
      ((_, block_hash-get_block env c b (length (b ∷ bs)) kb), KeptAll-Found c bs k)

  -- After the constructor and any sequence of transactions and of blocks that each can go on top of
  -- the chain before it, or are rejected as not covered, or go on a fork and are not higher, or
  -- make a fork of the same length take over as `IsOvertaking` says, `get_block` returns every block
  -- of the chain for its hash, those of a fork that took over too.
  pub Grown-get_block :
      (c : Chain) (b : Block) (bs : List Block) (s : CoinSet)
      → Grown c b bs s
      → All (Found env c) (b ∷ bs)
  Grown-get_block c b bs s g = KeptAll-Found c (b ∷ bs) (Grown-IsHistory c b bs s g).kept
