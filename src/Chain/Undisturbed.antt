-- ===== src/Chain/Undisturbed.antt =====
-- Sequences of calls without a takeover: the undo blocks of the chain stay readable, so that the first
-- takeover finds them.
use crypt_bank.Prelude.{◌≤◌, ◌≡◌, refl, sym, ◌∙◌, Option, some, List, [], ◌∷◌, length, >>=-eq-some}
use mathlib.Core.Path.{subst}
use mathlib.Core.Option.{some-injective}
use crypt_bank.Primitives.{Block, Transaction, get_transactions}
use crypt_bank.Env.{Env, block_hash}
use crypt_bank.Coins.{CoinDatabase, validate_and_store_transaction}
use crypt_bank.Coins.Validate.{CoinSet}
use crypt_bank.Coins.Apply.{validate_block-Represents}
use crypt_bank.Chain.{Chain}
use crypt_bank.Chain.Handle.{handle_block, handle_transaction}
use crypt_bank.Chain.Active.{last_hash}
use crypt_bank.Chain.Side.{handle_block-side_chain}
use crypt_bank.Chain.History.{IsHistory}
use crypt_bank.Chain.Undone.{Undoable}
use crypt_bank.Chain.Recorded.{handle_block-Undoable}
use crypt_bank.Chain.Aside.{Fits, aside, aside-Undoable}
use crypt_bank.Chain.Beside.{handle_block-rejected_coins}
use crypt_bank.Chain.Grown.{
  IsAside, Grown, started, added, rejected, forked, overtook, pooled, Grown-IsHistory,
}

module _ (env : Env) where
  -- No fork took over, and each block that went on top has a transaction.
  unfoldable pub Undisturbed :
      {c : Chain} {b : Block} {bs : List Block} {s : CoinSet} → Grown env c b bs s → Type 0
  Undisturbed (started fs storable e) = Unit
  Undisturbed (added b g n e) = (1 ≤ length b.transactions) × Undisturbed g
  Undisturbed (rejected b g parent not_covered e) = Undisturbed g
  Undisturbed (forked b g f e) = Undisturbed g
  Undisturbed (overtook b p side g o e) = ⊥
  Undisturbed (pooled t g e) = Undisturbed g

  with_coins-Undoable :
      (c : Chain) (coins : CoinDatabase) (bs : List Block)
      → Undoable env c bs
      → Undoable env (record c { coin_database = coins }) bs
  with_coins-Undoable c coins bs u = record {
    above = u.above;
    lowest = u.lowest;
    active_is = u.active_is;
    undos = u.undos;
    undone = u.undone;
    named = u.named;
  }

  same-Undoable :
      (result : Option Chain) (c1 c2 : Chain) (bs : List Block)
      → result ≡ some c1
      → result ≡ some c2
      → Undoable env c1 bs
      → Undoable env c2 bs
  same-Undoable result c1 c2 bs e1 e2 u = rw (some-injective c2 c1 (sym e2 ∙ e1)) u

  handle_transaction-Undoable :
      (c c' : Chain) (t : Transaction) (bs : List Block)
      → handle_transaction env c t ≡ some c'
      → Undoable env c bs
      → Undoable env c' bs
  unfolding handle_transaction
  handle_transaction-Undoable c c' t bs e u =
      let (q, e1, e2) = >>=-eq-some (validate_and_store_transaction env c.coin_database _) _ e in
      subst (λ d. Undoable env d bs) (some-injective _ c' e2) (with_coins-Undoable c q.1 bs u)

  forked-Undoable :
      (c : Chain) (b last : Block) (bs : List Block) (s : CoinSet)
      → IsHistory env c last bs s
      → IsAside env c last bs b
      → Undoable env c (last ∷ bs)
      → (c' : Chain) × (handle_block env c b ≡ some c') × Undoable env c' (last ∷ bs)
  forked-Undoable c b last bs s h f u =
      let (cv, ev, rv) =
        validate_block-Represents env c.coin_database s (get_transactions b) h.coins in
      let c1 : Chain = record c { coin_database = cv } in
      let fits : Fits env c1 b = record {
        may = f.fits.may;
        number = f.fits.number;
        small = f.fits.small;
      } in
      (
        aside env c1 b f.in_range fits h.ready,
        handle_block-side_chain env c b _ cv (block_hash env last) f.in_range f.fits.may
            h.ready.block h.ready.block_offset f.fits.number f.fits.small ev
            (last_hash env c1 last h.kept.0.in_range h.last_is) f.other f.low,
        aside-Undoable env c1 b f.in_range fits h.ready (last ∷ bs) f.fresh
            (with_coins-Undoable c cv (last ∷ bs) u),
      )

  -- After the constructor and any sequence of transactions and of blocks that each can go on top of
  -- the chain before it and have a transaction, or are rejected as not covered, or go on a fork and
  -- are not higher, every block of the chain but the lowest has an undo block that its record names,
  -- the files hold and that names a transaction.
  pub Grown-Undoable :
      (c : Chain) (b : Block) (bs : List Block) (s : CoinSet) (g : Grown env c b bs s)
      → Undisturbed g
      → Undoable env c (b ∷ bs)
  unfolding Undisturbed
  Grown-Undoable c b bs s (started fs storable e) quiet = record {
    above = [];
    lowest = b;
    active_is = refl;
    undos = [];
    undone = tt;
    named = tt;
  }
  Grown-Undoable c2 b2 bs2 s2 (added {c} {last} {bs} {s} b g n e) (some_transaction, quiet) =
      let (c', e', h, u) =
        handle_block-Undoable env c b last bs s (Grown-IsHistory env c last bs s g) n.in_range
          n.parent n.fresh n.covered n.can n.storable n.room some_transaction
          (Grown-Undoable c last bs s g quiet) in
      same-Undoable (handle_block env c b) c' c2 (b2 ∷ bs2) e' e u
  Grown-Undoable c2 last bs s (rejected {c} b g parent not_covered e) quiet =
      let (cv, e', r) =
        handle_block-rejected_coins env c b last bs s (Grown-IsHistory env c last bs s g) parent
          not_covered in
      same-Undoable (handle_block env c b) (record c { coin_database = cv }) c2 (last ∷ bs) e' e
        (with_coins-Undoable c cv (last ∷ bs) (Grown-Undoable c last bs s g quiet))
  Grown-Undoable c2 last bs s (forked {c} b g f e) quiet =
      let (c', e', u) =
        forked-Undoable c b last bs s (Grown-IsHistory env c last bs s g) f
          (Grown-Undoable c last bs s g quiet) in
      same-Undoable (handle_block env c b) c' c2 (last ∷ bs) e' e u
  Grown-Undoable c2 b2 bs2 s2 (overtook b p side g o e) quiet = absurd quiet
  Grown-Undoable c2 last bs s (pooled {c} t g e) quiet =
      handle_transaction-Undoable c c2 t (last ∷ bs) e (Grown-Undoable c last bs s g quiet)
