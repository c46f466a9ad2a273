-- ===== src/Coins/Erase.antt =====
-- Taking one coin out of a record, and out of the cache.
use crypt_bank.Prelude.{
  ℕ, zero, suc, ◌+◌, ◌≤◌, ◌<◌, ◌≡◌, refl, sym, ap, ◌∙◌, inl, inr, true, false, some, List, [], ◌∷◌,
  arith, nat_beq, if◌then◌else◌, nat_beq_iff, Bool-cases, length, All, ◌==◌, ==_iff, Bytes,
  bytes_eq, >>=-eq-some,
}
use crypt_bank.Prelude.Map.{Map, contains, erase}
use crypt_bank.Records.{CoinRecord}
use crypt_bank.Records.InRange.{IsCoinRecord}
use crypt_bank.Proto.{IsU32}
use crypt_bank.Coins.{Coin, position, erase_at, erase_coin}
use crypt_bank.Coins.View.{count, entries, IsCached}

pub entries-contains :
    (key : Bytes) (m : Map Bytes Coin)
    → (contains key m ≡ true → 1 ≤ entries key m) × (contains key m ≡ false → entries key m ≡ 0)
unfolding contains entries
entries-contains key [] = ground arith
entries-contains key ((k, coin) ∷ m) = ground (arith, entries-contains key m)

pub entries-erase :
    (key j : Bytes) (m : Map Bytes Coin)
    → entries j (erase key m) ≡ (if key == j then 0 else entries j m)
unfolding erase entries
entries-erase key j [] = ground arith
entries-erase key j ((k, coin) ∷ m) =
    ground (arith, ==_iff k key, ==_iff k j, ==_iff key j, entries-erase key j m)

pub erase-IsCached :
    (key : Bytes) (m : Map Bytes Coin) → All IsCached m → All IsCached (erase key m)
unfolding erase
erase-IsCached key [] h = tt
erase-IsCached key ((k, coin) ∷ m) (w, h) = elim (Bool-cases (k == key)) [
  | inl same ↦ rw same (erase-IsCached key m h)
  | inr other ↦ rw other (w, erase-IsCached key m h)
]

position-lt : (i : ℕ) (us : List ℕ) → 1 ≤ count i us → position i us < length us
unfolding position count
position-lt i [] h = absurd (omega arith)
position-lt i (u ∷ us) h = ground (arith, nat_beq_iff i u, nat_beq_iff u i, position-lt i us)

erase_at-some :
    (xs : List ℕ) (n : ℕ)
    → n < length xs
    → All IsU32 xs
    → (xs' : List ℕ) × (erase_at n xs ≡ some xs') × (length xs' + 1 ≡ length xs) × All IsU32 xs'
unfolding erase_at
erase_at-some [] n h w = absurd (omega arith)
erase_at-some (x ∷ xs) zero h (wx, w) = (xs, refl, omega arith, w)
erase_at-some (x ∷ xs) (suc n) h (wx, w) =
    let (xs', e, l, w') = erase_at-some xs n (omega arith) w in
    (x ∷ xs', rw e refl, omega arith, (wx, w'))

position-here : (i u : ℕ) (us : List ℕ) → nat_beq u i ≡ true → position i (u ∷ us) ≡ 0
unfolding position
position-here i u us e = rw e refl

position-there :
    (i u : ℕ) (us : List ℕ) → nat_beq u i ≡ false → position i (u ∷ us) ≡ suc (position i us)
unfolding position
position-there i u us e = rw e refl

erase_at-count :
    (i j : ℕ) (us us' : List ℕ)
    → erase_at (position i us) us ≡ some us'
    → count j us' + (if nat_beq i j then 1 else 0) ≡ count j us
unfolding erase_at count
erase_at-count i j [] us' e = cc
erase_at-count i j (u ∷ us) us' e = elim (Bool-cases (nat_beq u i)) [
  | inl same ↦
      let e1 : some us ≡ some us' =
        ap (λ n. erase_at n (u ∷ us)) (sym (position-here i u us same)) ∙ e in
      ground (arith, e1, nat_beq_iff u i)
  | inr other ↦
      let e1 = ap (λ n. erase_at n (u ∷ us)) (sym (position-there i u us other)) ∙ e in
      let (us1, e2, e3) = >>=-eq-some (erase_at (position i us) us) (λ rest. some (u ∷ rest)) e1 in
      ground (arith, e3, erase_at-count i j us us1 e2)
]

-- The record without its first coin of the index.
pub erase_coin-count :
    (i : ℕ) (r : CoinRecord)
    → IsCoinRecord r
    → 1 ≤ count i r.utxo
    → (r' : CoinRecord) × (erase_coin i r ≡ some r')
      × IsCoinRecord r'
      × ((j : ℕ) → count j r'.utxo + (if nat_beq i j then 1 else 0) ≡ count j r.utxo)
unfolding erase_coin
erase_coin-count i r w h =
    let lt = position-lt i r.utxo h in
    let (us, eu, lu, wu) = erase_at-some r.utxo (position i r.utxo) lt w.utxo in
    let (as', ea, la, wa) =
      erase_at-some r.amounts (position i r.utxo) (omega (arith, w.aligned, lt)) w.amounts in
    let (ks, ek, lk, wk) =
      erase_at-some r.public_keys (position i r.utxo) (omega (arith, w.aligned, lt))
        w.public_keys in
    (
      record r { utxo = us; amounts = as'; public_keys = ks },
      rw eu (rw ea (rw ek refl)),
      record {
        version = w.version;
        aligned = omega (arith, w.aligned, lu, la, lk);
        utxo = wu;
        amounts = wa;
        public_keys = wk;
      },
      λ j. erase_at-count i j r.utxo us eu,
    )
