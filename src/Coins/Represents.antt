-- ===== src/Coins/Represents.antt =====
-- A `CoinDatabase` as a set of coins.
use crypt_bank.Prelude.{
  ℕ, ◌≡◌, ◌∙◌, true, false, ◌&&◌, arith, nat_beq, if◌then◌else◌, nat_beq_iff, ◌==◌, ==_iff,
  bytes_eq,
}
use crypt_bank.Locator.{serialize_from_construct}
use crypt_bank.Locator.RoundTrip.{serialize_from_construct_injective}
use crypt_bank.Env.{Env}
use crypt_bank.Coins.{CoinDatabase}
use crypt_bank.Coins.View.{copies, IsSound, SameCoins}
use crypt_bank.Coins.Validate.{CoinSet}

-- The set without a coin, and with it.
unfoldable pub without : CoinSet → ℕ → ℕ → CoinSet
without s h i h' i' = if nat_beq h h' && nat_beq i i' then false else s h' i'

unfoldable pub with_coin : CoinSet → ℕ → ℕ → CoinSet
with_coin s h i h' i' = if nat_beq h h' && nat_beq i i' then true else s h' i'

pub same_key :
    (h i h' i' : ℕ)
    → (serialize_from_construct h i == serialize_from_construct h' i')
      ≡ nat_beq h h' && nat_beq i i'
same_key h i h' i' = ground (
  arith,
  ==_iff (serialize_from_construct h i) (serialize_from_construct h' i'),
  serialize_from_construct_injective h i h' i',
  nat_beq_iff h h',
  nat_beq_iff i i',
)

module _ (env : Env) where
  -- Each coin of the set is held once, in the cache or in its record, and no other coin is held.
  pub record Represents (c : CoinDatabase) (s : CoinSet) : Type 0 where
    pub sound : IsSound env c
    pub copies : (h i : ℕ) → copies env c h i ≡ (if s h i then 1 else 0)

  pub SameCoins-Represents :
      {c c' : CoinDatabase} {s : CoinSet} → SameCoins env c c' → Represents c s → Represents c' s
  SameCoins-Represents same r = record {
    sound = same.sound;
    copies = λ h i. same.copies h i ∙ r.copies h i;
  }
