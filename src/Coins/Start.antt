-- ===== src/Coins/Start.antt =====
-- The coin database that the constructor makes, as a set of coins.
use crypt_bank.Prelude.{refl, false, arith, bytes_eq}
use crypt_bank.Prelude.Map.{find}
use crypt_bank.Db
use crypt_bank.Db.Laws.{value_at}
use crypt_bank.Records.RoundTrip.{deserialize_coin_record-nil}
use crypt_bank.Env.{Env}
use crypt_bank.Coins
use crypt_bank.Coins.Records.{HasRecords, empty_record, utxo_of-at}
use crypt_bank.Coins.View.{count, entries, copies}
use crypt_bank.Coins.Validate.{CoinSet}
use crypt_bank.Coins.Represents.{Represents}

abbrev pub no_coins : CoinSet
no_coins h i = false

module _ (env : Env) where
  no_records : HasRecords env Db.empty
  unfolding value_at find
  no_records = record {
    at = λ h. empty_record;
    decoded = λ h. deserialize_coin_record-nil env.proto;
    in_range = λ h. omega arith;
  }

  -- At first there are no coins.
  pub empty-Represents : Represents env Coins.empty no_coins
  unfolding copies count entries no_records
  empty-Represents = record {
    sound = record { records = no_records; cached = tt };
    copies = λ h i. rw (utxo_of-at env Db.empty no_records h) refl;
  }
