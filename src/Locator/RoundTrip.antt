-- ===== src/Locator/RoundTrip.antt =====
-- Locator texts are unambiguous.
use crypt_bank.Prelude.{ℕ, ◌≡◌, refl, sym, ap, ◌∙◌, some, arith}
use crypt_bank.Text.{to_string, before, behind}
use crypt_bank.Text.Decimal.{to_string_injective}
use crypt_bank.Text.Numeral.{stoul-to_string, before-to_string, behind-to_string}
use crypt_bank.Proto.{IsU8, IsU32}
use crypt_bank.Locator.{CoinLocator, serialize_from_construct, serialize, deserialize}

-- For every 32-bit hash and 8-bit index, the text of a locator is read back as that locator, and
-- both ways of printing it agree.
pub deserialize-serialize :
    (l : CoinLocator)
    → IsU32 l.transaction_hash
    → IsU8 l.output_index
    → (deserialize (serialize l) ≡ some l)
      × (serialize l ≡ serialize_from_construct l.transaction_hash l.output_index)
unfolding serialize deserialize serialize_from_construct
deserialize-serialize l hash index = (
  rw (before-to_string b'-' l.transaction_hash (to_string l.output_index) (omega arith)) (
      rw (behind-to_string b'-' l.transaction_hash (to_string l.output_index) (omega arith)) (
        rw (stoul-to_string l.transaction_hash (omega arith))
          (rw (stoul-to_string l.output_index (omega arith)) (ground arith)))),
  refl,
)

-- Different coins have different texts, whatever the numbers.
pub serialize_from_construct_injective :
    (h i h' i' : ℕ)
    → serialize_from_construct h i ≡ serialize_from_construct h' i'
    → (h ≡ h') × (i ≡ i')
unfolding serialize_from_construct
serialize_from_construct_injective h i h' i' e = (
  to_string_injective h h' (
      sym (before-to_string b'-' h (to_string i) (omega arith))
      ∙ ap (before b'-') e
      ∙ before-to_string b'-' h' (to_string i') (omega arith)),
  to_string_injective i i' (
      sym (behind-to_string b'-' h (to_string i) (omega arith))
      ∙ ap (behind b'-') e
      ∙ behind-to_string b'-' h' (to_string i') (omega arith)),
)
