-- ===== src/Text/Numeral.antt =====
-- `std::stoul` reads back what `std::to_string` prints, and a separator splits two numbers.
use crypt_bank.Prelude.{
  ℕ, zero, suc, ◌^◌, ◌<◌, ◌≡◌, refl, ◌∙◌, some, [], ◌∷◌, ◌++◌, arith, All, Bytes,
}
use crypt_bank.Text.{to_string, before, behind?, behind, accumulate, read_based, stoul}
use crypt_bank.Text.Decimal.{
  IsDigit, IsDecimal, IsDecimal→digits, to_string-IsDecimal, accumulate-to_string,
  digit_value_decimal,
}

read_based-IsDecimal :
    (n : ℕ) (s : Bytes)
    → IsDecimal n s
    → accumulate 10 0 s ≡ n
    → 0 < n
    → n < 2 ^ 64
    → read_based s ≡ some n
unfolding read_based
read_based-IsDecimal n [] h e pos fits = absurd (omega arith)
read_based-IsDecimal n (c ∷ []) (hc, hcs, lead) e pos fits = ground (arith, digit_value_decimal c)
read_based-IsDecimal n (c ∷ x ∷ cs) (hc, hcs, lead) e pos fits =
    ground (arith, lead pos, digit_value_decimal c)

stoul-IsDecimal : (n : ℕ) (s : Bytes) → IsDecimal n s → stoul s ≡ read_based s
unfolding stoul
stoul-IsDecimal n [] h = absurd (omega arith)
stoul-IsDecimal n (c ∷ cs) (hc, hcs, lead) = ground arith

-- `stoul` with base 0 reads every 64-bit number back from its decimal text.
pub stoul-to_string : (n : ℕ) → n < 2 ^ 64 → stoul (to_string n) ≡ some n
stoul-to_string zero fits = unfold stoul to_string in refl
stoul-to_string (suc n) fits =
    stoul-IsDecimal (suc n) (to_string (suc n)) (to_string-IsDecimal (suc n))
    ∙ read_based-IsDecimal (suc n) (to_string (suc n)) (to_string-IsDecimal (suc n))
        (accumulate-to_string (suc n)) (omega arith) fits

before-digits : (c : ℕ) (s t : Bytes) → c < 48 → All IsDigit s → before c (s ++ (c ∷ t)) ≡ s
unfolding before
before-digits c [] t h k = ground arith
before-digits c (x ∷ xs) t h (hx, hxs) = ground (arith, before-digits c xs t h hxs)

behind?-digits : (c : ℕ) (s t : Bytes) → c < 48 → All IsDigit s → behind? c (s ++ (c ∷ t)) ≡ some t
unfolding behind?
behind?-digits c [] t h k = ground arith
behind?-digits c (x ∷ xs) t h (hx, hxs) = ground (arith, behind?-digits c xs t h hxs)

behind-digits : (c : ℕ) (s t : Bytes) → c < 48 → All IsDigit s → behind c (s ++ (c ∷ t)) ≡ t
unfolding behind
behind-digits c s t h k = rw (behind?-digits c s t h k, behind)

-- The separator is no digit, so that the first one ends the printed number.
pub before-to_string :
    (c n : ℕ) (t : Bytes) → c < 48 → before c (to_string n ++ (c ∷ t)) ≡ to_string n
before-to_string c n t h =
    before-digits c (to_string n) t h (IsDecimal→digits n (to_string n) (to_string-IsDecimal n))

pub behind-to_string : (c n : ℕ) (t : Bytes) → c < 48 → behind c (to_string n ++ (c ∷ t)) ≡ t
behind-to_string c n t h =
    behind-digits c (to_string n) t h (IsDecimal→digits n (to_string n) (to_string-IsDecimal n))
