-- ===== src/Text/Decimal.antt =====
-- What `std::to_string` prints: decimal digits with no leading zero.
use crypt_bank.Prelude.{
  ℕ, zero, suc, ◌+◌, ◌*◌, ◌/◌, ◌%◌, ◌≤◌, ◌<◌, ◌≡◌, sym, ap, ◌∙◌, inl, inr, [], ◌∷◌, ◌++◌, arith,
  ltb, Bool-cases, All, All-append, Bytes,
}
use crypt_bank.Text.{digits, to_string, digit_value, accumulate}

abbrev pub IsDigit : ℕ → Type 0
IsDigit c = (48 ≤ c) × (c ≤ 57)

-- No leading zero, but for the text "0" of the number 0.
abbrev pub IsDecimal : ℕ → Bytes → Type 0
IsDecimal n [] = suc n ≤ 0
IsDecimal n (c ∷ cs) = IsDigit c × All IsDigit cs × (0 < n → 49 ≤ c)

IsDecimal-snoc :
    (n d : ℕ) (s : Bytes) → 0 < n → IsDigit d → IsDecimal n s → IsDecimal (n * 10) (s ++ (d ∷ []))
IsDecimal-snoc n d [] pos hd h = absurd (omega arith)
IsDecimal-snoc n d (c ∷ cs) pos hd (hc, hcs, lead) =
    (hc, All-append IsDigit cs (d ∷ []) hcs (hd, tt), λ _. lead pos)

IsDecimal-pos : (n m : ℕ) (s : Bytes) → 0 < n → IsDecimal n s → IsDecimal m s
IsDecimal-pos n m [] pos h = absurd (omega arith)
IsDecimal-pos n m (c ∷ cs) pos (hc, hcs, lead) = (hc, hcs, λ _. lead pos)

digits-IsDecimal : (fuel n : ℕ) → n < fuel → IsDecimal n (digits fuel n)
unfolding digits
digits-IsDecimal zero n h = elim h [ ]
digits-IsDecimal (suc fuel) n h = elim (Bool-cases (ltb n 10)) [
  | inl small ↦ rw small (ground arith, tt, λ p. omega arith)
  | inr large ↦ rw large (
      IsDecimal-pos (n / 10 * 10) n (digits fuel (n / 10) ++ ((48 + n % 10) ∷ [])) (ground arith) (
        IsDecimal-snoc (n / 10) (48 + n % 10) (digits fuel (n / 10)) (ground arith) (omega arith)
          (digits-IsDecimal fuel (n / 10) (ground arith))))
]

pub to_string-IsDecimal : (n : ℕ) → IsDecimal n (to_string n)
unfolding to_string
to_string-IsDecimal n = digits-IsDecimal (suc n) n (omega arith)

pub IsDecimal→digits : (n : ℕ) (s : Bytes) → IsDecimal n s → All IsDigit s
IsDecimal→digits n [] h = tt
IsDecimal→digits n (c ∷ cs) (hc, hcs, lead) = (hc, hcs)

pub digit_value_decimal : (c : ℕ) → IsDigit c → digit_value c + 48 ≡ c
unfolding digit_value
digit_value_decimal c h = ground arith

-- Reading goes on through digits and stops at any other byte.
pub accumulate-digits :
    (n d : ℕ) (s : Bytes)
    → All IsDigit s
    → IsDigit d
    → accumulate 10 n (s ++ (d ∷ [])) + 48 ≡ accumulate 10 n s * 10 + d
unfolding accumulate
accumulate-digits n d [] h hd = ground (arith, digit_value_decimal d)
accumulate-digits n d (c ∷ cs) (hc, hcs) hd =
    ground (arith, digit_value_decimal c, accumulate-digits (n * 10 + digit_value c) d cs)

accumulate-fuel : (fuel n : ℕ) → n < fuel → accumulate 10 0 (digits fuel n) ≡ n
unfolding digits
accumulate-fuel zero n h = elim h [ ]
accumulate-fuel (suc fuel) n h = elim (Bool-cases (ltb n 10)) [
  | inl small ↦ rw small (unfold accumulate in ground (arith, digit_value_decimal (48 + n)))
  | inr large ↦ rw large (
      omega (
        arith,
        accumulate-digits 0 (48 + n % 10) (digits fuel (n / 10))
            (IsDecimal→digits (n / 10) (digits fuel (n / 10))
              (digits-IsDecimal fuel (n / 10) (ground arith)))
            (omega arith),
        accumulate-fuel fuel (n / 10) (ground arith),
      ))
]

-- The digits that `to_string` prints have the value that was printed.
pub accumulate-to_string : (n : ℕ) → accumulate 10 0 (to_string n) ≡ n
unfolding to_string
accumulate-to_string n = accumulate-fuel (suc n) n (omega arith)

-- `to_string` is injective: two numbers with one text are one number.
pub to_string_injective : (n m : ℕ) → to_string n ≡ to_string m → n ≡ m
to_string_injective n m e =
    sym (accumulate-to_string n) ∙ ap (accumulate 10 0) e ∙ accumulate-to_string m
