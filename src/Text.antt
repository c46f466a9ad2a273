-- ===== src/Text.antt =====
-- What the sources use of the C++ text library: `std::to_string`, `std::string::find` and `substr`
-- around a separator, and `std::stoul` with base 0. A string is its list of bytes.
pub mod Decimal
pub mod Numeral
use crypt_bank.Prelude.{
  ℕ, zero, suc, ◌+◌, ◌-◌, ◌*◌, ◌/◌, ◌%◌, ◌^◌, Bool, false, ◌&&◌, ◌||◌, Option, none, some, [], ◌∷◌,
  ◌++◌, ltb, leb, nat_beq, if◌then◌else◌, Bytes,
}

-- The decimal digits of `n`, with fuel for one digit more than are needed.
unfoldable pub digits : ℕ → ℕ → Bytes
digits zero n = []
digits (suc fuel) n =
    let front = digits fuel (n / 10) in
    if ltb n 10 then (48 + n) ∷ [] else front ++ ((48 + n % 10) ∷ [])

-- `std::to_string`
unfoldable pub to_string : ℕ → Bytes
unfolding digits
to_string n = digits (suc n) n

-- `s.substr(0, s.find(c))`: all of `s` where `c` is not in it.
unfoldable pub before : ℕ → Bytes → Bytes
before c [] = []
before c (x ∷ xs) = let rest = before c xs in if nat_beq x c then [] else x ∷ rest

-- The text behind the first `c`, if there is one.
unfoldable pub behind? : ℕ → Bytes → Option Bytes
behind? c [] = none
behind? c (x ∷ xs) = if nat_beq x c then some xs else behind? c xs

-- `s.substr(s.find(c) + 1, s.size())`: `npos + 1` is 0, so that is `s` where `c` is not in it.
unfoldable pub behind : ℕ → Bytes → Bytes
unfolding behind?
behind c s = elim (behind? c s) [ none ↦ s | some rest ↦ rest ]

abbrev is_space : ℕ → Bool
is_space c = nat_beq c 32 || (leb 9 c && leb c 13)

-- The value of a digit in any base up to 16; 99 for other bytes.
unfoldable pub digit_value : ℕ → ℕ
digit_value c =
    if leb b'0' c && leb c b'9'
    then c - b'0'
    else if leb b'a' c && leb c b'f'
    then c - 87
    else if leb b'A' c && leb c b'F'
    then c - 55
    else 99

-- Reads digits up to the first byte that is none.
unfoldable pub accumulate : ℕ → ℕ → Bytes → ℕ
accumulate base n [] = n
accumulate base n (c ∷ cs) =
    let rest = accumulate base (n * base + digit_value c) cs in
    if ltb (digit_value c) base then rest else n

-- A number with one digit at least; `none` is `std::invalid_argument`, and above 2 ^ 64 - 1
-- `std::out_of_range`.
unfoldable pub read_digits : ℕ → Bytes → Option ℕ
unfolding accumulate digit_value
read_digits base [] = none
read_digits base (c ∷ cs) =
    let n = accumulate base 0 (c ∷ cs) in
    if ltb (digit_value c) base then (if ltb n (2 ^ 64) then some n else none) else none

starts_hex : Bytes → Bool
unfolding digit_value
starts_hex [] = false
starts_hex (d ∷ ds) = ltb (digit_value d) 16

-- Base 0: `0x` is hexadecimal if a digit follows, another leading `0` octal, all else decimal.
unfoldable pub read_based : Bytes → Option ℕ
unfolding read_digits starts_hex
read_based [] = none
read_based (c ∷ []) = read_digits 10 (c ∷ [])
read_based (c ∷ x ∷ cs) =
    if nat_beq c b'0'
    then (if nat_beq x b'x' || nat_beq x b'X'
        then elim (read_digits 16 cs) [
          | none ↦ (if starts_hex cs then none else some 0)
          | some n ↦ some n
        ]
        else read_digits 8 (c ∷ x ∷ cs))
    else read_digits 10 (c ∷ x ∷ cs)

negate : Option ℕ → Option ℕ
negate none = none
negate (some n) = some ((2 ^ 64 - n) % 2 ^ 64)

-- `std::stoul(s, nullptr, 0)`
unfoldable pub stoul : Bytes → Option ℕ
unfolding read_based negate
stoul [] = none
stoul (c ∷ cs) =
    let rest = stoul cs in
    if is_space c
    then rest
    else if nat_beq c b'+'
    then read_based cs
    else if nat_beq c b'-'
    then negate (read_based cs)
    else read_based (c ∷ cs)
