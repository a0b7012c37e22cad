-- ===== src/Prelude/Words.antt =====
-- Conversions to machine integers, and the decimal text of the standard library's `to_chars` and
-- `from_chars`.
use Prim.Native.Nat.{ℕ, zero, suc, ◌+◌, ◌-◌, ◌*◌, ◌/◌, ◌%◌, ◌^◌}
use mathlib.Core.Bool.{Bool, true, false, ◌&&◌}
use mathlib.Core.List.{[], ◌∷◌}
use mathlib.Core.Option.{Option, none, some}
use socketley.Prelude.Tests.{ltb, leb, ◌==◌, if◌then◌else◌}
use socketley.Prelude.Int.{ℤ, pos, negsuc, sub_ℕ}
use socketley.Prelude.Text.{Bytes}

-- The signed integer of a `w`-bit pattern, `half` being 2 ^ (w - 1).
abbrev pub signed_of : ℕ → ℕ → ℤ
signed_of half n = if ltb n half then pos n else sub_ℕ n (2 * half)

-- `static_cast<int>` of a `size_t` or of a 64-bit signed integer.
unfoldable pub to_int : ℤ → ℤ
to_int (pos n) = signed_of (2 ^ 31) (n % 2 ^ 32)
to_int (negsuc n) = signed_of (2 ^ 31) (2 ^ 32 - 1 - n % 2 ^ 32)

-- Whether a value lies in the range of the signed type with this half range.
abbrev pub in_range : ℕ → ℤ → Bool
in_range half (pos n) = ltb n half
in_range half (negsuc n) = ltb n half

abbrev pub is_digit : ℕ → Bool
is_digit c = leb 48 c && leb c 57

-- The digits of a number, the most significant first. The fuel bounds the number of digits.
unfoldable pub decimal_of : ℕ → ℕ → Bytes → Bytes
decimal_of zero n rest = rest
decimal_of (suc fuel) n rest = elim (ltb n 10) [
  | true ↦ (48 + n) ∷ rest
  | false ↦ decimal_of fuel (n / 10) ((48 + n % 10) ∷ rest)
]

unfoldable pub decimal : ℕ → Bytes
decimal n = decimal_of (suc n) n []

-- `std::to_chars` and `std::to_string`.
unfoldable pub to_chars : ℤ → Bytes
to_chars (pos n) = decimal n
to_chars (negsuc n) = b'-' ∷ decimal (suc n)

-- The digits that a text begins with: their value after `n`, and what follows them.
unfoldable pub read_digits : ℕ → Bytes → ℕ × Bytes
read_digits n [] = (n, [])
read_digits n (c ∷ text) =
    let rest = read_digits (n * 10 + (c - 48)) text in if is_digit c then rest else (n, c ∷ text)

pub data FromChars : Type 0 where
  value : ℤ → Bytes → FromChars
  invalid_argument result_out_of_range : FromChars

abbrev pub starts_with_digit : Bytes → Bool
starts_with_digit [] = false
starts_with_digit (c ∷ text) = is_digit c

abbrev pub checked : ℕ → ℤ → Bytes → FromChars
checked half v rest = if in_range half v then value v rest else result_out_of_range

abbrev pub negated : ℕ → ℤ
negated n = sub_ℕ 0 n

-- `std::from_chars` into a signed type: a minus sign or none, then digits; no blank, no plus sign.
unfoldable pub from_chars : ℕ → Bytes → FromChars
from_chars half [] = invalid_argument
from_chars half (c ∷ text) =
    if c == b'-'
    then (if starts_with_digit text
        then (let (n, rest) = read_digits 0 text in checked half (negated n) rest)
        else invalid_argument)
    else if is_digit c
    then (let (n, rest) = read_digits 0 (c ∷ text) in checked half (pos n) rest)
    else invalid_argument

-- `std::from_chars` into an unsigned type of this many values; what follows the number is dropped.
unfoldable pub from_chars_unsigned : ℕ → Bytes → Option ℕ
from_chars_unsigned size text =
    if starts_with_digit text
    then (let n = (read_digits 0 text).0 in if ltb n size then some n else none)
    else none
