-- ===== src/Prelude/Decimal.antt =====
-- `from_chars` reads back what `to_chars` writes.
use Prim.Native.Nat.{ℕ, zero, suc, ◌+◌, ◌/◌, ◌%◌, ◌<◌}
use mathlib.Core.Path.{◌≡◌, refl, ◌∙◌}
use mathlib.Core.Logic.{inl, inr}
use mathlib.Core.Bool.{Bool, true, ◌&&◌}
use mathlib.Core.List.{[], ◌∷◌, ◌++◌}
use native.Mathlib.Omega.{arith}
use socketley.Prelude.Tests.{ltb, Bool-cases}
use socketley.Prelude.Text.{Bytes}
use socketley.Prelude.Int.{pos}
use socketley.Prelude.Words.{
  decimal_of, decimal, read_digits, is_digit, starts_with_digit, from_chars, value,
}

decimal_of-append :
    (fuel n : ℕ) (rest text : Bytes)
    → decimal_of fuel n rest ++ text ≡ decimal_of fuel n (rest ++ text)
unfolding decimal_of
decimal_of-append zero n rest text = refl
decimal_of-append (suc fuel) n rest text =
    ground (arith, decimal_of-append fuel (n / 10) ((48 + n % 10) ∷ rest) text)

read_digits-decimal_of :
    (fuel n : ℕ) (rest : Bytes)
    → n < fuel
    → read_digits 0 (decimal_of fuel n rest) ≡ read_digits n rest
unfolding decimal_of read_digits
read_digits-decimal_of zero n rest h = absurd (omega arith)
read_digits-decimal_of (suc fuel) n rest h = elim (Bool-cases (ltb n 10)) [
  | inl small ↦ rw (small, decimal_of) (ground arith)
  | inr big ↦
      rw (big, decimal_of)
        (read_digits-decimal_of fuel (n / 10) ((48 + n % 10) ∷ rest) (ground arith) ∙ ground arith)
]

-- The bytes of a decimal text are digits, and there is one.
abbrev pub all_digits : Bytes → Bool
all_digits [] = true
all_digits (c ∷ text) = is_digit c && all_digits text

all_digits-decimal_of :
    (fuel n : ℕ) (rest : Bytes)
    → all_digits rest ≡ true
    → all_digits (decimal_of fuel n rest) ≡ true
unfolding decimal_of
all_digits-decimal_of zero n rest h = h
all_digits-decimal_of (suc fuel) n rest h = elim (Bool-cases (ltb n 10)) [
  | inl small ↦ rw (small, decimal_of) (ground arith)
  | inr big ↦
      rw (big, decimal_of)
        (all_digits-decimal_of fuel (n / 10) ((48 + n % 10) ∷ rest) (ground arith))
]

starts_with_digit-decimal_of :
    (fuel n : ℕ) (rest : Bytes) → n < fuel → starts_with_digit (decimal_of fuel n rest) ≡ true
unfolding decimal_of
starts_with_digit-decimal_of zero n rest h = absurd (omega arith)
starts_with_digit-decimal_of (suc fuel) n rest h = elim (Bool-cases (ltb n 10)) [
  | inl small ↦ rw (small, decimal_of) (ground arith)
  | inr big ↦
      rw (big, decimal_of)
        (starts_with_digit-decimal_of fuel (n / 10) ((48 + n % 10) ∷ rest) (ground arith))
]

pub all_digits-decimal : (n : ℕ) → all_digits (decimal n) ≡ true
unfolding decimal
all_digits-decimal n = all_digits-decimal_of (suc n) n [] refl

from_chars_of_digits :
    (half n : ℕ) (text : Bytes)
    → n < half
    → starts_with_digit text ≡ true
    → read_digits 0 text ≡ (n, [])
    → from_chars half text ≡ value (pos n) []
unfolding from_chars
from_chars_of_digits half n [] h first digits = ground arith
from_chars_of_digits half n (c ∷ text) h first digits = ground arith

-- A number in range is read back from its text.
pub from_chars-decimal : (half n : ℕ) → n < half → from_chars half (decimal n) ≡ value (pos n) []
unfolding decimal read_digits
from_chars-decimal half n h =
    from_chars_of_digits half n (decimal_of (suc n) n []) h
      (starts_with_digit-decimal_of (suc n) n [] (omega arith))
      (read_digits-decimal_of (suc n) n [] (omega arith))
