-- ===== src/Base/Text/Decimal.antt =====
-- Decimal numerals: their characters are digits, and reading them gives the number back.
use avt_tracker.Base.Lists.{length-append, length, all_true}
use avt_tracker.Base.Tests.{ltb, Bool-cases}
use avt_tracker.Base.Text.{is_digit, decimal_digits, Text, decimal, leading_value}
use Prim.Native.Nat.{ℕ, zero, suc, ◌+◌, ◌-◌, ◌*◌, ◌<◌, ◌/◌, ◌%◌}
use mathlib.Core.Bool.{Bool, true}
use mathlib.Core.List.{[], ◌∷◌, ◌++◌}
use mathlib.Core.Logic.{inl, inr}
use mathlib.Core.Path.{◌≡◌, ◌∙◌}
use native.Mathlib.Omega.{arith}

all_true-append :
    (test : ℕ → Bool) (xs ys : Text)
    → all_true test xs ≡ true
    → all_true test ys ≡ true
    → all_true test (xs ++ ys) ≡ true
all_true-append test [] ys hx hy = hy
all_true-append test (x ∷ xs) ys hx hy = ground (arith, all_true-append test xs ys)

digits-decimal_digits : (fuel n : ℕ) → n < fuel → all_true is_digit (decimal_digits fuel n) ≡ true
unfolding decimal_digits is_digit
digits-decimal_digits zero n h = elim h [ ]
digits-decimal_digits (suc fuel) n h = elim (Bool-cases (ltb n 10)) [
  | inl small ↦ rw small (ground arith)
  | inr large ↦ rw large (
      all_true-append is_digit (decimal_digits fuel (n / 10)) ((48 + n % 10) ∷ [])
        (digits-decimal_digits fuel (n / 10) (ground arith)) (ground arith))
]

leading_value-append :
    (acc : ℕ) (xs : Text) (d : ℕ)
    → all_true is_digit xs ≡ true
    → is_digit d ≡ true
    → leading_value acc (xs ++ (d ∷ [])) ≡ leading_value acc xs * 10 + (d - 48)
unfolding leading_value
leading_value-append acc [] d hx hd = rw hd
leading_value-append acc (x ∷ xs) d hx hd =
    let first : is_digit x ≡ true = ground arith in
    rw first (leading_value-append (acc * 10 + (x - 48)) xs d (ground arith) hd)

value-decimal_digits : (fuel n : ℕ) → n < fuel → leading_value 0 (decimal_digits fuel n) ≡ n
unfolding decimal_digits leading_value
value-decimal_digits zero n h = elim h [ ]
value-decimal_digits (suc fuel) n h = elim (Bool-cases (ltb n 10)) [
  | inl small ↦ rw small (unfold is_digit in ground arith)
  | inr large ↦
      let last : is_digit (48 + n % 10) ≡ true = unfold is_digit in ground arith in
      rw large (
        leading_value-append 0 (decimal_digits fuel (n / 10)) (48 + n % 10)
          (digits-decimal_digits fuel (n / 10) (ground arith)) last
        ∙ rw (value-decimal_digits fuel (n / 10) (ground arith)) (omega arith))
]

pub digits-decimal : (n : ℕ) → all_true is_digit (decimal n) ≡ true
unfolding decimal
digits-decimal n = digits-decimal_digits (suc n) n (omega arith)

pub leading_value-decimal : (n : ℕ) → leading_value 0 (decimal n) ≡ n
unfolding decimal
leading_value-decimal n = value-decimal_digits (suc n) n (omega arith)

length-decimal_digits_pos : (fuel n : ℕ) → n < fuel → 0 < length (decimal_digits fuel n)
unfolding decimal_digits
length-decimal_digits_pos zero n h = elim h [ ]
length-decimal_digits_pos (suc fuel) n h = elim (Bool-cases (ltb n 10)) [
  | inl small ↦ rw small (omega arith)
  | inr large ↦
      rw large (omega (arith, length-append (decimal_digits fuel (n / 10)) ((48 + n % 10) ∷ [])))
]

-- A numeral has a digit at least.
pub length-decimal_pos : (n : ℕ) → 0 < length (decimal n)
unfolding decimal
length-decimal_pos n = length-decimal_digits_pos (suc n) n (omega arith)
