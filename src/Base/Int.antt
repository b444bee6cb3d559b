-- ===== src/Base/Int.antt =====
-- Signed integers over the native numbers, under the library's names.
use avt_tracker.Base.Tests.{ltb, ◌==◌, leb, if◌then◌else◌}
use Prim.Native.Nat.{ℕ, ◌-◌}
use mathlib.Core.Bool.{Bool, false}

-- `negsuc n` is -(n + 1).
pub data ℤ : Type 0 where
  pos : ℕ → ℤ
  negsuc : ℕ → ℤ

-- a - b, as an integer.
abbrev pub sub_ℕ : ℕ → ℕ → ℤ
sub_ℕ a b = if leb b a then pos (a - b) else negsuc (b - a - 1)

-- A value that the program scales by a decimal constant: `units` of 1/`per`. No rounding of
-- double precision is modelled.
pub record Scaled : Type 0 where
  pub units : ℤ
  pub per : ℕ

-- Whether an integer is a natural number `k`.
abbrev pub is_nat : ℤ → ℕ → Bool
is_nat (pos n) k = n == k
is_nat (negsuc n) k = false

abbrev pub is_positive : ℤ → Bool
is_positive (pos n) = ltb 0 n
is_positive (negsuc n) = false
