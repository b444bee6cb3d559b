-- ===== src/Base/Text.antt =====
-- Texts as lists of character codes: number formatting, padding, splitting.
pub mod Decimal
use avt_tracker.Base.Tests.{leb, if◌then◌else◌, ltb, ◌==◌}
use Prim.Native.Char.{code}
use Prim.Native.Nat.{◌-◌, ◌*◌, ℕ, zero, suc, ◌+◌, ◌/◌, ◌%◌}
use Prim.Native.String.{String}
use mathlib.Core.Bool.{◌&&◌, Bool, true, false}
use mathlib.Core.List.{List, [], ◌∷◌, ◌++◌}

abbrev pub Text : Type 0
Text = List ℕ

-- The codes of a literal.
abbrev pub codes : String → Text
codes String.[] = []
codes (String.◌∷◌ c s) = code c ∷ codes s

decimal_digits : ℕ → ℕ → Text
decimal_digits zero n = []
decimal_digits (suc fuel) n =
    let front = decimal_digits fuel (n / 10) in
    if ltb n 10 then (48 + n) ∷ [] else front ++ ((48 + n % 10) ∷ [])

-- `n.toString(10)`; one round for each digit, and there are at most `n` digits past the first.
unfoldable pub decimal : ℕ → Text
unfolding decimal_digits
decimal n = decimal_digits (suc n) n

-- `s.padStart(2, '0')`
abbrev pub pad_start2 : Text → Text
pad_start2 [] = 48 ∷ 48 ∷ []
pad_start2 (c ∷ []) = 48 ∷ c ∷ []
pad_start2 (c ∷ d ∷ s) = c ∷ d ∷ s

-- One digit of `n.toString(16).toUpperCase()`.
abbrev pub hex_digit : ℕ → ℕ
hex_digit n = if ltb n 10 then 48 + n else 55 + n

-- `bytes.toString('hex').toUpperCase()`
abbrev pub hex_text : List ℕ → Text
hex_text [] = []
hex_text (b ∷ bs) = hex_digit (b / 16) ∷ hex_digit (b % 16) ∷ hex_text bs

-- `s.split(sep)`, for a separator of one character: always one part more than separators.
abbrev pub split_on : ℕ → Text → List Text
split_on sep [] = [] ∷ []
split_on sep (c ∷ s) = cut_part (c == sep) c (split_on sep s)
  where
    cut_part : Bool → ℕ → List Text → List Text
    cut_part true c parts = [] ∷ parts
    cut_part false c [] = (c ∷ []) ∷ []
    cut_part false c (p ∷ parts) = (c ∷ p) ∷ parts

unfoldable pub is_digit : ℕ → Bool
is_digit c = leb b'0' c && leb c b'9'

-- The number that the digits in front of a text stand for, behind `acc`.
unfoldable pub leading_value : ℕ → Text → ℕ
leading_value acc [] = acc
leading_value acc (c ∷ cs) = if is_digit c then leading_value (acc * 10 + (c - 48)) cs else acc
