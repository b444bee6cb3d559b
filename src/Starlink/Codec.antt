-- ===== src/Starlink/Codec.antt =====
-- src/starlink/parser/utils/starlink-codec.util.ts: the values of single tags. JavaScript's doubles
-- are a parameter; `parseInt` is written out for the tags' values, with every digit kept, where a double
-- rounds from 2 ^ 53 on.
use avt_tracker.Base.{
  ◌≡◌, false, ◌≤◌, Bool, all_true, ltb, ◌||◌, drop, index_of, ◌&&◌, ◌==◌, if◌then◌else◌, leb,
  length, take, ℕ, ◌+◌, ◌-◌, [], ◌∷◌, Option, none, some,
}
use avt_tracker.Base.Exec.{ok, err, Result}
use avt_tracker.Base.Int.{pos, sub_ℕ, ℤ}
use avt_tracker.Base.Text.{is_digit, leading_value, Text}
use avt_tracker.Tracker.Codec.Dates.{date_utc}

-- What the code throws, with the value that the message names.
pub data TagError : Type 0 where
  not_an_integer : Text → TagError
  not_a_number : Text → TagError
  no_decimal_point : Text → TagError
  too_short_for_degrees : Text → TagError
  coordinate_not_numeric : Text → TagError

-- A double that stands for digits: whole, and `Infinity` where they are too many.
pub data Whole : Type 0 where
  finite : ℕ → Whole
  infinity : Whole

abbrev pub is_whole : Whole → ℕ → Bool
is_whole (finite n) m = n == m
is_whole infinity m = false

-- `Number.MAX_SAFE_INTEGER`, which is 2 ^ 53 - 1.
abbrev pub max_safe_integer : ℕ
max_safe_integer = 0x1F_FFFF_FFFF_FFFF

-- What the code uses of JavaScript's doubles: `parseFloat`, with `none` for NaN, the sum of degrees
-- and a sixtieth of the minutes, the sign, `Math.round(x * 1000)`, and the double that `parseInt`
-- gives for digits of a value, which is the value itself up to `Number.MAX_SAFE_INTEGER`.
pub record Floats : Type 1 where
  pub Num : Type 0
  pub parse_float : Text → Option Num
  pub degrees_plus_minutes : (degrees minutes : Num) → Num
  pub negate : Num → Num
  pub round_thousand : Num → Num
  pub whole : ℕ → Whole
  pub whole_safe : (n : ℕ) → n ≤ max_safe_integer → whole n ≡ finite n

-- The white space and line terminators of ECMAScript.
unfoldable pub is_space : ℕ → Bool
is_space c =
    (leb 9 c && leb c 13)
    || c == 32
    || c == 0xa0
    || c == 0x1680
    || (leb 0x2000 c && leb c 0x200a)
    || c == 0x2028
    || c == 0x2029
    || c == 0x202f
    || c == 0x205f
    || c == 0x3000
    || c == 0xfeff

unfoldable pub skip_space : Text → Text
skip_space [] = []
skip_space (c ∷ cs) = if is_space c then skip_space cs else c ∷ cs

unfoldable pub parse_digits : Text → Option ℕ
parse_digits [] = none
parse_digits (c ∷ cs) = if is_digit c then some (leading_value 0 (c ∷ cs)) else none

abbrev pub signed_by : (ℕ → ℤ) → Option ℕ → Option ℤ
signed_by sign none = none
signed_by sign (some n) = some (sign n)

unfoldable pub parse_signed : Text → Option ℤ
parse_signed [] = none
parse_signed (c ∷ cs) =
    if c == b'-'
    then signed_by (λ n. sub_ℕ 0 n) (parse_digits cs)
    else if c == b'+'
    then signed_by pos (parse_digits cs)
    else signed_by pos (parse_digits (c ∷ cs))

-- `parseInt(value, 10)`, with `none` for NaN.
unfoldable pub parse_int : Text → Option ℤ
parse_int value = parse_signed (skip_space value)

unfoldable pub parse_strict_int : Text → Result TagError ℤ
parse_strict_int value = elim (parse_int value) [
  | none ↦ err (not_an_integer value)
  | some result ↦ ok result
]

-- `/^\d{12}$/.test(value)`
unfoldable pub is_twelve_digits : Text → Bool
is_twelve_digits value = length value == 12 && all_true is_digit value

-- `parseInt(value.slice(from, from + 2), 10)`, for a text of digits.
unfoldable pub two_digits_at : Text → ℕ → ℕ
two_digits_at value from = leading_value 0 (take 2 (drop from value))

-- `Date.UTC(year, month - 1, …)`: month 0 is the December before.
unfoldable pub date_utc_of_month : ℕ → ℕ → ℕ → ℕ → ℕ → ℕ → ℤ
date_utc_of_month year month day hour minute second =
    if month == 0
    then date_utc (year - 1) 11 day hour minute second
    else date_utc year (month - 1) day hour minute second

unfoldable pub parse_starlink_date_time : Text → Option ℤ
parse_starlink_date_time value =
    if is_twelve_digits value
    then some (
        date_utc_of_month (2000 + two_digits_at value 0) (two_digits_at value 2)
          (two_digits_at value 4) (two_digits_at value 6) (two_digits_at value 8)
          (two_digits_at value 10))
    else none

module _ (js : Floats) where
  open js use {Num, parse_float, degrees_plus_minutes, negate}

  unfoldable pub parse_strict_float : Text → Result TagError Num
  parse_strict_float value = elim (parse_float value) [
    | none ↦ err (not_a_number value)
    | some result ↦ ok result
  ]

  -- `value.charAt(0) === '+' ? result : -result`
  pub with_sign : Text → Num → Num
  with_sign [] result = negate result
  with_sign (c ∷ cs) result = if c == b'+' then result else negate result

  pub coordinate_parts : Text → Option Num → Option Num → Result TagError Num
  coordinate_parts value none minutes = err (coordinate_not_numeric value)
  coordinate_parts value (some degrees) none = err (coordinate_not_numeric value)
  coordinate_parts value (some degrees) (some minutes) =
      ok (with_sign value (degrees_plus_minutes degrees minutes))

  -- `minutesIndex` is two less than the index of the point.
  unfoldable pub parse_starlink_coordinate : Text → Result TagError Num
  parse_starlink_coordinate value = elim (index_of b'.' value) [
    | none ↦ err (no_decimal_point value)
    | some dot_index ↦
        if ltb dot_index 3
        then err (too_short_for_degrees value)
        else coordinate_parts value (parse_float (take (dot_index - 2 - 1) (drop 1 value)))
            (parse_float (drop (dot_index - 2) value))
  ]
