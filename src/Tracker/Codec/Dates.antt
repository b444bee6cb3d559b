-- ===== src/Tracker/Codec/Dates.antt =====
-- `decodeGTime`, and the `Date.UTC` that it calls: milliseconds from 1970-01-01 by the proleptic
-- Gregorian calendar. Months past the twelfth and days past the month's end carry on, as in
-- JavaScript; a year below 100 counts from 1900.
use avt_tracker.Base.{
  length, refl, none, Option, some, ◌||◌, ltb, ◌&&◌, get_or, if◌then◌else◌, ◌==◌, ◌≡◌, ℕ, ◌+◌, ◌-◌,
  ◌*◌, ◌/◌, ◌%◌, List, [], ◌∷◌, Bool, not,
}
use avt_tracker.Base.Exec.{err, ok, Result}
use avt_tracker.Base.Int.{pos, ℤ, sub_ℕ}
use avt_tracker.Tracker.Errors.{g_time_size, Error}

abbrev pub is_leap : ℕ → Bool
is_leap y = (y % 4 == 0 && not (y % 100 == 0)) || y % 400 == 0

-- Days from the first day of year 0 to the first day of year `y`.
abbrev pub days_before_year : ℕ → ℕ
days_before_year y = 365 * y + (y + 3) / 4 - (y + 99) / 100 + (y + 399) / 400

-- The month counts from 0.
abbrev pub days_before_month : ℕ → ℕ → ℕ
days_before_month y month =
    get_or (0 ∷ 31 ∷ 59 ∷ 90 ∷ 120 ∷ 151 ∷ 181 ∷ 212 ∷ 243 ∷ 273 ∷ 304 ∷ 334 ∷ []) month 0
    + (if is_leap y && ltb 1 month then 1 else 0)

abbrev pub full_year : ℕ → ℕ
full_year year = if ltb year 100 then 1900 + year else year

abbrev pub seconds_since_year_zero : ℕ → ℕ → ℕ → ℕ → ℕ → ℕ → ℕ
seconds_since_year_zero year month day hour minute second =
    let y = full_year year + month / 12 in
    (days_before_year y + days_before_month y (month % 12) + day - 1) * 86400
    + hour * 3600
    + minute * 60
    + second

unfoldable pub date_utc : ℕ → ℕ → ℕ → ℕ → ℕ → ℕ → ℤ
date_utc year month day hour minute second =
    sub_ℕ (seconds_since_year_zero year month day hour minute second * 1000) (719528 * 86400 * 1000)

-- `null` for a zero year, month or day.
unfoldable pub decode_g_time : List ℕ → Result Error (Option ℤ)
unfolding date_utc
decode_g_time (y1 ∷ y0 ∷ month ∷ day ∷ hour ∷ minute ∷ second ∷ []) =
    let year = y1 * 256 + y0 in
    if year == 0 || month == 0 || day == 0
    then ok none
    else ok (some (date_utc year (month - 1) day hour minute second))
decode_g_time bytes = err (g_time_size (length bytes))

-- 2026-07-07 12:34:56 UTC
known_time : decode_g_time (7 ∷ 0xea ∷ 7 ∷ 7 ∷ 12 ∷ 34 ∷ 56 ∷ []) ≡ ok (some (pos 1783427696000))
unfolding decode_g_time
known_time = refl

epoch : decode_g_time (7 ∷ 0xb2 ∷ 1 ∷ 1 ∷ 0 ∷ 0 ∷ 0 ∷ []) ≡ ok (some (pos 0))
unfolding decode_g_time
epoch = refl
