-- ===== src/Tracker/Parser/Runs.antt =====
-- The parser's theorems at concrete frames, with a simple reading of numbers.
use avt_tracker.Base.{
  true, ◌*◌, ◌&&◌, false, leb, if◌then◌else◌, ltb, none, ◌-◌, Bool, some, Option, ℕ, ◌+◌, ◌≡◌, List,
  [], ◌∷◌, refl, arith,
}
use avt_tracker.Base.Text.{codes, Text}
use avt_tracker.Tracker.Ascii.{Doubles}
use avt_tracker.Tracker.Codec.Imei.{all_digits-All}
use avt_tracker.Tracker.Errors.{Error}
use avt_tracker.Tracker.Header.{read_head_token}
use avt_tracker.Tracker.Parser.{err, ok, ParsedTrackerFrame, parse_frame}
use avt_tracker.Tracker.Parser.RoundTrip.{
  parse_frame-build_frame, header_of_options, build_frame, FrameOptions, IsBuildable,
}
use avt_tracker.Tracker.Parser.Short.{parse_frame_short}
use avt_tracker.Tracker.Parser.Total.{decoded, parse_frame_total}

abbrev pub digits_value : ℕ → Text → Option ℕ
digits_value acc [] = some acc
digits_value acc (c ∷ cs) =
    if leb 48 c && leb c 57 then digits_value (acc * 10 + (c - 48)) cs else none

abbrev pub number_ℕ : Option Text → Option ℕ
number_ℕ none = none
number_ℕ (some t) = digits_value 0 t

abbrev pub finite_ℕ : Option ℕ → Bool
finite_ℕ none = false
finite_ℕ (some a) = true

abbrev pub span_ℕ : Option ℕ → Option ℕ → Option ℕ
span_ℕ (some a) (some b) = some (a - b + 1)
span_ℕ (some a) none = none
span_ℕ none b = none

abbrev pub less_ℕ : Option ℕ → Option ℕ → Bool
less_ℕ (some a) (some b) = ltb a b
less_ℕ (some a) none = false
less_ℕ none b = false

-- Decimal naturals; every other text is not finite.
abbrev pub naturals : Doubles
naturals = record {
  Num = Option ℕ;
  number = number_ℕ;
  is_finite = finite_ℕ;
  span = span_ℕ;
  less = less_ℕ;
  of_ℕ = λ n. some n;
  undefined_not_finite = refl;
}

abbrev pub heartbeat : FrameOptions
heartbeat = record {
  head = codes "+HBD";
  imei = codes "356938035643809";
  device_id = 0x20;
  data_zone = 0x0b ∷ 0x01 ∷ [];
  generated_at = record { year = 2026; month = 7; day = 7; hour = 12; minute = 34; second = 56 };
  serial_number = 1;
  declared = 20;
}

pub heartbeat-IsBuildable : IsBuildable heartbeat
heartbeat-IsBuildable = record {
  plain = refl;
  short = omega arith;
  imei_size = refl;
  imei_digits = all_digits-All (codes "356938035643809") refl;
  device_fits = omega arith;
  instant = record {
    year_large = omega arith;
    year_fits = omega arith;
    month_pos = omega arith;
    month_fits = omega arith;
    day_pos = omega arith;
    day_fits = omega arith;
    hour_fits = omega arith;
    minute_fits = omega arith;
    second_fits = omega arith;
  };
  serial_fits = omega arith;
  declared_fits = omega arith;
}

parse_frame-build_frame_example :
    parse_frame naturals (build_frame heartbeat)
    ≡ ok (
        decoded naturals
          (build_frame heartbeat)
          (codes "+HBD:")
          (header_of_options heartbeat)
          (0x0b ∷ 0x01 ∷ [])
          [])
parse_frame-build_frame_example = parse_frame-build_frame naturals heartbeat heartbeat-IsBuildable

-- Twenty bytes that are not a field layout of any sense, without a '#'.
abbrev odd_frame : List ℕ
odd_frame =
    0x3a ∷ 255 ∷ 255 ∷ 255 ∷ 255 ∷ 255 ∷ 255 ∷ 255 ∷ 255 ∷ 255 ∷ 255 ∷ 255 ∷ 255 ∷ 255 ∷ 255 ∷ 255
    ∷ 255 ∷ 255 ∷ 255 ∷ 255 ∷ 255 ∷ []

odd_token : read_head_token odd_frame ≡ ok (codes ":")
unfolding read_head_token
odd_token = refl

parse_frame_total_example :
    (p : ParsedTrackerFrame naturals) × (parse_frame naturals odd_frame ≡ ok p)
    × (p.header.computed_data_zone_length + 20 ≡ 20)
parse_frame_total_example = parse_frame_total naturals odd_frame (codes ":") odd_token (omega arith)

short_token : read_head_token (0x3a ∷ 0 ∷ 0x23 ∷ []) ≡ ok (codes ":")
unfolding read_head_token
short_token = refl

parse_frame_short_example : (e : Error) × (parse_frame naturals (0x3a ∷ 0 ∷ 0x23 ∷ []) ≡ err e)
parse_frame_short_example =
    parse_frame_short naturals (0x3a ∷ 0 ∷ 0x23 ∷ []) (codes ":") short_token (omega arith)
