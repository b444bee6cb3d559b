-- ===== src/Tracker/Parser/RoundTrip.antt =====
-- `parseFrame` after `buildFrame` of src/tracker/parser/test-fixtures.ts, the mirror image of the
-- decoder that the repository keeps.
use avt_tracker.Base.{
  true, drop, take-append_self, append_assoc, drop-append_le, ap, ◌∙◌, take, false, ◌||◌, ◌==◌, All,
  ◌*◌, length, some, none, ◌%◌, index_of, ◌/◌, ℕ, ◌+◌, ◌-◌, ◌≡◌, ◌<◌, ◌≤◌, List, [], ◌∷◌, ◌++◌,
  refl, arith,
}
use avt_tracker.Base.Exec.{ok}
use avt_tracker.Base.Int.{ℤ}
use avt_tracker.Base.Text.{hex_text, Text}
use avt_tracker.Tracker.Ascii.{Doubles}
use avt_tracker.Tracker.Codec.Dates.{date_utc, decode_g_time}
use avt_tracker.Tracker.Codec.Imei.{
  length-encode_imei, decode_imei-encode_imei, IsDigit, encode_imei,
}
use avt_tracker.Tracker.Cursor.{Cursor, cursor_on}
use avt_tracker.Tracker.Cursor.Reads.{be_value-be_bytes, length-be_bytes, be_bytes}
use avt_tracker.Tracker.Errors.{Warning}
use avt_tracker.Tracker.Header.{parse_header, TrackerFrameHeader}
use avt_tracker.Tracker.Header.Fields.{
  zone_behind, parse_header-section, length-section, mismatch, section_of,
}
use avt_tracker.Tracker.Kinds.{resolve_kind}
use avt_tracker.Tracker.Parser.{
  has_trailing_hash, binary_section, parse_frame, finish, parse_with_token,
}
use avt_tracker.Tracker.Parser.Layout.{
  behind, trailing, binary_section-frame, read_head_token-head, token_of,
}
use avt_tracker.Tracker.Parser.Total.{parse_frame-token, decoded}

-- The parts of a `Date` in UTC.
pub record Instant : Type 0 where
  pub year : ℕ
  pub month : ℕ
  pub day : ℕ
  pub hour : ℕ
  pub minute : ℕ
  pub second : ℕ

-- `encodeGTime`: a byte that is assigned keeps its value modulo 256; `writeUInt16BE` throws for a year
-- from 65536 on, which `IsInstant` rules out.
abbrev pub encode_g_time : Instant → List ℕ
encode_g_time t =
    (t.year / 256)
    ∷ (t.year % 256)
    ∷ (t.month % 256)
    ∷ (t.day % 256)
    ∷ (t.hour % 256)
    ∷ (t.minute % 256)
    ∷ (t.second % 256)
    ∷ []

-- What a `Date` gives, for the years that fit two bytes and that `Date.UTC` reads as they are: it
-- takes 0 to 99 for 1900 to 1999.
pub record IsInstant (t : Instant) : Type 0 where
  pub year_large : 99 < t.year
  pub year_fits : t.year < 65536
  pub month_pos : 0 < t.month
  pub month_fits : t.month ≤ 12
  pub day_pos : 0 < t.day
  pub day_fits : t.day ≤ 31
  pub hour_fits : t.hour < 24
  pub minute_fits : t.minute < 60
  pub second_fits : t.second < 60

-- `head` is the token without its colon; `declared` is the Length that is written.
pub record FrameOptions : Type 0 where
  pub head : List ℕ
  pub imei : Text
  pub device_id : ℕ
  pub data_zone : List ℕ
  pub generated_at : Instant
  pub serial_number : ℕ
  pub declared : ℕ

abbrev pub built_section : FrameOptions → List ℕ
built_section o =
    section_of (be_bytes 2 o.declared) (encode_imei o.imei) (o.device_id % 256) o.data_zone
      (encode_g_time o.generated_at) (be_bytes 2 o.serial_number)

-- `buildFrame`: the device id is written modulo 256. It throws where `IsBuildable` fails for the size
-- of the IMEI, for the year, for the serial number or for the Length.
abbrev pub build_frame : FrameOptions → List ℕ
build_frame o = o.head ++ (b':' ∷ (built_section o ++ (0x23 ∷ [])))

-- What the fixture's callers may pass.
pub record IsBuildable (o : FrameOptions) : Type 0 where
  pub plain : index_of b':' o.head ≡ none
  pub short : length o.head < 8
  pub imei_size : length o.imei ≡ 15
  pub imei_digits : All IsDigit o.imei
  pub device_fits : o.device_id < 256
  pub instant : IsInstant o.generated_at
  pub serial_fits : o.serial_number < 65536
  pub declared_fits : o.declared < 65536

abbrev pub instant_of : Instant → ℤ
instant_of t = date_utc t.year (t.month - 1) t.day t.hour t.minute t.second

decode_g_time-encode_g_time :
    (t : Instant) → IsInstant t → decode_g_time (encode_g_time t) ≡ ok (some (instant_of t))
unfolding decode_g_time
decode_g_time-encode_g_time t h =
    let large = h.year_large in
    let month_pos = h.month_pos in
    let day_pos = h.day_pos in
    let whole : t.year / 256 * 256 + t.year % 256 ≡ t.year = omega arith in
    let month : t.month % 256 ≡ t.month = omega (arith, h.month_fits) in
    let day : t.day % 256 ≡ t.day = omega (arith, h.day_fits) in
    let hour : t.hour % 256 ≡ t.hour = omega (arith, h.hour_fits) in
    let minute : t.minute % 256 ≡ t.minute = omega (arith, h.minute_fits) in
    let second : t.second % 256 ≡ t.second = omega (arith, h.second_fits) in
    let test : (t.year == 0 || t.month == 0 || t.day == 0) ≡ false = ground arith in
    rw (whole, month, day, hour, minute, second, test)

-- The header that comes back.
abbrev pub header_of_options : FrameOptions → TrackerFrameHeader
header_of_options o = record {
  kind = resolve_kind (token_of o.head);
  head_token = token_of o.head;
  declared_length = o.declared;
  computed_data_zone_length = length o.data_zone;
  imei = o.imei;
  device_id = o.device_id;
  generated_at = some (instant_of o.generated_at);
  serial_number_hex = hex_text (be_bytes 2 o.serial_number);
  serial_number = o.serial_number;
}

parse_header-build :
    (o : FrameOptions) (ws : List Warning)
    → IsBuildable o
    → parse_header
        (token_of o.head)
        (resolve_kind (token_of o.head))
        (length (built_section o))
        (record { cursor = cursor_on (built_section o); warnings = ws })
      ≡ (
        ok (header_of_options o),
        record {
          cursor = record { buf = built_section o; offset = length (built_section o) };
          warnings = ws ++ mismatch o.declared (length o.data_zone + 18);
        },
      )
parse_header-build o ws b =
    let time_ok = decode_g_time-encode_g_time o.generated_at b.instant in
    let imei_ok = decode_imei-encode_imei o.imei b.imei_size b.imei_digits in
    let sizes =
      length-section (be_bytes 2 o.declared) (encode_imei o.imei) (o.device_id % 256) o.data_zone
        (encode_g_time o.generated_at) (be_bytes 2 o.serial_number) (length-be_bytes 2 o.declared)
        (length-encode_imei 7 o.imei b.imei_size) refl (length-be_bytes 2 o.serial_number) in
    let device : o.device_id % 256 ≡ o.device_id = omega (arith, b.device_fits) in
    let expected : length (built_section o) - 2 ≡ length o.data_zone + 18 = omega (arith, sizes) in
    parse_header-section (be_bytes 2 o.declared) (encode_imei o.imei) (o.device_id % 256)
      o.data_zone (encode_g_time o.generated_at) (be_bytes 2 o.serial_number)
      (length-be_bytes 2 o.declared) (length-encode_imei 7 o.imei b.imei_size) refl
      (length-be_bytes 2 o.serial_number) (token_of o.head) (resolve_kind (token_of o.head)) ws
      o.imei (some (instant_of o.generated_at)) imei_ok time_ok
    ∙ rw (
      be_value-be_bytes 2 o.declared b.declared_fits,
      be_value-be_bytes 2 o.serial_number b.serial_fits,
      expected,
      device,
    )

sizes_of : (o : FrameOptions) → IsBuildable o → length (built_section o) ≡ length o.data_zone + 20
sizes_of o b =
    length-section (be_bytes 2 o.declared) (encode_imei o.imei) (o.device_id % 256) o.data_zone
      (encode_g_time o.generated_at) (be_bytes 2 o.serial_number) (length-be_bytes 2 o.declared)
      (length-encode_imei 7 o.imei b.imei_size) refl (length-be_bytes 2 o.serial_number)

zone_in_section :
    (o : FrameOptions) (rest : List ℕ)
    → IsBuildable o
    → take (length o.data_zone) (drop 11 (built_section o ++ rest)) ≡ o.data_zone
zone_in_section o rest b =
    let within : 11 ≤ length (built_section o) = omega (arith, sizes_of o b) in
    let behind_zone = encode_g_time o.generated_at ++ be_bytes 2 o.serial_number in
    let zone_first : drop 11 (built_section o) ≡ o.data_zone ++ behind_zone =
      zone_behind (be_bytes 2 o.declared) (encode_imei o.imei) (o.device_id % 256) o.data_zone
        (encode_g_time o.generated_at) (be_bytes 2 o.serial_number) (length-be_bytes 2 o.declared)
        (length-encode_imei 7 o.imei b.imei_size) refl (length-be_bytes 2 o.serial_number) in
    ap (take (length o.data_zone)) (
      drop-append_le 11 (built_section o) rest within
      ∙ ap (λ (xs : List ℕ). xs ++ rest) zone_first
      ∙ append_assoc o.data_zone behind_zone rest)
    ∙ take-append_self o.data_zone (behind_zone ++ rest)

module _ (js : Doubles) where
  with_known_header :
      (frame : List ℕ) (token : Text) (section zone : List ℕ) (header : TrackerFrameHeader)
      (c : Cursor) (ws : List Warning)
      → binary_section frame token ≡ section
      → has_trailing_hash frame ≡ true
      → parse_header token
          (resolve_kind token)
          (length section)
          (record { cursor = cursor_on section; warnings = [] })
        ≡ (ok header, record { cursor = c; warnings = ws })
      → take header.computed_data_zone_length (drop (length token + 11) frame) ≡ zone
      → parse_with_token js frame (ok token) ≡ ok (decoded js frame token header zone ws)
  unfolding parse_with_token finish
  with_known_header frame token section zone header c ws cut hash parsed zone_at =
      rw (cut, hash, parsed, zone_at)

  -- A frame that is built from a token of less than 8 characters without a colon, a 15-digit IMEI, a
  -- device id below 256, the parts of a date of the years 100 to 65535, and a serial number and a
  -- Length below 65536 is parsed into the fields and the data zone it was built from; the one
  -- warning of its own is a declared length that is not the length of what follows it.
  pub parse_frame-build_frame :
      (o : FrameOptions)
      → IsBuildable o
      → parse_frame js (build_frame o)
        ≡ ok (
            decoded js
              (build_frame o)
              (token_of o.head)
              (header_of_options o)
              o.data_zone
              (mismatch o.declared (length o.data_zone + 18)))
  parse_frame-build_frame o b =
      let section = built_section o in
      parse_frame-token js (build_frame o) (token_of o.head)
        (read_head_token-head o.head b.plain b.short (section ++ (0x23 ∷ [])))
      ∙ with_known_header (build_frame o) (token_of o.head) section o.data_zone
          (header_of_options o) (record { buf = section; offset = length section })
          (mismatch o.declared (length o.data_zone + 18))
          (binary_section-frame o.head b.plain b.short section)
          (trailing o.head b.plain b.short section) (parse_header-build o [] b)
          (ap (take (length o.data_zone)) (behind o.head b.plain b.short section 11)
            ∙ zone_in_section o (0x23 ∷ []) b)
