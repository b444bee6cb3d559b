-- ===== src/Tracker/Header.antt =====
-- `readHeadToken` and `parseHeader` of src/tracker/parser/tracker-parser.service.ts: the head token
-- and the fixed fields before and behind
-- the data zone.
pub mod Fields
use avt_tracker.Base.{
  take, index_of, none, some, ltb, ◌==◌, if◌then◌else◌, ℕ, ◌+◌, ◌-◌, List, Option,
}
use avt_tracker.Base.Exec.{Result, throw, Exec, ok, err, ◌>>=◌, ◌>>◌, modify, pure, lift}
use avt_tracker.Base.Int.{ℤ}
use avt_tracker.Base.Text.{hex_text, Text}
use avt_tracker.Tracker.Codec.{decode_imei}
use avt_tracker.Tracker.Codec.Dates.{decode_g_time}
use avt_tracker.Tracker.Cursor.{ascii, be_value, skip, read_uint8, read_uint16_be, read_bytes, Read}
use avt_tracker.Tracker.Decode.{warn, on_cursor, Scan}
use avt_tracker.Tracker.Errors.{no_head_token, frame_too_short, length_mismatch, Error}
use avt_tracker.Tracker.Kinds.{TrackerFrameKind}

-- HEADER_FIXED_BYTES and TRAILER_FIXED_BYTES
abbrev pub header_length_bytes : ℕ
header_length_bytes = 2

abbrev pub header_imei_bytes : ℕ
header_imei_bytes = 8

-- length, imei and deviceId
abbrev pub header_prefix_bytes : ℕ
header_prefix_bytes = 2 + 8 + 1

abbrev pub generated_time_bytes : ℕ
generated_time_bytes = 7

abbrev pub serial_number_bytes : ℕ
serial_number_bytes = 2

-- The token up to its colon, which must be among the first eight bytes.
unfoldable pub read_head_token : List ℕ → Result Error Text
read_head_token frame = elim (index_of b':' frame) [
  | none ↦ err (no_head_token (take 8 frame))
  | some colon_index ↦
      if ltb 7 colon_index
      then err (no_head_token (take 8 frame))
      else ok (ascii (take (colon_index + 1) frame))
]

pub record TrackerFrameHeader : Type 0 where
  pub kind : TrackerFrameKind
  pub head_token : Text
  pub declared_length : ℕ
  pub computed_data_zone_length : ℕ
  pub imei : Text
  pub device_id : ℕ
  pub generated_at : Option ℤ
  pub serial_number_hex : Text
  pub serial_number : ℕ

abbrev pub check_declared : ℕ → ℕ → Exec Error Scan (Unit {0})
check_declared declared expected =
    if declared == expected then pure tt else modify (warn (length_mismatch declared expected))

-- The check of the computed length, a number that may be negative: 11 bytes are read, 9 follow.
abbrev pub data_zone_length : TrackerFrameKind → ℕ → Exec Error Scan ℕ
data_zone_length kind size =
    if ltb size (header_prefix_bytes + (generated_time_bytes + serial_number_bytes))
    then throw (frame_too_short kind size)
    else pure (size - header_prefix_bytes - (generated_time_bytes + serial_number_bytes))

pub read_imei : Read Text
read_imei = do bytes ← read_bytes header_imei_bytes; lift (decode_imei bytes)

pub read_g_time : Read (Option ℤ)
read_g_time = do bytes ← read_bytes generated_time_bytes; lift (decode_g_time bytes)

unfoldable pub parse_header : Text → TrackerFrameKind → ℕ → Exec Error Scan TrackerFrameHeader
parse_header head_token kind size = do
  declared ← on_cursor read_uint16_be
  imei ← on_cursor read_imei
  device_id ← on_cursor read_uint8
  zone ← data_zone_length kind size
  check_declared declared (size - header_length_bytes)
  on_cursor (skip zone)
  generated_at ← on_cursor read_g_time
  serial ← on_cursor (read_bytes serial_number_bytes)
  pure (record {
    kind = kind;
    head_token = head_token;
    declared_length = declared;
    computed_data_zone_length = zone;
    imei = imei;
    device_id = device_id;
    generated_at = generated_at;
    serial_number_hex = hex_text serial;
    serial_number = be_value serial;
  })
