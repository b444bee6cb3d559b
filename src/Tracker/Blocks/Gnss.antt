-- ===== src/Tracker/Blocks/Gnss.antt =====
-- GNSS fixes (+RPT Data Mask bit 3): `parseGnssBlock` and `parseGnssFix`.
use avt_tracker.Base.{[], ◌∷◌, ℕ, ◌/◌, ◌%◌, List, Option, none, some}
use avt_tracker.Base.Exec.{lift, ◌>>=◌, pure}
use avt_tracker.Base.Int.{ℤ, Scaled}
use avt_tracker.Tracker.Codec.Dates.{decode_g_time}
use avt_tracker.Tracker.Cursor.{
  read_bytes, read_int16_be, read_int32_be, read_uint16_be, read_uint8, Read,
}
use avt_tracker.Tracker.Decode.{repeat, when_bit}

pub record Satellites : Type 0 where
  pub mask : ℕ
  pub gps : Option ℕ
  pub beidou : Option ℕ
  pub galileo : Option ℕ
  pub glonass : Option ℕ

pub record FixType : Type 0 where
  pub fix_type_raw : ℕ
  pub generated_type : ℕ
  pub fix_result : ℕ

pub record GnssFix : Type 0 where
  pub fix_type : Option FixType
  pub hdop : Option ℕ
  pub speed_kmh : Option ℕ
  pub azimuth : Option ℕ
  pub altitude_m : Option ℤ
  pub latitude : Option Scaled
  pub longitude : Option Scaled
  pub utc_time : Option ℤ
  pub satellites : Option Satellites

pub record GnssBlock : Type 0 where
  pub info_mask : ℕ
  pub count : ℕ
  pub fixes : List GnssFix
  pub primary : Option GnssFix

pub read_fix_type : Read FixType
read_fix_type = do
  raw ← read_uint8
  pure (record { fix_type_raw = raw; generated_type = raw / 16 % 16; fix_result = raw % 16 })

-- Degrees in millionths.
pub read_degrees : Read Scaled
read_degrees = do value ← read_int32_be; pure (record { units = value; per = 1000000 })

pub read_utc_time : Read (Option ℤ)
read_utc_time = do bytes ← read_bytes 7; lift (decode_g_time bytes)

pub read_satellites : Read Satellites
read_satellites = do
  mask ← read_uint8
  gps ← when_bit mask 0 read_uint8
  beidou ← when_bit mask 1 read_uint8
  galileo ← when_bit mask 2 read_uint8
  glonass ← when_bit mask 3 read_uint8
  pure (record { mask = mask; gps = gps; beidou = beidou; galileo = galileo; glonass = glonass })

-- `x ?? undefined`, where the field itself may be left out too.
abbrev flatten : Option (Option ℤ) → Option ℤ
flatten none = none
flatten (some o) = o

pub parse_gnss_fix : ℕ → Read GnssFix
parse_gnss_fix info_mask = do
  fix_type ← when_bit info_mask 0 read_fix_type
  hdop ← when_bit info_mask 1 read_uint8
  speed ← when_bit info_mask 2 read_uint16_be
  azimuth ← when_bit info_mask 3 read_uint16_be
  altitude ← when_bit info_mask 4 read_int16_be
  latitude ← when_bit info_mask 5 read_degrees
  longitude ← when_bit info_mask 6 read_degrees
  time ← when_bit info_mask 7 read_utc_time
  satellites ← when_bit info_mask 8 read_satellites
  pure (record {
    fix_type = fix_type;
    hdop = hdop;
    speed_kmh = speed;
    azimuth = azimuth;
    altitude_m = altitude;
    latitude = latitude;
    longitude = longitude;
    utc_time = flatten time;
    satellites = satellites;
  })

abbrev first : List GnssFix → Option GnssFix
first [] = none
first (fix ∷ fixes) = some fix

pub parse_gnss_block : Read GnssBlock
parse_gnss_block = do
  info_mask ← read_uint16_be
  count ← read_uint8
  fixes ← repeat count (parse_gnss_fix info_mask)
  pure (record { info_mask = info_mask; count = count; fixes = fixes; primary = first fixes })
