-- ===== src/Tracker/ReportRows.antt =====
-- What `saveReport` of src/tracker/persistence/tracker-persistence.service.ts takes of a report:
-- the patch of its device, and the row of `tracker_report`.
use avt_tracker.Base.{
  ℕ, List, [], ◌∷◌, ◌++◌, Option, none, some, true, if◌then◌else◌, length, ltb, ◌-◌, ◌/◌, ◌%◌, zero,
  suc, ◌+◌,
}
use avt_tracker.Base.Int.{ℤ, Scaled}
use avt_tracker.Base.Text.{Text, codes, hex_digit, decimal}
use avt_tracker.Tracker.Blocks.EventData.{EventDataBlock}
use avt_tracker.Tracker.Blocks.Gnss.{GnssFix, GnssBlock, Satellites}
use avt_tracker.Tracker.Errors.{Warning}
use avt_tracker.Tracker.Header.{TrackerFrameHeader}
use avt_tracker.Tracker.Kinds.{TrackerFrameKind}
use avt_tracker.Tracker.Report.{TrackerReportPayload, BatteryBlock, CellBlock}
use avt_tracker.Tracker.DeviceRows.{DevicePatch}

-- `header.generatedAt ?? now`
abbrev pub or_now : Option ℤ → ℤ → ℤ
or_now none now = now
or_now (some time) now = time

-- `object?.field`
abbrev pub field_of : {A B : Type 0} → (A → Option B) → Option A → Option B
field_of field none = none
field_of field (some a) = field a

abbrev pub or_zero : Option ℕ → ℕ
or_zero none = 0
or_zero (some n) = n

-- `report.gnss?.primary`
abbrev pub primary_fix : TrackerReportPayload → Option GnssFix
primary_fix report = field_of (λ (gnss : GnssBlock). gnss.primary) report.gnss

unfoldable pub satellite_count : Option Satellites → Option ℕ
satellite_count none = none
satellite_count (some s) =
    some (or_zero s.gps + or_zero s.beidou + or_zero s.galileo + or_zero s.glonass)

-- `devicePatch`
abbrev pub report_patch : ℤ → TrackerFrameHeader → TrackerReportPayload → DevicePatch
report_patch now header report =
    let fix = primary_fix report in
    record {
      imei = header.imei;
      tcp_connected = true;
      last_seen_at = some now;
      last_report_at = some (or_now header.generated_at now);
      last_frame_kind = some header.kind;
      last_event_type = some report.event_type;
      last_event_name = some report.event_name;
      last_latitude = field_of (λ (f : GnssFix). f.latitude) fix;
      last_longitude = field_of (λ (f : GnssFix). f.longitude) fix;
      last_altitude_m = field_of (λ (f : GnssFix). f.altitude_m) fix;
      last_speed_kmh = field_of (λ (f : GnssFix). f.speed_kmh) fix;
      last_battery_level_percent =
          field_of (λ (b : BatteryBlock). some b.level_percent) report.battery;
      last_battery_voltage_mv = field_of (λ (b : BatteryBlock). some b.voltage_mv) report.battery;
      last_network_type = report.network_type;
    }

hex_digits : ℕ → ℕ → Text
hex_digits zero n = []
hex_digits (suc fuel) n =
    let front = hex_digits fuel (n / 16) in
    if ltb n 16 then hex_digit n ∷ [] else front ++ (hex_digit (n % 16) ∷ [])

-- `zeros(n)` in front of a text, up to eight characters.
abbrev pub pad_start8 : Text → Text
pad_start8 text = zeros (8 - length text) ++ text
  where
    zeros : ℕ → Text
    zeros zero = []
    zeros (suc n) = b'0' ∷ zeros n

-- `formatHexMask`; one round for each digit, and there are at most `value` past the first.
unfoldable pub format_hex_mask : ℕ → Text
unfolding hex_digits
format_hex_mask value = codes "0x" ++ pad_start8 (hex_digits (suc value) value)

-- `list.length ? list : null`
abbrev pub unless_empty : {A : Type 0} → List A → Option (List A)
unless_empty [] = none
unless_empty (x ∷ xs) = some (x ∷ xs)

-- The columns of `tracker_report`.
pub record TrackerReport : Type 0 where
  pub imei : Text
  pub frame_kind : TrackerFrameKind
  pub protocol_version : Text
  pub event_type : ℕ
  pub event_name : Text
  pub event_state : ℕ
  pub latitude : Option Scaled
  pub longitude : Option Scaled
  pub altitude_m : Option ℤ
  pub speed_kmh : Option ℕ
  pub azimuth : Option ℕ
  pub satellite_count : Option ℕ
  pub battery_voltage_mv : Option ℕ
  pub battery_level_percent : Option ℕ
  pub main_power_voltage_mv : Option ℕ
  pub network_type : Option ℕ
  pub mcc : Option ℕ
  pub mnc : Option ℕ
  pub lac : Option ℕ
  pub cell_id : Option Text
  pub csq : Option ℕ
  pub data_mask_hex : Text
  pub event_data_mask_hex : Option Text
  pub unsupported_data_mask_bits : Option (List ℕ)
  pub parse_warnings : Option (List Warning)
  pub payload : TrackerReportPayload
  pub raw_hex : Text
  pub generated_at : Option ℤ

-- The entity that `create` is given.
abbrev pub report_entity :
    TrackerFrameHeader → TrackerReportPayload → List Warning → Text → TrackerReport
report_entity header report warnings raw_hex =
    let fix = primary_fix report in
    record {
      imei = header.imei;
      frame_kind = header.kind;
      protocol_version = report.protocol_version;
      event_type = report.event_type;
      event_name = report.event_name;
      event_state = report.event_state;
      latitude = field_of (λ (f : GnssFix). f.latitude) fix;
      longitude = field_of (λ (f : GnssFix). f.longitude) fix;
      altitude_m = field_of (λ (f : GnssFix). f.altitude_m) fix;
      speed_kmh = field_of (λ (f : GnssFix). f.speed_kmh) fix;
      azimuth = field_of (λ (f : GnssFix). f.azimuth) fix;
      satellite_count = satellite_count (field_of (λ (f : GnssFix). f.satellites) fix);
      battery_voltage_mv = field_of (λ (b : BatteryBlock). some b.voltage_mv) report.battery;
      battery_level_percent = field_of (λ (b : BatteryBlock). some b.level_percent) report.battery;
      main_power_voltage_mv =
          field_of (λ (e : EventDataBlock). e.main_power_voltage_mv) report.event_data;
      network_type = report.network_type;
      mcc = field_of (λ (c : CellBlock). some c.mcc) report.cell;
      mnc = field_of (λ (c : CellBlock). some c.mnc) report.cell;
      lac = field_of (λ (c : CellBlock). some c.lac) report.cell;
      cell_id = field_of (λ (c : CellBlock). some (decimal c.cell_id)) report.cell;
      csq = field_of (λ (c : CellBlock). some c.csq) report.cell;
      data_mask_hex = format_hex_mask report.data_mask;
      event_data_mask_hex =
          field_of (λ (e : EventDataBlock). some (format_hex_mask e.mask)) report.event_data;
      unsupported_data_mask_bits = unless_empty report.unsupported_data_mask_bits;
      parse_warnings = unless_empty warnings;
      payload = report;
      raw_hex = raw_hex;
      generated_at = header.generated_at;
    }
