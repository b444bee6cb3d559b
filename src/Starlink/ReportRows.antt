-- ===== src/Starlink/ReportRows.antt =====
-- The rows of `starlink_report` (src/starlink/entities/starlink-report.entity.ts), as `saveReport` of
-- src/starlink/persistence/starlink-persistence.service.ts makes them.
use avt_tracker.Base.{List, [], ◌∷◌, Option, none, some, Bool}
use avt_tracker.Base.Int.{ℤ}
use avt_tracker.Base.Text.{Text}
use avt_tracker.Starlink.Codec.{Whole, Floats}
use avt_tracker.Starlink.Payload.{ParsedStarlinkFrame, StarlinkReportPayload, StarlinkWarning}

-- `list.length ? list : null`
abbrev pub unless_empty : {A : Type 0} → List A → Option (List A)
unless_empty [] = none
unless_empty (x ∷ xs) = some (x ∷ xs)

-- `time ?? null`
abbrev pub time_or_null : Option (Option ℤ) → Option ℤ
time_or_null none = none
time_or_null (some time) = time

module _ (js : Floats) where
  open js use {Num, parse_float}

  -- The columns of `starlink_report`.
  pub record StarlinkReport : Type 0 where
    pub device_id : Text
    pub message_type : Whole
    pub message_index : Whole
    pub event_id : Option ℤ
    pub event_name : Option Text
    pub alarm : Option Text
    pub device_time : Option ℤ
    pub fix_time : Option ℤ
    pub latitude : Option Num
    pub longitude : Option Num
    pub altitude_m : Option Num
    pub speed_knots : Option Num
    pub speed_kmh : Option Num
    pub course : Option ℤ
    pub odometer_m : Option Text
    pub lac : Option ℤ
    pub cid : Option ℤ
    pub main_power_voltage : Option Num
    pub battery_voltage : Option Num
    pub ignition : Option Bool
    pub satellites : Option Num
    pub pdop : Option Num
    pub digital_inputs : Option (List (Text × ℤ))
    pub digital_outputs : Option (List (Text × ℤ))
    pub destination : Option Text
    pub unsupported_tags : Option (List Text)
    pub parse_warnings : Option (List StarlinkWarning)
    pub payload : StarlinkReportPayload js
    pub raw_line : Text
    pub checksum_hex : Text

  -- `odometerM !== undefined ? String(odometerM) : null`
  abbrev pub number_text : (Num → Text) → Option Num → Option Text
  number_text text_of none = none
  number_text text_of (some number) = some (text_of number)

  -- The entity that `create` is given. `text_of` is `String` of a number.
  abbrev pub report_entity :
      (Num → Text) → ParsedStarlinkFrame js → StarlinkReportPayload js → StarlinkReport
  report_entity text_of parsed report =
      let header = parsed.header in
      record {
        device_id = header.device_id;
        message_type = header.message_type;
        message_index = header.message_index;
        event_id = report.event_id;
        event_name = report.event_name;
        alarm = report.alarm;
        device_time = time_or_null report.device_time;
        fix_time = time_or_null report.fix_time;
        latitude = report.latitude;
        longitude = report.longitude;
        altitude_m = report.altitude_m;
        speed_knots = report.speed_knots;
        speed_kmh = report.speed_kmh;
        course = report.course;
        odometer_m = number_text text_of report.odometer_m;
        lac = report.lac;
        cid = report.cid;
        main_power_voltage = report.main_power_voltage;
        battery_voltage = report.battery_voltage;
        ignition = report.ignition;
        satellites = report.satellites;
        pdop = report.pdop;
        digital_inputs = unless_empty report.digital_inputs;
        digital_outputs = unless_empty report.digital_outputs;
        destination = report.destination;
        unsupported_tags = unless_empty report.unsupported_tags;
        parse_warnings = unless_empty parsed.warnings;
        payload = report;
        raw_line = parsed.raw_line;
        checksum_hex = header.checksum_hex;
      }
