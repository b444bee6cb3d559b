-- ===== src/Starlink/Payload.antt =====
-- What the StarLink parser gives back: src/starlink/parser/starlink-parser.types.ts, and what
-- src/starlink/parser/starlink-parser.service.ts warns of and throws.
use avt_tracker.Base.{map, ℕ, List, [], ◌∷◌, Bool, Option, none, String}
use avt_tracker.Base.Int.{ℤ}
use avt_tracker.Base.Text.{Text, codes}
use avt_tracker.Starlink.Codec.{Whole, Floats, TagError}

pub record StarlinkFrameHeader : Type 0 where
  pub head : Text
  pub device_id : Text
  pub message_type : Whole
  pub message_index : Whole
  pub checksum_hex : Text

pub data StarlinkWarning : Type 0 where
  tag_not_decoded : (tag value : Text) → TagError → StarlinkWarning
  extra_fields : (fields tags : ℕ) → StarlinkWarning
  unsupported_tags_left : List Text → StarlinkWarning
  type_not_decoded : Whole → StarlinkWarning

pub data StarlinkError : Type 0 where
  empty_line : StarlinkError
  no_frame_format : Text → StarlinkError

abbrev pub event_report_message_type : ℕ
event_report_message_type = 6

abbrev pub tag_names : List String
tag_names =
    ("#EDT#" ∷ "#EID#" ∷ "#PDT#" ∷ "#LAT#" ∷ "#LONG#" ∷ "#SPD#" ∷ "#HEAD#" ∷ "#ODO#" ∷ "#IN1#"
      ∷ "#IN2#" ∷ "#IN3#" ∷ "#IN4#" ∷ "#OUT1#" ∷ "#OUT2#" ∷ "#OUT3#" ∷ "#OUT4#" ∷ "#LAC#" ∷ "#CID#"
      ∷ "#VIN#" ∷ "#VBAT#" ∷ "#DEST#" ∷ "#IGN#" ∷ "#ENG#" ∷ [])

abbrev pub default_starlink_format_tags : List Text
default_starlink_format_tags = map codes tag_names

module _ (js : Floats) where
  open js use {Num, round_thousand}

  -- `undefined` is `none`; a time that is `null` is `some none`.
  pub record StarlinkReportPayload : Type 0 where
    pub event_id : Option ℤ
    pub event_name : Option Text
    pub alarm : Option Text
    pub device_time : Option (Option ℤ)
    pub fix_time : Option (Option ℤ)
    pub latitude : Option Num
    pub longitude : Option Num
    pub altitude_m : Option Num
    pub speed_knots : Option Num
    pub speed_kmh : Option Num
    pub course : Option ℤ
    pub odometer_m : Option Num
    pub digital_inputs : List (Text × ℤ)
    pub digital_outputs : List (Text × ℤ)
    pub lac : Option ℤ
    pub cid : Option ℤ
    pub main_power_voltage : Option Num
    pub battery_voltage : Option Num
    pub destination : Option Text
    pub ignition : Option Bool
    pub satellites : Option Num
    pub pdop : Option Num
    pub unsupported_tags : List Text

  abbrev pub new_payload : StarlinkReportPayload
  new_payload = record {
    event_id = none;
    event_name = none;
    alarm = none;
    device_time = none;
    fix_time = none;
    latitude = none;
    longitude = none;
    altitude_m = none;
    speed_knots = none;
    speed_kmh = none;
    course = none;
    odometer_m = none;
    digital_inputs = [];
    digital_outputs = [];
    lac = none;
    cid = none;
    main_power_voltage = none;
    battery_voltage = none;
    destination = none;
    ignition = none;
    satellites = none;
    pdop = none;
    unsupported_tags = [];
  }

  pub record ParsedStarlinkFrame : Type 0 where
    pub header : StarlinkFrameHeader
    pub report : Option StarlinkReportPayload
    pub warnings : List StarlinkWarning
    pub raw_line : Text
    pub raw_data : Text
