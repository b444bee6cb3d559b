-- ===== src/Tracker/Blocks/EventData.antt =====
-- Event Data Mask (+RPT Data Mask bit 8): `parseEventDataBlock`.
use avt_tracker.Base.{zero, suc, switch, ℕ, List, [], ◌∷◌, ◌++◌, Option, none, some}
use avt_tracker.Base.Exec.{ok, lift, Exec, ◌>>=◌, ◌>>◌, modify, pure}
use avt_tracker.Base.Int.{ℤ, Scaled}
use avt_tracker.Base.Text.{hex_text, Text}
use avt_tracker.Tracker.Codec.{decode_extended_hms, decode_short_hms}
use avt_tracker.Tracker.Cursor.{
  read_int16_be, read_uint32_be, read_bytes, read_int8, read_uint16_be, read_uint8, Read,
}
use avt_tracker.Tracker.Decode.{
  warn_unsupported, all_bits, field, on_cursor, read, when_bit, Scan, Work,
}
use avt_tracker.Tracker.Errors.{event_data_mask, stopped_decoding, Error}
use mathlib.Core.Option

pub record AnalogInput : Type 0 where
  pub index : ℕ
  pub voltage_mv : ℕ

pub read_analog_input : Read AnalogInput
read_analog_input = do
  index ← read_uint8
  voltage ← read_uint16_be
  pure (record { index = index; voltage_mv = voltage })

pub record Mileage : Type 0 where
  pub current_hm : ℕ
  pub total_hm : ℕ

pub read_mileage : Read Mileage
read_mileage = do
  current ← read_uint16_be
  total ← read_uint32_be
  pure (record { current_hm = current; total_hm = total })

pub record IdData : Type 0 where
  pub size : ℕ
  pub hex : Text

pub read_id_data : Read IdData
read_id_data = do
  size ← read_uint8
  bytes ← read_bytes size
  pure (record { size = size; hex = hex_text bytes })

pub record OneWireSensorReading : Type 0 where
  pub sensor_id_hex : Text
  pub sensor_mask : ℕ
  pub temperature_c : Option Scaled
  pub humidity_percent : Option ℕ

pub read_tenths : Read Scaled
read_tenths = do value ← read_int16_be; pure (record { units = value; per = 10 })

pub read_sensor : Read OneWireSensorReading
read_sensor = do
  id ← read_bytes 8
  mask ← read_uint8
  temperature ← when_bit mask 0 read_tenths
  humidity ← when_bit mask 1 read_uint8
  pure (record {
    sensor_id_hex = hex_text id;
    sensor_mask = mask;
    temperature_c = temperature;
    humidity_percent = humidity;
  })

pub record HourMeter : Type 0 where
  pub current_seconds : ℕ
  pub total_seconds : ℕ

pub read_hour_meter : Read HourMeter
read_hour_meter = do
  short ← read_bytes 3
  current ← lift (decode_short_hms short)
  long ← read_bytes 5
  total ← lift (decode_extended_hms long)
  pure (record { current_seconds = current; total_seconds = total })

pub record SelfCalibration : Type 0 where
  pub forward : ℤ × ℤ × ℤ
  pub horizontal : ℤ × ℤ × ℤ
  pub gravity : ℤ × ℤ × ℤ

-- Three axes, in the order x, y, z.
pub read_axes : Read ℤ → Read (ℤ × ℤ × ℤ)
read_axes m = do x ← m; y ← m; z ← m; pure (x, y, z)

pub read_self_calibration : Read SelfCalibration
read_self_calibration = do
  forward ← read_axes read_int8
  horizontal ← read_axes read_int8
  gravity ← read_axes read_int8
  pure (record { forward = forward; horizontal = horizontal; gravity = gravity })

pub record Crash : Type 0 where
  pub counter : ℕ
  pub asc_status : ℕ
  pub axes : ℤ × ℤ × ℤ

pub read_crash : Read Crash
read_crash = do
  counter ← read_uint8
  status ← read_uint8
  axes ← read_axes read_int16_be
  pure (record { counter = counter; asc_status = status; axes = axes })

pub record Certificate : Type 0 where
  pub server_protocol_type : ℕ
  pub certificate_file_type : ℕ
  pub download_code : ℕ

pub read_certificate : Read Certificate
read_certificate = do
  protocol ← read_uint8
  file ← read_uint8
  code ← read_uint8
  pure (record {
    server_protocol_type = protocol;
    certificate_file_type = file;
    download_code = code;
  })

pub record EventDataBlock : Type 0 where
  pub mask : ℕ
  pub main_power_voltage_mv : Option ℕ
  pub analog_input : Option AnalogInput
  pub ignition_motion_state : Option ℕ
  pub digital_input_state : Option ℕ
  pub digital_output_state : Option ℕ
  pub mileage : Option Mileage
  pub geo_status_mask : Option ℕ
  pub id_data : Option IdData
  pub one_wire : Option (List OneWireSensorReading)
  pub hour_meter : Option HourMeter
  pub self_calibration : Option SelfCalibration
  pub crash : Option Crash
  pub certificate : Option Certificate
  pub peo_status1_to_32 : Option ℕ
  pub peo_status33_to_50 : Option ℕ
  pub can_bus_sync_id : Option ℕ
  pub unsupported_bits : List ℕ

abbrev pub fresh : ℕ → EventDataBlock
fresh mask = record {
  mask = mask;
  main_power_voltage_mv = none;
  analog_input = none;
  ignition_motion_state = none;
  digital_input_state = none;
  digital_output_state = none;
  mileage = none;
  geo_status_mask = none;
  id_data = none;
  one_wire = none;
  hour_meter = none;
  self_calibration = none;
  crash = none;
  certificate = none;
  peo_status1_to_32 = none;
  peo_status33_to_50 = none;
  can_bus_sync_id = none;
  unsupported_bits = [];
}

-- The sensors are pushed one by one into a list that the block already holds.
push_sensor : OneWireSensorReading → EventDataBlock → EventDataBlock
push_sensor reading b = record b { one_wire = some (Option.get_or b.one_wire [] ++ (reading ∷ [])) }

pub read_sensors : ℕ → Exec Error (Work EventDataBlock) (Unit {0})
read_sensors zero = pure tt
read_sensors (suc n) = field read_sensor push_sensor >> read_sensors n

pub read_one_wire : Exec Error (Work EventDataBlock) (Unit {0})
read_one_wire = do
  count ← read read_uint8
  modify (λ w. record w { block = record (w.block) { one_wire = some [] } })
  read_sensors count

-- The `switch` of one bit.
pub event_data_case : ℕ → Exec Error (Work EventDataBlock) (Unit {0})
event_data_case bit =
    switch bit
      ((0, field read_uint16_be (λ v b. record b { main_power_voltage_mv = some v }))
        ∷ (1, field read_analog_input (λ v b. record b { analog_input = some v }))
        ∷ (2, field read_uint8 (λ v b. record b { ignition_motion_state = some v }))
        ∷ (3, field read_uint8 (λ v b. record b { digital_input_state = some v }))
        ∷ (4, field read_uint8 (λ v b. record b { digital_output_state = some v }))
        ∷ (5, field read_mileage (λ v b. record b { mileage = some v }))
        ∷ (6, pure tt)
        ∷ (7, field read_uint32_be (λ v b. record b { geo_status_mask = some v }))
        ∷ (8, field read_id_data (λ v b. record b { id_data = some v }))
        ∷ (9, read_one_wire)
        ∷ (10, field read_hour_meter (λ v b. record b { hour_meter = some v }))
        ∷ (11, field read_self_calibration (λ v b. record b { self_calibration = some v }))
        ∷ (12, field read_crash (λ v b. record b { crash = some v }))
        ∷ (13, pure tt)
        ∷ (14, field read_certificate (λ v b. record b { certificate = some v }))
        ∷ (21, field read_uint32_be (λ v b. record b { peo_status1_to_32 = some v }))
        ∷ (23, field read_uint32_be (λ v b. record b { peo_status33_to_50 = some v }))
        ∷ (25, field read_uint32_be (λ v b. record b { can_bus_sync_id = some v }))
        ∷ [])
      (modify (λ w. record w {
        block = record (w.block) { unsupported_bits = w.block.unsupported_bits ++ (bit ∷ []) };
      }))

unfoldable pub parse_event_data_block : Exec Error Scan EventDataBlock
parse_event_data_block = do
  mask ← on_cursor read_uint32_be
  λ s.
      let w =
        all_bits event_data_case (stopped_decoding event_data_mask) mask
          (record { scan = s; block = fresh mask }) in
      (ok w.block, warn_unsupported event_data_mask w.block.unsupported_bits w.scan)
