-- ===== src/Tracker/Blocks/CanTwo.antt =====
-- CAN Info Mask 2 (+RPT Data Mask bit 10): `parseCanInfoMask2Block`.
use avt_tracker.Base.{◌%◌, ◌/◌, switch, ℕ, List, [], ◌∷◌, ◌++◌, Option, none, some}
use avt_tracker.Base.Exec.{ok, lift, Exec, ◌>>=◌, modify, pure}
use avt_tracker.Base.Int.{sub_ℕ, ℤ, Scaled}
use avt_tracker.Base.Text.{Text}
use avt_tracker.Tracker.Blocks.Shared.{read_fuel_level, scaled, FuelLevelReading}
use avt_tracker.Tracker.Codec.{decode_dtc_code, DtcCode}
use avt_tracker.Tracker.Cursor.{
  read_int32_be, read_length_prefixed_ascii, read_int16_be, read_bytes, read_uint32_be,
  read_uint_be, read_uint16_be, read_uint8, Read,
}
use avt_tracker.Tracker.Decode.{warn_unsupported, all_bits, field, on_cursor, repeat, Scan, Work}
use avt_tracker.Tracker.Errors.{can_info2, stopped_decoding, Error}

pub record TyreReading : Type 0 where
  pub axle_position : ℕ
  pub wheel_position : ℕ
  pub pressure_kpa : ℕ
  pub temperature_c : Scaled
  pub state : ℕ

pub read_tyre : Read TyreReading
read_tyre = do
  location ← read_uint8
  pressure ← read_uint16_be
  temperature ← read_uint_be 3
  state ← read_uint8
  pure (record {
    axle_position = location / 16 % 16;
    wheel_position = location % 16;
    pressure_kpa = pressure;
    temperature_c = scaled temperature 1 100;
    state = state;
  })

pub read_tyres : Read (List TyreReading)
read_tyres = do count ← read_uint8; repeat count read_tyre

pub read_dtc_codes : Read (List DtcCode)
read_dtc_codes = do
  count ← read_uint8
  repeat count (read_bytes 3 >>= λ bytes. lift (decode_dtc_code bytes))

pub record CanInfoMask2Block : Type 0 where
  pub mask : ℕ
  pub ad_blue_level_percent : Option Scaled
  pub retarder_usage_percent : Option ℕ
  pub power_mode : Option ℕ
  pub axle_weight5_kg : Option Scaled
  pub axle_weight6_kg : Option Scaled
  pub axle_weight7_kg : Option Scaled
  pub analog_input_mv : Option ℕ
  pub engine_braking_factor : Option ℕ
  pub pedal_braking_factor : Option ℕ
  pub total_accelerator_kickdowns : Option ℕ
  pub total_effective_engine_speed_time_seconds : Option ℕ
  pub total_cruise_control_time_seconds : Option ℕ
  pub total_accelerator_kickdown_time_seconds : Option ℕ
  pub total_brake_applications : Option ℕ
  pub oil_temperature_c : Option ℤ
  pub trailer_vin : Option Text
  pub registration_number : Option Text
  pub rapid_brakings : Option ℕ
  pub rapid_accelerations : Option ℕ
  pub engine_torque_percent : Option ℤ
  pub service_distance_km : Option ℤ
  pub ambient_temperature_c : Option ℤ
  pub dtc_codes : Option (List DtcCode)
  pub gaseous_fuel_level : Option FuelLevelReading
  pub fuel_level_combustion : Option FuelLevelReading
  pub total_fuel_from_vehicle_ml : Option ℕ
  pub total_gaseous_fuel_usage_kg : Option Scaled
  pub tyres : Option (List TyreReading)
  pub time_to_service_days : Option ℤ
  pub unsupported_bits : List ℕ

abbrev pub fresh : ℕ → CanInfoMask2Block
fresh mask = record {
  mask = mask;
  ad_blue_level_percent = none;
  retarder_usage_percent = none;
  power_mode = none;
  axle_weight5_kg = none;
  axle_weight6_kg = none;
  axle_weight7_kg = none;
  analog_input_mv = none;
  engine_braking_factor = none;
  pedal_braking_factor = none;
  total_accelerator_kickdowns = none;
  total_effective_engine_speed_time_seconds = none;
  total_cruise_control_time_seconds = none;
  total_accelerator_kickdown_time_seconds = none;
  total_brake_applications = none;
  oil_temperature_c = none;
  trailer_vin = none;
  registration_number = none;
  rapid_brakings = none;
  rapid_accelerations = none;
  engine_torque_percent = none;
  service_distance_km = none;
  ambient_temperature_c = none;
  dtc_codes = none;
  gaseous_fuel_level = none;
  fuel_level_combustion = none;
  total_fuel_from_vehicle_ml = none;
  total_gaseous_fuel_usage_kg = none;
  tyres = none;
  time_to_service_days = none;
  unsupported_bits = [];
}

-- The `switch` of one bit, bit 31 being reserved.
pub can_info_mask2_case : ℕ → Exec Error (Work CanInfoMask2Block) (Unit {0})
can_info_mask2_case bit =
    switch bit
      ((0, field read_uint8 (λ v b. record b { ad_blue_level_percent = some (scaled v 4 10) }))
        ∷ (1, field read_uint8 (λ v b. record b { retarder_usage_percent = some v }))
        ∷ (2, field read_uint8 (λ v b. record b { power_mode = some v }))
        ∷ (3, field read_uint16_be (λ v b. record b { axle_weight5_kg = some (scaled v 5 10) }))
        ∷ (4, field read_uint16_be (λ v b. record b { axle_weight6_kg = some (scaled v 5 10) }))
        ∷ (5, field read_uint16_be (λ v b. record b { axle_weight7_kg = some (scaled v 5 10) }))
        ∷ (6, field read_uint16_be (λ v b. record b { analog_input_mv = some v }))
        ∷ (7, field read_uint32_be (λ v b. record b { engine_braking_factor = some v }))
        ∷ (8, field read_uint32_be (λ v b. record b { pedal_braking_factor = some v }))
        ∷ (9, field (read_uint_be 3) (λ v b. record b { total_accelerator_kickdowns = some v }))
        ∷ (
          10,
          field read_uint32_be
              (λ v b. record b { total_effective_engine_speed_time_seconds = some v }),
        )
        ∷ (
          11,
          field read_uint32_be (λ v b. record b { total_cruise_control_time_seconds = some v }),
        )
        ∷ (
          12,
          field read_uint32_be
              (λ v b. record b { total_accelerator_kickdown_time_seconds = some v }),
        )
        ∷ (13, field (read_uint_be 3) (λ v b. record b { total_brake_applications = some v }))
        ∷ (14, field read_int16_be (λ v b. record b { oil_temperature_c = some v }))
        ∷ (15, field read_length_prefixed_ascii (λ v b. record b { trailer_vin = some v }))
        ∷ (16, pure tt)
        ∷ (17, pure tt)
        ∷ (18, field read_length_prefixed_ascii (λ v b. record b { registration_number = some v }))
        ∷ (19, field (read_uint_be 3) (λ v b. record b { rapid_brakings = some v }))
        ∷ (20, field (read_uint_be 3) (λ v b. record b { rapid_accelerations = some v }))
        ∷ (21, field read_uint8 (λ v b. record b { engine_torque_percent = some (sub_ℕ v 125) }))
        ∷ (22, field read_int32_be (λ v b. record b { service_distance_km = some v }))
        ∷ (23, field read_int16_be (λ v b. record b { ambient_temperature_c = some v }))
        ∷ (24, field read_dtc_codes (λ v b. record b { dtc_codes = some v }))
        ∷ (25, field read_fuel_level (λ v b. record b { gaseous_fuel_level = some v }))
        ∷ (26, field read_fuel_level (λ v b. record b { fuel_level_combustion = some v }))
        ∷ (27, field read_uint32_be (λ v b. record b { total_fuel_from_vehicle_ml = some v }))
        ∷ (
          28,
          field read_uint32_be
              (λ v b. record b { total_gaseous_fuel_usage_kg = some (scaled v 5 10) }),
        )
        ∷ (29, field read_tyres (λ v b. record b { tyres = some v }))
        ∷ (
          30,
          field read_uint16_be (λ v b. record b { time_to_service_days = some (sub_ℕ v 1000) }),
        )
        ∷ [])
      (modify (λ w. record w {
        block = record (w.block) { unsupported_bits = w.block.unsupported_bits ++ (bit ∷ []) };
      }))

unfoldable pub parse_can_info_mask2_block : Exec Error Scan CanInfoMask2Block
parse_can_info_mask2_block = do
  mask ← on_cursor read_uint32_be
  λ s.
      let w =
        all_bits can_info_mask2_case (stopped_decoding can_info2) mask
          (record { scan = s; block = fresh mask }) in
      (ok w.block, warn_unsupported can_info2 w.block.unsupported_bits w.scan)
