-- ===== src/Tracker/Blocks/CanOne.antt =====
-- CAN Info Mask 1 (+RPT Data Mask bit 9): `parseCanInfoMask1Block`.
use avt_tracker.Base.{switch, ℕ, List, [], ◌∷◌, ◌++◌, Option, none, some}
use avt_tracker.Base.Exec.{ok, Exec, ◌>>=◌, modify}
use avt_tracker.Base.Int.{Scaled, ℤ}
use avt_tracker.Base.Text.{Text}
use avt_tracker.Tracker.Blocks.Shared.{
  FuelLevelReading, FuelConsumptionReading, scaled, read_fuel_level, read_fuel_consumption,
}
use avt_tracker.Tracker.Cursor.{
  read_uint_be, read_int16_be, read_uint16_be, read_uint8, read_length_prefixed_ascii,
  read_uint32_be,
}
use avt_tracker.Tracker.Decode.{warn_unsupported, all_bits, field, on_cursor, Scan, Work}
use avt_tracker.Tracker.Errors.{can_info1, stopped_decoding, Error}

pub record CanInfoMask1Block : Type 0 where
  pub mask : ℕ
  pub vin : Option Text
  pub ignition_key : Option ℕ
  pub total_distance_hm : Option ℕ
  pub total_distance_impulses : Option ℕ
  pub total_fuel_used_ml : Option ℕ
  pub vehicle_speed_kmh : Option ℕ
  pub engine_rpm : Option ℕ
  pub engine_coolant_temperature_c : Option ℤ
  pub fuel_consumption : Option FuelConsumptionReading
  pub fuel_level : Option FuelLevelReading
  pub range_km : Option ℕ
  pub accelerator_pedal_pressure_percent : Option Scaled
  pub total_engine_hours_seconds : Option ℕ
  pub total_driving_time_seconds : Option ℕ
  pub total_engine_idle_time_seconds : Option ℕ
  pub total_idle_fuel_used_ml : Option ℕ
  pub axle_weight1_kg : Option Scaled
  pub axle_weight2_kg : Option Scaled
  pub axle_weight3_kg : Option Scaled
  pub axle_weight4_kg : Option Scaled
  pub detailed_indicators1 : Option ℕ
  pub detailed_indicators2 : Option ℕ
  pub lights : Option ℕ
  pub doors : Option ℕ
  pub total_vehicle_overspeed_time_seconds : Option ℕ
  pub total_vehicle_engine_overspeed_time_seconds : Option ℕ
  pub engine_cold_starts_count : Option ℕ
  pub engine_all_starts_count : Option ℕ
  pub engine_starts_by_ignition_count : Option ℕ
  pub total_engine_cold_running_time_seconds : Option ℕ
  pub handbrake_applies_during_ride_count : Option ℕ
  pub unsupported_bits : List ℕ

abbrev pub fresh : ℕ → CanInfoMask1Block
fresh mask = record {
  mask = mask;
  vin = none;
  ignition_key = none;
  total_distance_hm = none;
  total_distance_impulses = none;
  total_fuel_used_ml = none;
  vehicle_speed_kmh = none;
  engine_rpm = none;
  engine_coolant_temperature_c = none;
  fuel_consumption = none;
  fuel_level = none;
  range_km = none;
  accelerator_pedal_pressure_percent = none;
  total_engine_hours_seconds = none;
  total_driving_time_seconds = none;
  total_engine_idle_time_seconds = none;
  total_idle_fuel_used_ml = none;
  axle_weight1_kg = none;
  axle_weight2_kg = none;
  axle_weight3_kg = none;
  axle_weight4_kg = none;
  detailed_indicators1 = none;
  detailed_indicators2 = none;
  lights = none;
  doors = none;
  total_vehicle_overspeed_time_seconds = none;
  total_vehicle_engine_overspeed_time_seconds = none;
  engine_cold_starts_count = none;
  engine_all_starts_count = none;
  engine_starts_by_ignition_count = none;
  total_engine_cold_running_time_seconds = none;
  handbrake_applies_during_ride_count = none;
  unsupported_bits = [];
}

-- The `switch` of one bit, bit 31 being reserved.
pub can_info_mask1_case : ℕ → Exec Error (Work CanInfoMask1Block) (Unit {0})
can_info_mask1_case bit =
    switch bit
      ((0, field read_length_prefixed_ascii (λ v b. record b { vin = some v }))
        ∷ (1, field read_uint8 (λ v b. record b { ignition_key = some v }))
        ∷ (2, field read_uint32_be (λ v b. record b { total_distance_hm = some v }))
        ∷ (3, field read_uint32_be (λ v b. record b { total_distance_impulses = some v }))
        ∷ (4, field read_uint32_be (λ v b. record b { total_fuel_used_ml = some v }))
        ∷ (5, field read_uint16_be (λ v b. record b { vehicle_speed_kmh = some v }))
        ∷ (6, field read_uint16_be (λ v b. record b { engine_rpm = some v }))
        ∷ (7, field read_int16_be (λ v b. record b { engine_coolant_temperature_c = some v }))
        ∷ (8, field read_fuel_consumption (λ v b. record b { fuel_consumption = some v }))
        ∷ (9, field read_fuel_level (λ v b. record b { fuel_level = some v }))
        ∷ (10, field (read_uint_be 3) (λ v b. record b { range_km = some v }))
        ∷ (
          11,
          field read_uint8
              (λ v b. record b { accelerator_pedal_pressure_percent = some (scaled v 4 10) }),
        )
        ∷ (12, field read_uint32_be (λ v b. record b { total_engine_hours_seconds = some v }))
        ∷ (13, field read_uint32_be (λ v b. record b { total_driving_time_seconds = some v }))
        ∷ (14, field read_uint32_be (λ v b. record b { total_engine_idle_time_seconds = some v }))
        ∷ (15, field read_uint32_be (λ v b. record b { total_idle_fuel_used_ml = some v }))
        ∷ (16, field read_uint16_be (λ v b. record b { axle_weight1_kg = some (scaled v 5 10) }))
        ∷ (17, field read_uint16_be (λ v b. record b { axle_weight2_kg = some (scaled v 5 10) }))
        ∷ (18, field read_uint16_be (λ v b. record b { axle_weight3_kg = some (scaled v 5 10) }))
        ∷ (19, field read_uint16_be (λ v b. record b { axle_weight4_kg = some (scaled v 5 10) }))
        ∷ (20, field read_uint32_be (λ v b. record b { detailed_indicators1 = some v }))
        ∷ (21, field read_uint32_be (λ v b. record b { detailed_indicators2 = some v }))
        ∷ (22, field read_uint8 (λ v b. record b { lights = some v }))
        ∷ (23, field read_uint8 (λ v b. record b { doors = some v }))
        ∷ (
          24,
          field read_uint32_be (λ v b. record b { total_vehicle_overspeed_time_seconds = some v }),
        )
        ∷ (
          25,
          field read_uint32_be
              (λ v b. record b { total_vehicle_engine_overspeed_time_seconds = some v }),
        )
        ∷ (26, field (read_uint_be 3) (λ v b. record b { engine_cold_starts_count = some v }))
        ∷ (27, field (read_uint_be 3) (λ v b. record b { engine_all_starts_count = some v }))
        ∷ (
          28,
          field (read_uint_be 3) (λ v b. record b { engine_starts_by_ignition_count = some v }),
        )
        ∷ (
          29,
          field read_uint32_be
              (λ v b. record b { total_engine_cold_running_time_seconds = some v }),
        )
        ∷ (
          30,
          field read_uint16_be (λ v b. record b { handbrake_applies_during_ride_count = some v }),
        )
        ∷ [])
      (modify (λ w. record w {
        block = record (w.block) { unsupported_bits = w.block.unsupported_bits ++ (bit ∷ []) };
      }))

unfoldable pub parse_can_info_mask1_block : Exec Error Scan CanInfoMask1Block
parse_can_info_mask1_block = do
  mask ← on_cursor read_uint32_be
  λ s.
      let w =
        all_bits can_info_mask1_case (stopped_decoding can_info1) mask
          (record { scan = s; block = fresh mask }) in
      (ok w.block, warn_unsupported can_info1 w.block.unsupported_bits w.scan)
