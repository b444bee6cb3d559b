-- ===== src/Tracker/Blocks/Electric.antt =====
-- Electric Info Mask 1 (+RPT Data Mask bit 11): `parseElectricInfoMask1Block`.
use avt_tracker.Base.{switch, ℕ, List, [], ◌∷◌, ◌++◌, Option, none, some}
use avt_tracker.Base.Exec.{ok, Exec, ◌>>=◌, modify}
use avt_tracker.Base.Int.{ℤ, Scaled}
use avt_tracker.Tracker.Blocks.Shared.{scaled}
use avt_tracker.Tracker.Cursor.{read_int16_be, read_uint8, read_uint16_be, read_uint32_be}
use avt_tracker.Tracker.Decode.{warn_unsupported, all_bits, field, on_cursor, Scan, Work}
use avt_tracker.Tracker.Errors.{electric_info1, stopped_decoding, Error}

pub record ElectricInfoMask1Block : Type 0 where
  pub mask : ℕ
  pub battery_instantaneous_voltage : Option ℕ
  pub battery_charging_cycles_count : Option ℕ
  pub total_energy_recuperated : Option ℕ
  pub battery_level_percent : Option Scaled
  pub charging_state : Option ℕ
  pub battery_temperature_c : Option ℤ
  pub battery_charging_current : Option Scaled
  pub battery_instantaneous_power : Option ℤ
  pub battery_state_of_health_percent : Option Scaled
  pub total_energy_used : Option ℕ
  pub total_energy_used_when_idling : Option ℕ
  pub total_energy_charged : Option ℕ
  pub only_battery_charge_level_percent : Option Scaled
  pub unsupported_bits : List ℕ

abbrev pub fresh : ℕ → ElectricInfoMask1Block
fresh mask = record {
  mask = mask;
  battery_instantaneous_voltage = none;
  battery_charging_cycles_count = none;
  total_energy_recuperated = none;
  battery_level_percent = none;
  charging_state = none;
  battery_temperature_c = none;
  battery_charging_current = none;
  battery_instantaneous_power = none;
  battery_state_of_health_percent = none;
  total_energy_used = none;
  total_energy_used_when_idling = none;
  total_energy_charged = none;
  only_battery_charge_level_percent = none;
  unsupported_bits = [];
}

-- The `switch` of one bit.
pub electric_info_mask1_case : ℕ → Exec Error (Work ElectricInfoMask1Block) (Unit {0})
electric_info_mask1_case bit =
    switch bit
      ((0, field read_uint16_be (λ v b. record b { battery_instantaneous_voltage = some v }))
        ∷ (1, field read_uint16_be (λ v b. record b { battery_charging_cycles_count = some v }))
        ∷ (2, field read_uint32_be (λ v b. record b { total_energy_recuperated = some v }))
        ∷ (3, field read_uint8 (λ v b. record b { battery_level_percent = some (scaled v 4 10) }))
        ∷ (4, field read_uint16_be (λ v b. record b { charging_state = some v }))
        ∷ (5, field read_int16_be (λ v b. record b { battery_temperature_c = some v }))
        ∷ (
          6,
          field read_uint16_be
              (λ v b. record b { battery_charging_current = some (scaled v 1 10) }),
        )
        ∷ (7, field read_int16_be (λ v b. record b { battery_instantaneous_power = some v }))
        ∷ (
          8,
          field read_uint8
              (λ v b. record b { battery_state_of_health_percent = some (scaled v 4 10) }),
        )
        ∷ (9, field read_uint32_be (λ v b. record b { total_energy_used = some v }))
        ∷ (10, field read_uint32_be (λ v b. record b { total_energy_used_when_idling = some v }))
        ∷ (11, field read_uint32_be (λ v b. record b { total_energy_charged = some v }))
        ∷ (
          12,
          field read_uint8
              (λ v b. record b { only_battery_charge_level_percent = some (scaled v 4 10) }),
        )
        ∷ [])
      (modify (λ w. record w {
        block = record (w.block) { unsupported_bits = w.block.unsupported_bits ++ (bit ∷ []) };
      }))

unfoldable pub parse_electric_info_mask1_block : Exec Error Scan ElectricInfoMask1Block
parse_electric_info_mask1_block = do
  mask ← on_cursor read_uint32_be
  λ s.
      let w =
        all_bits electric_info_mask1_case (stopped_decoding electric_info1) mask
          (record { scan = s; block = fresh mask }) in
      (ok w.block, warn_unsupported electric_info1 w.block.unsupported_bits w.scan)
