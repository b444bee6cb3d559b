-- ===== src/Tracker/Blocks/CanThree.antt =====
-- CAN Info Mask 3 (+RPT Data Mask bit 23): `parseCanInfoMask3Block`.
use avt_tracker.Base.{switch, ℕ, List, [], ◌∷◌, ◌++◌, Option, none, some}
use avt_tracker.Base.Exec.{ok, Exec, ◌>>=◌, modify}
use avt_tracker.Tracker.Cursor.{read_uint8, read_uint32_be}
use avt_tracker.Tracker.Decode.{warn_unsupported, all_bits, field, on_cursor, Scan, Work}
use avt_tracker.Tracker.Errors.{can_info3, stopped_decoding, Error}

pub record CanInfoMask3Block : Type 0 where
  pub mask : ℕ
  pub total_retarder_usage_time_seconds : Option ℕ
  pub total_co2_emission_kg : Option ℕ
  pub total_pto_usage_time_seconds : Option ℕ
  pub total_fuel_used_with_pto_engaged_ml : Option ℕ
  pub current_gear_number : Option ℕ
  pub unsupported_bits : List ℕ

abbrev pub fresh : ℕ → CanInfoMask3Block
fresh mask = record {
  mask = mask;
  total_retarder_usage_time_seconds = none;
  total_co2_emission_kg = none;
  total_pto_usage_time_seconds = none;
  total_fuel_used_with_pto_engaged_ml = none;
  current_gear_number = none;
  unsupported_bits = [];
}

-- The `switch` of one bit.
pub can_info_mask3_case : ℕ → Exec Error (Work CanInfoMask3Block) (Unit {0})
can_info_mask3_case bit =
    switch bit
      ((0, field read_uint32_be (λ v b. record b { total_retarder_usage_time_seconds = some v }))
        ∷ (2, field read_uint32_be (λ v b. record b { total_co2_emission_kg = some v }))
        ∷ (3, field read_uint32_be (λ v b. record b { total_pto_usage_time_seconds = some v }))
        ∷ (
          4,
          field read_uint32_be (λ v b. record b { total_fuel_used_with_pto_engaged_ml = some v }),
        )
        ∷ (8, field read_uint8 (λ v b. record b { current_gear_number = some v }))
        ∷ [])
      (modify (λ w. record w {
        block = record (w.block) { unsupported_bits = w.block.unsupported_bits ++ (bit ∷ []) };
      }))

unfoldable pub parse_can_info_mask3_block : Exec Error Scan CanInfoMask3Block
parse_can_info_mask3_block = do
  mask ← on_cursor read_uint32_be
  λ s.
      let w =
        all_bits can_info_mask3_case (stopped_decoding can_info3) mask
          (record { scan = s; block = fresh mask }) in
      (ok w.block, warn_unsupported can_info3 w.block.unsupported_bits w.scan)
