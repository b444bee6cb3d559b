-- ===== src/Tracker/Blocks/Shared.antt =====
-- Readings that more than one block uses. A factor such as `* 0.4` is kept as `* 4` over 10.
use avt_tracker.Base.{ℕ, ◌*◌}
use avt_tracker.Base.Exec.{◌>>=◌, pure}
use avt_tracker.Base.Int.{pos, Scaled}
use avt_tracker.Tracker.Cursor.{read_uint16_be, read_uint8, Read}

abbrev pub scaled : ℕ → ℕ → ℕ → Scaled
scaled v k per = record { units = pos (v * k); per = per }

pub record FuelConsumptionReading : Type 0 where
  pub liters_per_100_km : Scaled
  pub liters_per_hour : Scaled

pub read_fuel_consumption : Read FuelConsumptionReading
read_fuel_consumption = do
  distance ← read_uint16_be
  time ← read_uint16_be
  pure (record { liters_per_100_km = scaled distance 1 10; liters_per_hour = scaled time 5 100 })

pub record FuelLevelReading : Type 0 where
  pub liters : ℕ
  pub percent : Scaled

pub read_fuel_level : Read FuelLevelReading
read_fuel_level = do
  liters ← read_uint8
  percent ← read_uint8
  pure (record { liters = liters; percent = scaled percent 4 10 })
