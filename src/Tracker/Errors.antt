-- ===== src/Tracker/Errors.antt =====
-- What the parser throws (`Error` objects) and what it collects in `warnings`: one constructor for
-- each message template of src/tracker/parser/, with the values that the template interpolates.
use avt_tracker.Base.{Option, ℕ, List}
use avt_tracker.Base.Text.{Text}
use avt_tracker.Tracker.Kinds.{TrackerFrameKind}

pub data Error : Type 0 where
  truncated_frame : (requested remaining offset : ℕ) → Error
  -- what Node throws for an integer of no byte or of more than six
  byte_length_out_of_range : ℕ → Error
  imei_size : ℕ → Error
  g_time_size : ℕ → Error
  version_size : ℕ → Error
  short_hms_size : ℕ → Error
  extended_hms_size : ℕ → Error
  dtc_size : ℕ → Error
  empty_frame : Error
  no_head_token : List ℕ → Error
  frame_too_short : TrackerFrameKind → ℕ → Error
  heartbeat_too_short : ℕ → Error

-- The blocks whose masks are decoded bit by bit.
pub data MaskName : Type 0 where
  data_mask event_data_mask can_info1 can_info2 electric_info1 can_info3 can_advanced1 : MaskName

pub data Warning : Type 0 where
  no_terminator : Warning
  length_mismatch : (declared expected : ℕ) → Warning
  not_implemented : TrackerFrameKind → Warning
  data_zone_failed : Error → Warning
  stopped_decoding : MaskName → ℕ → Error → Warning
  bits_not_decoded : MaskName → List ℕ → Warning
  peo_malformed : ℕ → Warning
  -- with the record's id field, as it was sent
  peo_points_truncated : Option Text → ℕ → Warning
  peo_settings_truncated : Option Text → ℕ → Warning
