-- ===== src/Tracker/Report.antt =====
-- The +RPT / -RPT data zone: `parseReportDataZone` of src/tracker/parser/tracker-parser.service.ts.
pub mod Runs
use avt_tracker.Base.{switch, ℕ, List, [], ◌∷◌, ◌++◌, Option, none, some}
use avt_tracker.Base.Exec.{lift, Exec, ok, ◌>>=◌, ◌>>◌, modify, pure}
use avt_tracker.Base.Text.{Text}
use avt_tracker.Tracker.Blocks.CanAdvanced.{
  parse_can_advanced_info_mask1_block, CanAdvancedInfoMask1Block,
}
use avt_tracker.Tracker.Blocks.CanOne.{parse_can_info_mask1_block, CanInfoMask1Block}
use avt_tracker.Tracker.Blocks.CanThree.{parse_can_info_mask3_block, CanInfoMask3Block}
use avt_tracker.Tracker.Blocks.CanTwo.{parse_can_info_mask2_block, CanInfoMask2Block}
use avt_tracker.Tracker.Blocks.Electric.{parse_electric_info_mask1_block, ElectricInfoMask1Block}
use avt_tracker.Tracker.Blocks.EventData.{parse_event_data_block, EventDataBlock}
use avt_tracker.Tracker.Blocks.Gnss.{parse_gnss_block, GnssBlock}
use avt_tracker.Tracker.Codec.{format_protocol_version}
use avt_tracker.Tracker.Cursor.{read_uint32_be, skip, read_bytes, read_uint16_be, read_uint8, Read}
use avt_tracker.Tracker.Decode.{warn_unsupported, all_bits, field, on_cursor, on_scan, Scan, Work}
use avt_tracker.Tracker.Errors.{data_mask, stopped_decoding, Error}
use avt_tracker.Tracker.EventNames.{get_event_type_name}
use avt_tracker.Tracker.Mobileye.{
  MobileyeAdasEventType, derive_mobileye_adas_events, derive_mobileye_adas_reading,
  MobileyeAdasReading,
}

pub record FrameCounter : Type 0 where
  pub count : ℕ
  pub id : ℕ

pub record BatteryBlock : Type 0 where
  pub voltage_mv : ℕ
  pub level_percent : ℕ

pub record CellBlock : Type 0 where
  pub mcc : ℕ
  pub mnc : ℕ
  pub lac : ℕ
  pub cell_id : ℕ
  pub csq : ℕ

pub record UpgradeBlock : Type 0 where
  pub code : ℕ

pub record TrackerReportPayload : Type 0 where
  pub protocol_version : Text
  pub event_type : ℕ
  pub event_name : Text
  pub event_state : ℕ
  pub data_mask : ℕ
  pub frame : Option FrameCounter
  pub network_type : Option ℕ
  pub battery : Option BatteryBlock
  pub gnss : Option GnssBlock
  pub cell : Option CellBlock
  pub upgrade : Option UpgradeBlock
  pub event_data : Option EventDataBlock
  pub can_info1 : Option CanInfoMask1Block
  pub can_info2 : Option CanInfoMask2Block
  pub can_info3 : Option CanInfoMask3Block
  pub electric_info1 : Option ElectricInfoMask1Block
  pub can_advanced_info1 : Option CanAdvancedInfoMask1Block
  pub mobileye_adas : Option MobileyeAdasReading
  pub mobileye_adas_events : Option (List MobileyeAdasEventType)
  pub unsupported_data_mask_bits : List ℕ

abbrev pub Payload : Type 0
Payload = Work TrackerReportPayload

pub read_frame_counter : Read FrameCounter
read_frame_counter = do
  count ← read_uint8
  id ← read_uint8
  pure (record { count = count; id = id })

pub read_battery : Read BatteryBlock
read_battery = do
  voltage ← read_uint16_be
  level ← read_uint8
  pure (record { voltage_mv = voltage; level_percent = level })

pub read_cell : Read CellBlock
read_cell = do
  mcc ← read_uint16_be
  mnc ← read_uint16_be
  lac ← read_uint16_be
  cell_id ← read_uint32_be
  csq ← read_uint8
  pure (record { mcc = mcc; mnc = mnc; lac = lac; cell_id = cell_id; csq = csq })

-- Two reserved bytes follow the code.
pub read_upgrade : Read UpgradeBlock
read_upgrade = do code ← read_uint8; skip 2; pure (record { code = code })

-- A block with a mask of its own, decoded with the shared cursor and warnings. An error inside
-- the block's own loop is caught there, so the report's loop goes on to its next bit.
abbrev pub nested :
    {A : Type 0}
    → Exec Error Scan A
    → (A → TrackerReportPayload → TrackerReportPayload)
    → Exec Error Payload (Unit {0})
nested m put = on_scan m >>= λ v. modify (λ w. record w { block = put v w.block })

with_mobileye : Option MobileyeAdasReading → TrackerReportPayload → TrackerReportPayload
with_mobileye none p = p
with_mobileye (some reading) p = record p {
  mobileye_adas = some reading;
  mobileye_adas_events = some (derive_mobileye_adas_events reading);
}

put_can_advanced : CanAdvancedInfoMask1Block → TrackerReportPayload → TrackerReportPayload
put_can_advanced block p =
    with_mobileye (derive_mobileye_adas_reading block)
      (record p { can_advanced_info1 = some block })

-- Bits 5 and 6 are reserved; bits that no case names are recorded and take no bytes.
pub report_case : ℕ → Exec Error Payload (Unit {0})
report_case bit =
    switch bit
      ((0, field read_frame_counter (λ v p. record p { frame = some v }))
        ∷ (1, field read_uint8 (λ v p. record p { network_type = some v }))
        ∷ (2, field read_battery (λ v p. record p { battery = some v }))
        ∷ (3, field parse_gnss_block (λ v p. record p { gnss = some v }))
        ∷ (4, field read_cell (λ v p. record p { cell = some v }))
        ∷ (5, pure tt)
        ∷ (6, pure tt)
        ∷ (7, field read_upgrade (λ v p. record p { upgrade = some v }))
        ∷ (8, nested parse_event_data_block (λ v p. record p { event_data = some v }))
        ∷ (9, nested parse_can_info_mask1_block (λ v p. record p { can_info1 = some v }))
        ∷ (10, nested parse_can_info_mask2_block (λ v p. record p { can_info2 = some v }))
        ∷ (11, nested parse_electric_info_mask1_block (λ v p. record p { electric_info1 = some v }))
        ∷ (23, nested parse_can_info_mask3_block (λ v p. record p { can_info3 = some v }))
        ∷ (24, nested parse_can_advanced_info_mask1_block put_can_advanced)
        ∷ [])
      (modify (λ w. record w {
        block = record (w.block) {
          unsupported_data_mask_bits = w.block.unsupported_data_mask_bits ++ (bit ∷ []);
        };
      }))

abbrev pub empty_payload : Text → ℕ → ℕ → ℕ → TrackerReportPayload
empty_payload version event_type event_state mask = record {
  protocol_version = version;
  event_type = event_type;
  event_name = get_event_type_name event_type;
  event_state = event_state;
  data_mask = mask;
  frame = none;
  network_type = none;
  battery = none;
  gnss = none;
  cell = none;
  upgrade = none;
  event_data = none;
  can_info1 = none;
  can_info2 = none;
  can_info3 = none;
  electric_info1 = none;
  can_advanced_info1 = none;
  mobileye_adas = none;
  mobileye_adas_events = none;
  unsupported_data_mask_bits = [];
}

pub read_protocol_version : Read Text
read_protocol_version = do bytes ← read_bytes 2; lift (format_protocol_version bytes)

-- The loop over the Data Mask, then the warning about bits left out.
pub decode_data_mask : TrackerReportPayload → Exec Error Scan TrackerReportPayload
decode_data_mask payload s =
    let w =
      all_bits report_case (stopped_decoding data_mask) payload.data_mask
        (record { scan = s; block = payload }) in
    (ok w.block, warn_unsupported data_mask w.block.unsupported_data_mask_bits w.scan)

pub parse_report_data_zone : Exec Error Scan TrackerReportPayload
parse_report_data_zone = do
  version ← on_cursor read_protocol_version
  event_type ← on_cursor read_uint8
  event_state ← on_cursor read_uint8
  mask ← on_cursor read_uint32_be
  decode_data_mask (empty_payload version event_type event_state mask)
