-- ===== src/Tracker/Parser.antt =====
-- `parseFrame` of src/tracker/parser/tracker-parser.service.ts: one delimited frame into a typed
-- value, with warnings for what could not be decoded.
pub mod Layout
pub mod Total
pub mod Short
pub mod RoundTrip
pub mod Runs
use avt_tracker.Base.{
  drop, ◌==◌, length, ltb, take, get_or, if◌then◌else◌, ℕ, ◌+◌, ◌-◌, List, [], ◌∷◌, ◌++◌, Bool,
  true, false, Option, none, some,
}
use avt_tracker.Base.Exec.{Exec, Result, ok, err, ◌>>=◌}
use avt_tracker.Base.Text.{hex_text, Text}
use avt_tracker.Tracker.Ascii.{parse_ascii_data_zone, AsciiFrameData, Doubles}
use avt_tracker.Tracker.Codec.{format_protocol_version}
use avt_tracker.Tracker.Cursor.{cursor_on}
use avt_tracker.Tracker.Decode.{Scan}
use avt_tracker.Tracker.Errors.{
  not_implemented, data_zone_failed, heartbeat_too_short, empty_frame, no_terminator, Error,
  Warning,
}
use avt_tracker.Tracker.Header.{
  header_prefix_bytes, read_head_token, TrackerFrameHeader, parse_header,
}
use avt_tracker.Tracker.Kinds.{
  hbd, rpt_historical, rpt, is_hex_encoded, resolve_kind, TrackerFrameKind,
}
use avt_tracker.Tracker.Report.{parse_report_data_zone, TrackerReportPayload}

-- `if (dataZone.length < 2) throw …; formatProtocolVersion(dataZone.subarray(0, 2))`
pub parse_heartbeat_data_zone : List ℕ → Result Error Text
parse_heartbeat_data_zone data_zone =
    if ltb (length data_zone) 2
    then err (heartbeat_too_short (length data_zone))
    else format_protocol_version (take 2 data_zone)

-- The bytes between the head token and the terminator, if there is one.
abbrev pub has_trailing_hash : List ℕ → Bool
has_trailing_hash frame = get_or frame (length frame - 1) 0 == 0x23

abbrev pub body_end : List ℕ → ℕ
body_end frame = if has_trailing_hash frame then length frame - 1 else length frame

abbrev pub binary_section : List ℕ → Text → List ℕ
binary_section frame head_token =
    take (body_end frame - length head_token) (drop (length head_token) frame)

abbrev pub first_warnings : List ℕ → List Warning
first_warnings frame = if has_trailing_hash frame then [] else no_terminator ∷ []

module _ (js : Doubles) where
  -- The payload that `parseFrame` adds to the header.
  pub data Content : Type 0 where
    report : TrackerReportPayload → Content
    heartbeat : Text → Content
    ascii_frame : AsciiFrameData js → Content
    raw_only : Content

  pub record ParsedTrackerFrame : Type 0 where
    pub header : TrackerFrameHeader
    pub content : Content
    pub warnings : List Warning
    pub raw_hex : Text
    pub data_zone_hex : Text

  -- `parsed.report`
  abbrev pub report_in : Content → Option TrackerReportPayload
  report_in (report payload) = some payload
  report_in content = none

  -- The `try` around the data zone: an error becomes a warning, and the content is left out.
  pub caught : {A : Type 0} → (A → Content) → Result Error A × Scan → Content × List Warning
  caught put (ok a, s) = (put a, s.warnings)
  caught put (err e, s) = (raw_only, s.warnings ++ (data_zone_failed e ∷ []))

  pub decode_data_zone : TrackerFrameKind → List ℕ → List Warning → Content × List Warning
  decode_data_zone rpt zone ws =
      caught report (parse_report_data_zone (record { cursor = cursor_on zone; warnings = ws }))
  decode_data_zone rpt_historical zone ws =
      caught report (parse_report_data_zone (record { cursor = cursor_on zone; warnings = ws }))
  decode_data_zone hbd zone ws =
      caught heartbeat
        (parse_heartbeat_data_zone zone, record { cursor = cursor_on zone; warnings = ws })
  decode_data_zone kind zone ws =
      if is_hex_encoded kind
      then (raw_only, ws ++ (not_implemented kind ∷ []))
      else let (fields, s) =
          parse_ascii_data_zone js zone (record { cursor = cursor_on zone; warnings = ws }) in
        (ascii_frame fields, s.warnings)

  -- With the header known: the data zone starts behind the fixed fields and has the computed length.
  pub finish :
      List ℕ → Text → Result Error TrackerFrameHeader × Scan → Result Error ParsedTrackerFrame
  finish frame head_token (err e, s) = err e
  finish frame head_token (ok header, s) =
      let zone =
        take header.computed_data_zone_length
          (drop (length head_token + header_prefix_bytes) frame) in
      let (content, warnings) = decode_data_zone header.kind zone s.warnings in
      ok (record {
        header = header;
        content = content;
        warnings = warnings;
        raw_hex = hex_text frame;
        data_zone_hex = hex_text zone;
      })

  pub parse_with_token : List ℕ → Result Error Text → Result Error ParsedTrackerFrame
  parse_with_token frame (err e) = err e
  parse_with_token frame (ok head_token) =
      let section = binary_section frame head_token in
      finish frame head_token (
        parse_header head_token (resolve_kind head_token) (length section)
          (record { cursor = cursor_on section; warnings = first_warnings frame }))

  pub parse_frame : List ℕ → Result Error ParsedTrackerFrame
  parse_frame [] = err empty_frame
  parse_frame (b ∷ frame) = parse_with_token (b ∷ frame) (read_head_token (b ∷ frame))
