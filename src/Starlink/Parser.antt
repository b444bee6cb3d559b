-- ===== src/Starlink/Parser.antt =====
-- src/starlink/parser/starlink-parser.service.ts: one line into a typed value, with warnings for
-- what could not be decoded.
pub mod Lines
pub mod Tags
pub mod Runs
use avt_tracker.Base.{
  drop, ◌==◌, length, list_eq, ltb, if◌then◌else◌, map, take, ℕ, ◌-◌, List, [], ◌∷◌, ◌++◌, Bool,
  true, false, Option, none, some, String,
}
use avt_tracker.Base.Dict.{set}
use avt_tracker.Base.Exec.{err, ok, Result}
use avt_tracker.Base.Int.{is_positive, is_nat, ℤ}
use avt_tracker.Base.Text.{leading_value, split_on, Text, codes}
use avt_tracker.Starlink.Codec.{
  is_whole, parse_strict_float, parse_starlink_coordinate, parse_strict_int,
  parse_starlink_date_time, is_space, Floats, TagError, skip_space,
}
use avt_tracker.Starlink.Events.{get_starlink_alarm, get_starlink_event_name}
use avt_tracker.Starlink.Pattern.{match_frame, Match}
use avt_tracker.Starlink.Payload.{
  StarlinkFrameHeader, StarlinkWarning, StarlinkError, event_report_message_type, tag_names,
  default_starlink_format_tags, StarlinkReportPayload, new_payload, ParsedStarlinkFrame,
  tag_not_decoded, extra_fields, unsupported_tags_left, type_not_decoded, empty_line,
  no_frame_format,
}

-- `line.trim()`
unfoldable pub trim_end : Text → Text
trim_end [] = []
trim_end (c ∷ cs) = elim (trim_end cs) [
  | [] ↦ if is_space c then [] else c ∷ []
  | d ∷ ds ↦ c ∷ d ∷ ds
]

unfoldable pub trim : Text → Text
trim line = trim_end (skip_space line)

-- `switch (tag) { case '…': … default: … }`
abbrev pub tag_switch : {A : Type 0} → Text → List (String × A) → A → A
tag_switch tag [] default = default
tag_switch tag ((name, a) ∷ cases) default =
    if list_eq tag (codes name) then a else tag_switch tag cases default

-- `tag.slice(1, -1)`
abbrev pub without_marks : Text → Text
without_marks tag = take (length tag - 2) (drop 1 tag)

-- `head ?? ''`
abbrev pub head_text : Option ℕ → Text
head_text none = []
head_text (some c) = c ∷ []

module _ (js : Floats) where
  open js use {Num, round_thousand, whole}

  -- The pattern leaves nothing but digits to `parseInt`.
  pub header_of_match : Match → StarlinkFrameHeader
  header_of_match m = record {
    head = head_text m.head;
    device_id = m.device_id;
    message_type = whole (leading_value 0 m.message_type);
    message_index = whole (leading_value 0 m.message_index);
    checksum_hex = m.checksum_hex;
  }

  -- A value that may throw, and the assignment of it.
  abbrev pub assign :
      {A : Type 0}
      → Result TagError A
      → (A → StarlinkReportPayload js)
      → Result TagError (StarlinkReportPayload js)
  assign (err e) put = err e
  assign (ok a) put = ok (put a)

  -- Events 24 and 25 switch the ignition on and off.
  unfoldable pub ignition_of_event : ℤ → Option Bool → Option Bool
  ignition_of_event event_id before =
      if is_nat event_id 24 then some true else if is_nat event_id 25 then some false else before

  unfoldable pub put_event : StarlinkReportPayload js → ℤ → StarlinkReportPayload js
  put_event p event_id = record p {
    event_id = some event_id;
    event_name = some (get_starlink_event_name event_id);
    alarm = get_starlink_alarm event_id;
    ignition = ignition_of_event event_id p.ignition;
  }

  unfoldable pub put_input : Text → StarlinkReportPayload js → ℤ → StarlinkReportPayload js
  put_input tag p v = record p { digital_inputs = set (without_marks tag) v p.digital_inputs }

  unfoldable pub put_output : Text → StarlinkReportPayload js → ℤ → StarlinkReportPayload js
  put_output tag p v = record p { digital_outputs = set (without_marks tag) v p.digital_outputs }

  abbrev pub tag_cases :
      Text
      → Text
      → StarlinkReportPayload js
      → List (String × Result TagError (StarlinkReportPayload js))
  tag_cases tag value p =
      ("#EDT#", ok (record p { device_time = some (parse_starlink_date_time value) }))
      ∷ ("#EID#", assign (parse_strict_int value) (put_event p))
      ∷ ("#PDT#", ok (record p { fix_time = some (parse_starlink_date_time value) }))
      ∷ ("#LAT#", assign (parse_starlink_coordinate js value) (λ v. record p { latitude = some v }))
      ∷ (
        "#LONG#",
        assign (parse_starlink_coordinate js value) (λ v. record p { longitude = some v }),
      )
      ∷ ("#SPD#", assign (parse_strict_float js value) (λ v. record p { speed_knots = some v }))
      ∷ ("#HEAD#", assign (parse_strict_int value) (λ v. record p { course = some v }))
      ∷ (
        "#ODO#",
        assign (parse_strict_float js value)
            (λ v. record p { odometer_m = some (round_thousand v) }),
      )
      ∷ ("#IN1#", assign (parse_strict_int value) (put_input tag p))
      ∷ ("#IN2#", assign (parse_strict_int value) (put_input tag p))
      ∷ ("#IN3#", assign (parse_strict_int value) (put_input tag p))
      ∷ ("#IN4#", assign (parse_strict_int value) (put_input tag p))
      ∷ ("#OUT1#", assign (parse_strict_int value) (put_output tag p))
      ∷ ("#OUT2#", assign (parse_strict_int value) (put_output tag p))
      ∷ ("#OUT3#", assign (parse_strict_int value) (put_output tag p))
      ∷ ("#OUT4#", assign (parse_strict_int value) (put_output tag p))
      ∷ ("#LAC#", assign (parse_strict_int value) (λ v. record p { lac = some v }))
      ∷ ("#CID#", assign (parse_strict_int value) (λ v. record p { cid = some v }))
      ∷ (
        "#VIN#",
        assign (parse_strict_float js value) (λ v. record p { main_power_voltage = some v }),
      )
      ∷ (
        "#VBAT#",
        assign (parse_strict_float js value) (λ v. record p { battery_voltage = some v }),
      )
      ∷ ("#DEST#", ok (record p { destination = some value }))
      ∷ (
        "#IGN#",
        assign (parse_strict_int value) (λ v. record p { ignition = some (is_positive v) }),
      )
      ∷ (
        "#ENG#",
        assign (parse_strict_int value) (λ v. record p { ignition = some (is_positive v) }),
      )
      ∷ []

  -- The value is read before anything is assigned, so an error leaves the payload as it was.
  unfoldable pub apply_tag :
      Text → Text → StarlinkReportPayload js → Result TagError (StarlinkReportPayload js)
  apply_tag tag value p =
      tag_switch tag (tag_cases tag value p)
        (ok (record p { unsupported_tags = p.unsupported_tags ++ (tag ∷ []) }))

  -- The payload and the warnings behind one call of `applyTag`, or behind its `catch`.
  abbrev pub applied :
      Text
      → Text
      → StarlinkReportPayload js × List StarlinkWarning
      → Result TagError (StarlinkReportPayload js)
      → StarlinkReportPayload js × List StarlinkWarning
  applied tag value (p, ws) (ok p') = (p', ws)
  applied tag value (p, ws) (err e) = (p, ws ++ (tag_not_decoded tag value e ∷ []))

  abbrev pub Decoding : Type 0
  Decoding = StarlinkReportPayload js × List StarlinkWarning

  -- One round of the loop over fields and tags.
  unfoldable pub apply_field : Text → Text → Decoding → Decoding
  apply_field tag [] d = d
  apply_field tag (c ∷ value) d = applied tag (c ∷ value) d (apply_tag tag (c ∷ value) d.0)

  -- `for (let i = 0; i < Math.min(fields.length, formatTags.length); i++)`
  unfoldable pub apply_fields : List Text → List Text → Decoding → Decoding
  apply_fields [] tags d = d
  apply_fields (value ∷ fields) [] d = d
  apply_fields (value ∷ fields) (tag ∷ tags) d = apply_fields fields tags (apply_field tag value d)

  abbrev pub warn_extra : ℕ → ℕ → List StarlinkWarning
  warn_extra fields tags = if ltb tags fields then extra_fields fields tags ∷ [] else []

  abbrev pub warn_tags : List Text → List StarlinkWarning
  warn_tags [] = []
  warn_tags (tag ∷ tags) = unsupported_tags_left (tag ∷ tags) ∷ []

  -- Nothing else in it throws, so the `catch` around the call has nothing to do.
  unfoldable pub parse_event_report : Text → List Text → Decoding
  parse_event_report content format_tags =
      let fields = split_on b',' content in
      let d = apply_fields fields format_tags (new_payload js, []) in
      (
        d.0,
        d.1 ++ (warn_extra (length fields) (length format_tags) ++ warn_tags d.0.unsupported_tags),
      )

  pub parse_match : Text → List Text → Match → ParsedStarlinkFrame js
  parse_match trimmed format_tags m =
      let header = header_of_match m in
      let d = parse_event_report m.content format_tags in
      let is_report = is_whole header.message_type event_report_message_type in
      record {
        header = header;
        report = if is_report then some d.0 else none;
        warnings = if is_report then d.1 else type_not_decoded header.message_type ∷ [];
        raw_line = trimmed;
        raw_data = m.content;
      }

  -- What stands behind `FRAME_PATTERN.exec(trimmed)`.
  abbrev pub match_or_throw :
      List Text → Text → Option Match → Result StarlinkError (ParsedStarlinkFrame js)
  match_or_throw format_tags trimmed none = err (no_frame_format (take 80 trimmed))
  match_or_throw format_tags trimmed (some m) = ok (parse_match trimmed format_tags m)

  pub parse_trimmed : List Text → Text → Result StarlinkError (ParsedStarlinkFrame js)
  parse_trimmed format_tags [] = err empty_line
  parse_trimmed format_tags (c ∷ trimmed) =
      match_or_throw format_tags (c ∷ trimmed) (match_frame (c ∷ trimmed))

  unfoldable pub parse_line : Text → List Text → Result StarlinkError (ParsedStarlinkFrame js)
  parse_line line format_tags = parse_trimmed format_tags (trim line)
