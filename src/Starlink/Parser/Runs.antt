-- ===== src/Starlink/Parser/Runs.antt =====
-- The parser at concrete lines, with whole numbers in place of JavaScript's doubles.
use avt_tracker.Base.{true, ℕ, ◌+◌, ◌*◌, ◌≡◌, [], ◌∷◌, refl, none, some, arith, List, ◌++◌}
use avt_tracker.Base.Exec.{ok}
use avt_tracker.Base.Int.{pos}
use avt_tracker.Base.Text.{leading_value, is_digit, Text, codes, split_on}
use avt_tracker.Starlink.Codec.{
  is_twelve_digits, parse_starlink_date_time, finite, skip_space, parse_signed, parse_int,
  parse_strict_int, parse_strict_float, not_a_number, is_space, Floats, parse_digits,
}
use avt_tracker.Starlink.Events.{get_starlink_alarm, get_starlink_event_name}
use avt_tracker.Starlink.Parser.{
  StarlinkReportPayload, ignition_of_event, put_event, apply_tag, warn_tags, apply_field,
  warn_extra, apply_fields, parse_event_report, parse_line,
}
use avt_tracker.Starlink.Parser.Lines.{
  IsSafe, one_character, expected_frame, BuildStarlinkLineOptions, build_starlink_line,
  parse_line-build_starlink_line,
}
use avt_tracker.Starlink.Parser.Tags.{
  is_given, unsupported_in, not_decoded, warnings-parse_event_report,
}
use avt_tracker.Starlink.Pattern.{is_line_terminator, is_hex}
use avt_tracker.Starlink.Pattern.Matches.{six_hex}
use avt_tracker.Starlink.Payload.{unsupported_tags_left, extra_fields, tag_not_decoded, new_payload}

abbrev pub whole_numbers : Floats
whole_numbers = record {
  Num = ℕ;
  parse_float = parse_digits;
  degrees_plus_minutes = λ degrees minutes. degrees + minutes;
  negate = λ n. n;
  round_thousand = λ n. n * 1000;
  whole = λ n. finite n;
  whole_safe = λ n safe. refl;
}

abbrev pub two_tags : List Text
two_tags = codes "#EID#" ∷ codes "#SPD#" ∷ codes "#FUEL#" ∷ []

abbrev pub event : BuildStarlinkLineOptions
event = record {
  head = none;
  device_id = codes "0A1B2C";
  message_type = 6;
  message_index = 77;
  content = codes "24,x,9,";
  checksum_hex = some (codes "F0");
}

pub event-IsSafe : IsSafe event
event-IsSafe = record { type_safe = omega arith; index_safe = omega arith }

parse_line-build_starlink_line_example :
    parse_line whole_numbers (build_starlink_line event) two_tags
    ≡ ok (expected_frame whole_numbers event two_tags)
parse_line-build_starlink_line_example =
    parse_line-build_starlink_line whole_numbers event (unfold is_hex is_digit in six_hex refl refl)
      (omega arith) (unfold is_line_terminator in refl) refl (unfold is_hex is_digit in refl)
      two_tags event-IsSafe (unfold is_space in one_character b'!' refl refl)

warnings-parse_event_report_example :
    ((parse_event_report whole_numbers (codes "24,x,9,") two_tags).1
      ≡ not_decoded whole_numbers (split_on b',' (codes "24,x,9,")) two_tags
        ++ (warn_extra whole_numbers 4 3
            ++ warn_tags whole_numbers
                (unsupported_in whole_numbers (split_on b',' (codes "24,x,9,")) two_tags)))
    × ((value : Text) (p : StarlinkReportPayload whole_numbers)
        → (apply_tag whole_numbers (codes "#EDT#") value p
            ≡ ok (record p { device_time = some (parse_starlink_date_time value) }))
          × (apply_tag whole_numbers (codes "#PDT#") value p
              ≡ ok (record p { fix_time = some (parse_starlink_date_time value) })))
    × ((value : Text) → is_given (parse_starlink_date_time value) ≡ is_twelve_digits value)
warnings-parse_event_report_example =
    warnings-parse_event_report whole_numbers (codes "24,x,9,") two_tags

-- Event 24 turns the ignition on; a speed that is no number, a tag outside the format and a field
-- without a tag are warned of.
mixed : parse_event_report whole_numbers (codes "24,x,9,") two_tags ≡ (
  record (new_payload whole_numbers) {
    event_id = some (pos 24);
    event_name = some (codes "Ignition On");
    ignition = some true;
    unsupported_tags = codes "#FUEL#" ∷ [];
  },
  tag_not_decoded (codes "#SPD#") (codes "x") (not_a_number (codes "x"))
      ∷ extra_fields 4 3
      ∷ unsupported_tags_left (codes "#FUEL#" ∷ [])
      ∷ [],
)
unfolding parse_event_report apply_fields apply_field apply_tag put_event parse_strict_float
    parse_digits is_digit parse_strict_int parse_int parse_signed skip_space is_space leading_value
    get_starlink_event_name get_starlink_alarm ignition_of_event
mixed = refl
