-- ===== src/Starlink/Parser/Lines.antt =====
-- A line of src/starlink/parser/test-fixtures.ts through the parser.
use avt_tracker.Base.{
  ◌≤◌, if◌then◌else◌, ◌==◌, List, not, Option, all_true, ℕ, ◌<◌, ◌≡◌, [], ◌∷◌, ◌++◌, arith, true,
  false, some, none, length, refl,
}
use avt_tracker.Base.Text.{is_digit, Text, codes, decimal}
use avt_tracker.Base.Text.Decimal.{digits-decimal, length-decimal_pos, leading_value-decimal}
use avt_tracker.Starlink.Codec.{max_safe_integer, finite, is_space, skip_space, Floats}
use avt_tracker.Starlink.Parser.{
  ok, parse_trimmed, parse_line, header_of_match, match_frame, Match, head_text, parse_match,
  parse_event_report, trim, trim_end,
}
use avt_tracker.Starlink.Pattern.{is_hex, is_line_terminator}
use avt_tracker.Starlink.Pattern.Matches.{
  match_frame-head, match_frame-body, matched, IsDeviceId, body,
}
use avt_tracker.Starlink.Payload.{type_not_decoded, event_report_message_type, ParsedStarlinkFrame}

-- The two numbers are whole; `IsSafe` bounds them where a line is built.
pub record BuildStarlinkLineOptions : Type 0 where
  pub head : Option Text
  pub device_id : Text
  pub message_type : ℕ
  pub message_index : ℕ
  pub content : Text
  pub checksum_hex : Option Text

-- `options.head ?? '!'`
abbrev pub head_or_mark : Option Text → Text
head_or_mark none = codes "!"
head_or_mark (some head) = head

-- `options.checksumHex ?? '00'`
abbrev pub checksum_or_zero : Option Text → Text
checksum_or_zero none = codes "00"
checksum_or_zero (some checksum) = checksum

-- `buildStarlinkLine`: up to `Number.MAX_SAFE_INTEGER` a number is printed with all its digits.
abbrev pub build_starlink_line : BuildStarlinkLineOptions → Text
build_starlink_line options =
    head_or_mark options.head
    ++ (codes "SLU"
        ++ (options.device_id
            ++ (b','
                ∷ (decimal options.message_type
                    ++ (b','
                        ∷ (decimal options.message_index
                            ++ (b','
                                ∷ (options.content
                                    ++ (b'*' ∷ checksum_or_zero options.checksum_hex)))))))))

-- The two numbers are ones that a double holds.
pub record IsSafe (options : BuildStarlinkLineOptions) : Type 0 where
  pub type_safe : options.message_type ≤ max_safe_integer
  pub index_safe : options.message_index ≤ max_safe_integer

-- No character, or one that is neither white space nor a line terminator.
pub data IsHead (text : Text) : Type 0 where
  no_head : text ≡ [] → IsHead text
  one_character : (c : ℕ) → text ≡ c ∷ [] → is_space c ≡ false → IsHead text

-- The text ends in a character that `trim` keeps.
data IsClosed (text : Text) : Type 0 where
  closed : 0 < length text → trim_end text ≡ text → IsClosed text

closed-cons : (c : ℕ) (text : Text) → IsClosed text → IsClosed (c ∷ text)
unfolding trim_end
closed-cons c [] (closed pos e) = elim pos [ ]
closed-cons c (d ∷ text) (closed pos e) = closed (omega arith) (rw e refl)

closed-append : (xs text : Text) → IsClosed text → IsClosed (xs ++ text)
closed-append [] text h = h
closed-append (x ∷ xs) text h = closed-cons x (xs ++ text) (closed-append xs text h)

IsHex-not_space : (c : ℕ) → is_hex c ≡ true → is_space c ≡ false
unfolding is_hex is_space is_digit
IsHex-not_space c h = ground arith

closed-checksum : (text : Text) → length text ≡ 2 → all_true is_hex text ≡ true → IsClosed text
closed-checksum [] size h = let none_there : 0 < 0 = omega arith in elim none_there [ ]
closed-checksum (a ∷ []) size h = let none_there : 0 < 0 = omega arith in elim none_there [ ]
closed-checksum (a ∷ b ∷ []) size h =
    let last : is_space b ≡ false = IsHex-not_space b (ground arith) in
    closed-cons a (b ∷ []) (closed (omega arith) (unfold trim_end in rw last refl))
closed-checksum (a ∷ b ∷ c ∷ text) size h =
    let none_there : 0 < 0 = omega arith in elim none_there [ ]

trim-closed :
    (c : ℕ) (text : Text) → is_space c ≡ false → IsClosed (c ∷ text) → trim (c ∷ text) ≡ c ∷ text
unfolding trim skip_space
trim-closed c text h (closed pos e) = rw h e

not_terminator : (c : ℕ) → is_space c ≡ false → is_line_terminator c ≡ false
unfolding is_space is_line_terminator
not_terminator c h = ground arith

parse_line-match :
    (c : ℕ) (text : Text) (m : Match) (js : Floats) (tags : List Text)
    → is_space c ≡ false
    → IsClosed (c ∷ text)
    → match_frame (c ∷ text) ≡ some m
    → parse_line js (c ∷ text) tags ≡ ok (parse_match js (c ∷ text) tags m)
unfolding parse_line parse_trimmed
parse_line-match c text m js tags h closed_text matches =
    rw (trim-closed c text h closed_text, matches) refl

-- What the parser makes of a line that the options describe.
module _ (js : Floats) where
  unfoldable pub expected_frame : BuildStarlinkLineOptions → List Text → ParsedStarlinkFrame js
  expected_frame options tags =
      let d = parse_event_report js options.content tags in
      let is_report = options.message_type == event_report_message_type in
      record {
        header = record {
          head = head_or_mark options.head;
          device_id = options.device_id;
          message_type = finite options.message_type;
          message_index = finite options.message_index;
          checksum_hex = checksum_or_zero options.checksum_hex;
        };
        report = if is_report then some d.0 else none;
        warnings = if is_report then d.1 else type_not_decoded (finite options.message_type) ∷ [];
        raw_line = build_starlink_line options;
        raw_data = options.content;
      }

module _ (js : Floats) (options : BuildStarlinkLineOptions) (id_form : IsDeviceId options.device_id)
    (content_pos : 0 < length options.content)
    (content_plain : all_true (λ c. not (is_line_terminator c)) options.content ≡ true)
    (checksum_size : length (checksum_or_zero options.checksum_hex) ≡ 2)
    (checksum_hex : all_true is_hex (checksum_or_zero options.checksum_hex) ≡ true) where
  closed-body : IsClosed (
      body options.device_id
        (decimal options.message_type)
        (decimal options.message_index)
        options.content
        (checksum_or_zero options.checksum_hex))
  closed-body = closed-append (codes "SLU") _ (
      closed-append options.device_id _ (
        closed-append (b',' ∷ decimal options.message_type) _ (
          closed-append (b',' ∷ decimal options.message_index) _ (
            closed-append (b',' ∷ options.content) _ (
              closed-cons b'*' _ (
                closed-checksum (checksum_or_zero options.checksum_hex) checksum_size
                  checksum_hex))))))

  found : Option ℕ → Match
  found head =
      matched (decimal options.message_type) (decimal options.message_index) options.content
        (checksum_or_zero options.checksum_hex) head options.device_id

  parse_match-found :
      (head : Option ℕ) (tags : List Text)
      → IsSafe options
      → head_or_mark options.head ≡ head_text head
      → parse_match js (build_starlink_line options) tags (found head)
        ≡ expected_frame js options tags
  unfolding parse_match header_of_match expected_frame found
  parse_match-found head tags safe same =
      rw
        (
          leading_value-decimal options.message_type,
          leading_value-decimal options.message_index,
          js.whole_safe options.message_type safe.type_safe,
          js.whole_safe options.message_index safe.index_safe,
          ← same,
        )
        refl

  match_fields_of :
      (match_frame (
          body options.device_id
            (decimal options.message_type)
            (decimal options.message_index)
            options.content
            (checksum_or_zero options.checksum_hex))
        ≡ some (found none))
      × ((c : ℕ)
          → is_line_terminator c ≡ false
          → match_frame (
              c
              ∷ body options.device_id
                  (decimal options.message_type)
                  (decimal options.message_index)
                  options.content
                  (checksum_or_zero options.checksum_hex))
            ≡ some (found (some c)))
  unfolding found
  match_fields_of = (
    match_frame-body options.device_id (decimal options.message_type)
        (decimal options.message_index) options.content (checksum_or_zero options.checksum_hex)
        id_form (length-decimal_pos options.message_type) (digits-decimal options.message_type)
        (length-decimal_pos options.message_index) (digits-decimal options.message_index)
        content_pos content_plain checksum_size checksum_hex,
    match_frame-head options.device_id (decimal options.message_type)
        (decimal options.message_index) options.content (checksum_or_zero options.checksum_hex)
        id_form (length-decimal_pos options.message_type) (digits-decimal options.message_type)
        (length-decimal_pos options.message_index) (digits-decimal options.message_index)
        content_pos content_plain checksum_size checksum_hex,
  )

  -- A line that the fixtures build from a device id of the expected form, a type and an index up to
  -- `Number.MAX_SAFE_INTEGER`, some data without line terminators and a checksum of two hexadecimal
  -- digits parses, without or behind one head
  -- character that is no white space: the header, the data and the line are those that it was
  -- built from, and the report is there exactly for message type 6.
  pub parse_line-build_starlink_line :
      (tags : List Text)
      → IsSafe options
      → IsHead (head_or_mark options.head)
      → parse_line js (build_starlink_line options) tags ≡ ok (expected_frame js options tags)
  unfolding found
  parse_line-build_starlink_line tags safe (no_head e) =
      let s_kept : is_space b'S' ≡ false = unfold is_space in refl in
      rw (← parse_match-found none tags safe e, e)
        (parse_line-match b'S' _ (found none) js tags s_kept closed-body match_fields_of.0)
  parse_line-build_starlink_line tags safe (one_character c e kept) =
      rw (← parse_match-found (some c) tags safe e, e)
        (parse_line-match c _ (found (some c)) js tags kept (closed-cons c _ closed-body)
          (match_fields_of.1 c (not_terminator c kept)))
