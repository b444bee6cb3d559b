-- ===== src/Tracker/Parser/Total.antt =====
-- Which frames `parseFrame` decodes, and what it makes of one that is laid out field by field.
use avt_tracker.Base.{
  length-drop, length-take, take-append-drop, sym, drop, take, some, none, ◌*◌, inr, inl, ◌||◌,
  ◌==◌, ◌∙◌, Bool-cases, ap, Option, length, ℕ, ◌+◌, ◌-◌, ◌≡◌, ◌≤◌, List, [], ◌∷◌, ◌++◌, refl,
  arith,
}
use avt_tracker.Base.Exec.{ok}
use avt_tracker.Base.Int.{ℤ}
use avt_tracker.Base.Text.{hex_text, Text}
use avt_tracker.Tracker.Ascii.{Doubles}
use avt_tracker.Tracker.Codec.Dates.{date_utc, decode_g_time}
use avt_tracker.Tracker.Codec.Imei.{imei_decodes}
use avt_tracker.Tracker.Header.{parse_header, read_head_token, TrackerFrameHeader}
use avt_tracker.Tracker.Header.Fields.{length-section, parse_header-section, section_of}
use avt_tracker.Tracker.Parser.{
  cursor_on, first_warnings, TrackerFrameKind, resolve_kind, decode_data_zone, ParsedTrackerFrame,
  Scan, Warning, binary_section, finish, parse_frame, parse_with_token,
}

-- The field decoders accept every byte string of their width.
g_time_decodes : (bytes : List ℕ) → length bytes ≡ 7 → (t : Option ℤ) × (decode_g_time bytes ≡ ok t)
unfolding decode_g_time
g_time_decodes (y1 ∷ y0 ∷ month ∷ day ∷ hour ∷ minute ∷ second ∷ []) h =
    elim (Bool-cases (y1 * 256 + y0 == 0 || month == 0 || day == 0)) [
      | inl e ↦ (none, rw e)
      | inr e ↦ (some (date_utc (y1 * 256 + y0) (month - 1) day hour minute second), rw e)
    ]
g_time_decodes [] h = absurd (omega arith)
g_time_decodes (a ∷ []) h = absurd (omega arith)
g_time_decodes (a ∷ b ∷ []) h = absurd (omega arith)
g_time_decodes (a ∷ b ∷ c ∷ []) h = absurd (omega arith)
g_time_decodes (a ∷ b ∷ c ∷ d ∷ []) h = absurd (omega arith)
g_time_decodes (a ∷ b ∷ c ∷ d ∷ e ∷ []) h = absurd (omega arith)
g_time_decodes (a ∷ b ∷ c ∷ d ∷ e ∷ f ∷ []) h = absurd (omega arith)
g_time_decodes (a ∷ b ∷ c ∷ d ∷ e ∷ f ∷ g ∷ i ∷ xs) h = absurd (omega arith)

-- A binary section of 20 bytes or more has its fields at fixed places from both ends.
record Placed (section : List ℕ) : Type 0 where
  len : List ℕ
  imei : List ℕ
  device : ℕ
  zone : List ℕ
  time : List ℕ
  serial : List ℕ
  parts : section ≡ section_of len imei device zone time serial
  len_size : length len ≡ 2
  imei_size : length imei ≡ 8
  time_size : length time ≡ 7
  serial_size : length serial ≡ 2

-- The first `n` elements of a list, and the others.
record Parted (n : ℕ) (xs : List ℕ) : Type 0 where
  front : List ℕ
  back : List ℕ
  whole : xs ≡ front ++ back
  front_size : length front ≡ n
  back_size : length back + n ≡ length xs

cut : (n : ℕ) (xs : List ℕ) → n ≤ length xs → Parted n xs
cut n xs h = record {
  front = take n xs;
  back = drop n xs;
  whole = sym (take-append-drop n xs);
  front_size = omega (arith, length-take n xs);
  back_size = omega (arith, length-drop n xs);
}

record Ending (xs : List ℕ) : Type 0 where
  zone : List ℕ
  time : List ℕ
  serial : List ℕ
  parts : xs ≡ zone ++ (time ++ serial)
  time_size : length time ≡ 7
  serial_size : length serial ≡ 2

tail_parts :
    (xs : List ℕ) (n : ℕ) (a : Parted n xs) (b : Parted 7 a.back) → length xs ≡ n + 9 → Ending xs
tail_parts xs n a b h = record {
  zone = a.front;
  time = b.front;
  serial = b.back;
  parts = a.whole ∙ ap (λ (t : List ℕ). a.front ++ t) b.whole;
  time_size = b.front_size;
  serial_size = omega arith;
}

tail_cut : (xs : List ℕ) (n : ℕ) → Parted n xs → length xs ≡ n + 9 → Ending xs
tail_cut xs n a h = tail_parts xs n a (cut 7 a.back (omega arith)) h

tail_of : (xs : List ℕ) → 9 ≤ length xs → Ending xs
tail_of xs h = tail_cut xs (length xs - 9) (cut (length xs - 9) xs (omega arith)) (omega arith)

fields_parts :
    (section : List ℕ) (a : Parted 2 section) (b : Parted 8 a.back) (device : ℕ) (rest : List ℕ)
    → b.back ≡ device ∷ rest
    → Ending rest
    → Placed section
fields_parts section a b device rest e t = record {
  len = a.front;
  imei = b.front;
  device = device;
  zone = t.zone;
  time = t.time;
  serial = t.serial;
  parts =
      a.whole
      ∙ ap (λ (u : List ℕ). a.front ++ u)
          (b.whole
            ∙ ap (λ (u : List ℕ). b.front ++ u) (e ∙ ap (λ (u : List ℕ). device ∷ u) t.parts));
  len_size = a.front_size;
  imei_size = b.front_size;
  time_size = t.time_size;
  serial_size = t.serial_size;
}

fields_cons :
    (section : List ℕ) (a : Parted 2 section) (b : Parted 8 a.back) (rest : List ℕ)
    → b.back ≡ rest
    → 10 ≤ length rest
    → Placed section
fields_cons section a b [] e h = absurd (omega arith)
fields_cons section a b (device ∷ rest) e h =
    fields_parts section a b device rest e (tail_of rest (omega arith))

fields_cut : (section : List ℕ) (a : Parted 2 section) → 18 ≤ length a.back → Placed section
fields_cut section a h =
    let b = cut 8 a.back (omega arith) in
    fields_cons section a b b.back refl (let size = b.back_size in omega arith)

fields_of : (section : List ℕ) → 20 ≤ length section → Placed section
fields_of section h =
    let a = cut 2 section (omega arith) in
    fields_cut section a (let size = a.back_size in omega arith)

record HeaderOf (token : Text) (kind : TrackerFrameKind) (section : List ℕ) (ws : List Warning)
    : Type 0 where
  header : TrackerFrameHeader
  scan : Scan
  parsed :
      parse_header token kind
        (length section)
        (record { cursor = cursor_on section; warnings = ws })
      ≡ (ok header, scan)
  zone_size : header.computed_data_zone_length + 20 ≡ length section

header_parts :
    (token : Text) (kind : TrackerFrameKind) (ws : List Warning) (len imei : List ℕ) (device : ℕ)
    (zone time serial : List ℕ)
    → length len ≡ 2
    → length imei ≡ 8
    → length time ≡ 7
    → length serial ≡ 2
    → HeaderOf token kind (section_of len imei device zone time serial) ws
header_parts token kind ws len imei device zone time serial n1 n2 n3 n4 =
    let (text, et) = imei_decodes imei n2 in
    let (instant, ei) = g_time_decodes time n3 in
    record {
      header = _;
      scan = _;
      parsed =
          parse_header-section len imei device zone time serial n1 n2 n3 n4 token kind ws text
            instant et ei;
      zone_size = omega (arith, length-section len imei device zone time serial n1 n2 n3 n4);
    }

header_of :
    (token : Text) (kind : TrackerFrameKind) (ws : List Warning) (section : List ℕ)
    → Placed section
    → HeaderOf token kind section ws
header_of token kind ws section f = rw f.parts (
    header_parts token kind ws f.len f.imei f.device f.zone f.time f.serial f.len_size f.imei_size
      f.time_size f.serial_size)

module _ (js : Doubles) where
  -- What comes of a frame with a head token, the fields of `section` behind it, and '#'.
  abbrev pub decoded :
      List ℕ → Text → TrackerFrameHeader → List ℕ → List Warning → ParsedTrackerFrame js
  decoded frame token header zone ws =
      let out = decode_data_zone js header.kind zone ws in
      record {
        header = header;
        content = out.0;
        warnings = out.1;
        raw_hex = hex_text frame;
        data_zone_hex = hex_text zone;
      }

  pub parse_frame-token :
      (frame : List ℕ) (token : Text)
      → read_head_token frame ≡ ok token
      → parse_frame js frame ≡ parse_with_token js frame (ok token)
  unfolding parse_frame
  parse_frame-token [] token e = unfold read_head_token in cc
  parse_frame-token (b ∷ frame) token e = rw e

  finish_total :
      (frame : List ℕ) (token : Text) (header : TrackerFrameHeader) (s : Scan)
      → (p : ParsedTrackerFrame js) × (finish js frame token (ok header, s) ≡ ok p)
        × (p.header ≡ header)
  unfolding finish
  finish_total frame token header s = (_, refl, refl)

  parsed_total :
      (frame : List ℕ) (token : Text) (f : Placed (binary_section frame token))
      → (p : ParsedTrackerFrame js) × (parse_with_token js frame (ok token) ≡ ok p)
        × (p.header.computed_data_zone_length + 20 ≡ length (binary_section frame token))
  unfolding parse_with_token
  parsed_total frame token f =
      let h =
        header_of token (resolve_kind token) (first_warnings frame) (binary_section frame token)
          f in
      let (p, done, same) = finish_total frame token h.header h.scan in
      (p, rw h.parsed done, rw same h.zone_size)

  -- A frame with ':' among its first eight bytes and at least 20 bytes between its head token and
  -- its end (a last '#' not counted) is always decoded, whatever those bytes are: no error leaves
  -- `parseFrame`. All of them but 20 are the data zone.
  pub parse_frame_total :
      (frame : List ℕ) (token : Text)
      → read_head_token frame ≡ ok token
      → 20 ≤ length (binary_section frame token)
      → (p : ParsedTrackerFrame js) × (parse_frame js frame ≡ ok p)
        × (p.header.computed_data_zone_length + 20 ≡ length (binary_section frame token))
  parse_frame_total frame token e long =
      rw (parse_frame-token frame token e) (parsed_total frame token (fields_of _ long))
