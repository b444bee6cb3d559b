-- ===== src/Tracker/Header/Fields.antt =====
-- `parseHeader` on a binary section that is laid out field by field.
use avt_tracker.Base.{
  inr, inl, ◌∙◌, Bool-cases, append-nil, false, ltb, Option, ◌==◌, if◌then◌else◌, length-append,
  drop, length, ℕ, ◌+◌, ◌-◌, ◌≡◌, List, [], ◌∷◌, ◌++◌, refl, arith,
}
use avt_tracker.Tracker.Cursor.{Cursor, read_uint_be, be_value, cursor_on}
use avt_tracker.Tracker.Cursor.Reads.{next_skip, next-IsAt, next_bytes, next_uint, moved, IsAt}
use avt_tracker.Tracker.Errors.{length_mismatch, Warning}
use avt_tracker.Tracker.Header.{
  check_declared, read_g_time, read_imei, hex_text, decode_g_time, ok, decode_imei, ℤ,
  TrackerFrameKind, Text, parse_header,
}

-- Length, IMEI, DeviceID, data zone, GTime and SN, one after the other.
abbrev pub section_of : List ℕ → List ℕ → ℕ → List ℕ → List ℕ → List ℕ → List ℕ
section_of len imei device zone time serial =
    len ++ (imei ++ ((device ∷ []) ++ (zone ++ (time ++ serial))))

abbrev pub mismatch : ℕ → ℕ → List Warning
mismatch declared expected =
    if declared == expected then [] else length_mismatch declared expected ∷ []

module _ (len imei : List ℕ) (device : ℕ) (zone time serial : List ℕ) (len_size : length len ≡ 2)
    (imei_size : length imei ≡ 8) (time_size : length time ≡ 7)
    (serial_size : length serial ≡ 2) where
  abbrev section : List ℕ
  section = section_of len imei device zone time serial

  pub length-section : length section ≡ length zone + 20
  length-section = omega (
    arith,
    length-append len (imei ++ ((device ∷ []) ++ (zone ++ (time ++ serial)))),
    length-append imei ((device ∷ []) ++ (zone ++ (time ++ serial))),
    length-append zone (time ++ serial),
    length-append time serial,
  )

  abbrev c0 : Cursor
  c0 = cursor_on section

  at0 : IsAt c0 section
  at0 = record { ahead = refl; inside = omega arith }

  at1 : IsAt (moved 2 c0) (imei ++ ((device ∷ []) ++ (zone ++ (time ++ serial))))
  at1 = next-IsAt c0 2 len _ len_size at0

  at2 : IsAt (moved 8 (moved 2 c0)) ((device ∷ []) ++ (zone ++ (time ++ serial)))
  at2 = next-IsAt _ 8 imei _ imei_size at1

  at3 : IsAt (moved 1 (moved 8 (moved 2 c0))) (zone ++ (time ++ serial))
  at3 = next-IsAt _ 1 (device ∷ []) _ refl at2

  pub zone_behind : drop 11 section ≡ zone ++ (time ++ serial)
  zone_behind = at3.ahead

  at4 : IsAt (moved (length zone) (moved 1 (moved 8 (moved 2 c0)))) (time ++ serial)
  at4 = next-IsAt _ (length zone) zone _ refl at3

  at5 : IsAt (moved 7 (moved (length zone) (moved 1 (moved 8 (moved 2 c0))))) (serial ++ [])
  at5 = rw (append-nil serial) (next-IsAt _ 7 time serial time_size at4)

  read_device : read_uint_be 1 (moved 8 (moved 2 c0)) ≡ (ok device, moved 1 (moved 8 (moved 2 c0)))
  read_device =
      let e : be_value (device ∷ []) ≡ device = omega arith in
      next_uint _ 1 (device ∷ []) _ refl at2 refl ∙ rw e

  read_imei_lem :
      (text : Text)
      → decode_imei imei ≡ ok text
      → read_imei (moved 2 c0) ≡ (ok text, moved 8 (moved 2 c0))
  unfolding read_imei
  read_imei_lem text e = rw (next_bytes (moved 2 c0) 8 imei _ imei_size at1, e)

  read_g_time_lem :
      (instant : Option ℤ)
      → decode_g_time time ≡ ok instant
      → read_g_time (moved (length zone) (moved 1 (moved 8 (moved 2 c0))))
        ≡ (ok instant, moved 7 (moved (length zone) (moved 1 (moved 8 (moved 2 c0)))))
  unfolding read_g_time
  read_g_time_lem instant e =
      rw (
        next_bytes (moved (length zone) (moved 1 (moved 8 (moved 2 c0)))) 7 time _ time_size at4,
        e,
      )

  check_declared_lem :
      (declared expected : ℕ) (c : Cursor) (ws : List Warning)
      → check_declared declared expected (record { cursor = c; warnings = ws })
        ≡ (ok tt, record { cursor = c; warnings = ws ++ mismatch declared expected })
  check_declared_lem declared expected c ws = elim (Bool-cases (declared == expected)) [
    | inl e ↦ rw (e, append-nil)
    | inr e ↦ rw e
  ]

  -- Each field is read from its place, whatever the token; the only warning is a wrong Length.
  pub parse_header-section :
      (token : Text) (kind : TrackerFrameKind) (ws : List Warning) (text : Text)
      (instant : Option ℤ)
      → decode_imei imei ≡ ok text
      → decode_g_time time ≡ ok instant
      → parse_header token kind
          (length section)
          (record { cursor = cursor_on section; warnings = ws })
        ≡ (
          ok (record {
            kind = kind;
            head_token = token;
            declared_length = be_value len;
            computed_data_zone_length = length zone;
            imei = text;
            device_id = device;
            generated_at = instant;
            serial_number_hex = hex_text serial;
            serial_number = be_value serial;
          }),
          record {
            cursor = record { buf = section; offset = length section };
            warnings = ws ++ mismatch (be_value len) (length section - 2);
          },
        )
  unfolding parse_header
  parse_header-section token kind ws text instant ei et =
      let long : ltb (length section) 20 ≡ false = ground (arith, length-section) in
      let size : length section - 11 - 9 ≡ length zone = omega (arith, length-section) in
      let end : 0 + 2 + 8 + 1 + length zone + 7 + 2 ≡ length section =
        omega (arith, length-section) in
      rw (
        next_uint c0 2 len _ len_size at0 refl,
        read_imei_lem text ei,
        read_device,
        long,
        size,
        check_declared_lem (be_value len) (length section - 2),
        next_skip _ (length zone) zone _ refl at3,
        read_g_time_lem instant et,
        next_bytes _ 2 serial _ serial_size at5,
        end,
      )
