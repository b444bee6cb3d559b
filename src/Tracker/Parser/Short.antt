-- ===== src/Tracker/Parser/Short.antt =====
-- Frames that `parseFrame` refuses.
use avt_tracker.Base.{length, true, ltb, ℕ, ◌≡◌, ◌<◌, List, [], ◌∷◌, refl, arith}
use avt_tracker.Base.Exec.{ok, continue, err, ◌>>=◌, Exec, Result}
use avt_tracker.Tracker.Ascii.{Doubles}
use avt_tracker.Tracker.Cursor.{read_uint8, read_uint16_be}
use avt_tracker.Tracker.Decode.{on_cursor}
use avt_tracker.Tracker.Errors.{frame_too_short, empty_frame, Error}
use avt_tracker.Tracker.Header.{
  read_imei, TrackerFrameHeader, read_head_token, data_zone_length, parse_header,
}
use avt_tracker.Tracker.Kinds.{resolve_kind, TrackerFrameKind}
use avt_tracker.Tracker.Parser.{
  first_warnings, cursor_on, binary_section, Scan, Text, finish, parse_frame, parse_with_token,
}
use avt_tracker.Tracker.Parser.Total.{parse_frame-token}

-- Every run ends in an error.
record Fails {S A : Type 0} (m : Exec Error S A) : Type 0 where
  at : (s : S) → (e : Error) × ((m s).0 ≡ err e)

module _ {S A B : Type 0} where
  continue-Fails :
      (r : Result Error A) (f : A → Exec Error S B) (s : S)
      → ((a : A) → Fails (f a))
      → (e : Error) × ((continue r f s).0 ≡ err e)
  continue-Fails (ok a) f s h = (h a).at s
  continue-Fails (err e) f s h = (e, refl)

  Fails-later :
      (m : Exec Error S A) (f : A → Exec Error S B) → ((a : A) → Fails (f a)) → Fails (m >>= f)
  Fails-later m f h = record { at = λ s. continue-Fails (m s).0 f (m s).1 h }

  failed-continue :
      (r : Result Error A) (f : A → Exec Error S B) (s : S) (e : Error)
      → r ≡ err e
      → (continue r f s).0 ≡ err e
  failed-continue r f s e h = rw h

  Fails-first : (m : Exec Error S A) (f : A → Exec Error S B) → Fails m → Fails (m >>= f)
  Fails-first m f h = record {
    at = λ s. let (e, q) = h.at s in (e, failed-continue (m s).0 f (m s).1 e q);
  }

zone_length-Fails :
    (kind : TrackerFrameKind) (size : ℕ) → size < 20 → Fails (data_zone_length kind size)
zone_length-Fails kind size h = record {
  at = λ s. let short : ltb size 20 ≡ true = ground arith in (frame_too_short kind size, rw short);
}

header-Fails :
    (token : Text) (kind : TrackerFrameKind) (size : ℕ)
    → size < 20
    → Fails (parse_header token kind size)
unfolding parse_header
header-Fails token kind size h = Fails-later (on_cursor read_uint16_be) _ λ declared.
    Fails-later (on_cursor read_imei) _ λ imei.
      Fails-later (on_cursor read_uint8) _
        λ device. Fails-first (data_zone_length kind size) _ (zone_length-Fails kind size h)

module _ (js : Doubles) where
  finish-fails :
      (frame : List ℕ) (token : Text) (r : Result Error TrackerFrameHeader) (s : Scan) (e : Error)
      → r ≡ err e
      → finish js frame token (r, s) ≡ err e
  unfolding finish
  finish-fails frame token r s e h = rw h

  -- A frame with a head token and fewer than 20 bytes between it and the end (a last '#' not
  -- counted) makes `parseFrame` throw.
  pub parse_frame_short :
      (frame : List ℕ) (token : Text)
      → read_head_token frame ≡ ok token
      → length (binary_section frame token) < 20
      → (e : Error) × (parse_frame js frame ≡ err e)
  unfolding parse_with_token
  parse_frame_short frame token h short =
      let section = binary_section frame token in
      let start : Scan = record { cursor = cursor_on section; warnings = first_warnings frame } in
      let m = parse_header token (resolve_kind token) (length section) in
      let (e, q) = (header-Fails token (resolve_kind token) (length section) short).at start in
      (
        e,
        rw (parse_frame-token js frame token h)
            (finish-fails frame token (m start).0 (m start).1 e q),
      )

  -- Without a colon, or with the first one past the eighth byte, it throws too.
  pub parse_frame_headless :
      (frame : List ℕ) (e : Error)
      → read_head_token frame ≡ err e
      → (e' : Error) × (parse_frame js frame ≡ err e')
  unfolding parse_frame parse_with_token
  parse_frame_headless [] e h = (empty_frame, refl)
  parse_frame_headless (b ∷ frame) e h = (e, rw h)
