-- ===== src/Tracker/Codec.antt =====
-- src/tracker/parser/utils/binary-codec.util.ts: the decoders of single fields. Shifts and masks
-- of bytes are written as quotients and remainders by powers of two.
pub mod Dates
pub mod Imei
pub mod Dtc
pub mod Runs
use avt_tracker.Base.{
  ◌==◌, length, not, get_or, if◌then◌else◌, ◌^◌, Bool, ℕ, zero, suc, ◌+◌, ◌-◌, ◌*◌, ◌/◌, ◌%◌, List,
  [], ◌∷◌, ◌++◌, ◌≡◌,
}
use avt_tracker.Base.Exec.{Result, ok, err}
use avt_tracker.Base.Text.{Text, decimal, pad_start2, hex_digit}
use avt_tracker.Tracker.Errors.{
  dtc_size, imei_size, version_size, extended_hms_size, short_hms_size, Error,
}

-- The two-digit texts of the first `n` bytes.
imei_pairs : ℕ → List ℕ → Text
imei_pairs zero bytes = []
imei_pairs (suc n) [] = []
imei_pairs (suc n) (b ∷ bytes) = pad_start2 (decimal b) ++ imei_pairs n bytes

unfoldable pub decode_imei : List ℕ → Result Error Text
unfolding imei_pairs
decode_imei bytes =
    if length bytes == 8
    then ok (imei_pairs 7 bytes ++ decimal (get_or bytes 7 0 % 10))
    else err (imei_size (length bytes))

unfoldable pub format_protocol_version : List ℕ → Result Error Text
format_protocol_version bytes =
    if length bytes == 2
    then ok (decimal (get_or bytes 0 0) ++ (b'.' ∷ pad_start2 (decimal (get_or bytes 1 0))))
    else err (version_size (length bytes))

-- HH:MM:SS as seconds.
unfoldable pub decode_short_hms : List ℕ → Result Error ℕ
decode_short_hms (hours ∷ minutes ∷ seconds ∷ []) = ok (hours * 3600 + minutes * 60 + seconds)
decode_short_hms bytes = err (short_hms_size (length bytes))

-- HHHHH:MM:SS as seconds; the hours take three bytes.
unfoldable pub decode_extended_hms : List ℕ → Result Error ℕ
decode_extended_hms (b0 ∷ b1 ∷ b2 ∷ minutes ∷ seconds ∷ []) =
    ok ((b0 * 2 ^ 16 + b1 * 2 ^ 8 + b2) * 3600 + minutes * 60 + seconds)
decode_extended_hms bytes = err (extended_hms_size (length bytes))

-- "PCBU", by the two highest bits.
abbrev pub dtc_category_letters : List ℕ
dtc_category_letters = b'P' ∷ b'C' ∷ b'B' ∷ b'U' ∷ []

pub record DtcCode : Type 0 where
  pub code : Text
  pub permanent : Bool
  pub pending : Bool
  pub confirmed : Bool

unfoldable pub decode_dtc_code : List ℕ → Result Error DtcCode
decode_dtc_code (byte0 ∷ byte1 ∷ byte2 ∷ []) = ok (record {
  code =
      get_or dtc_category_letters (byte0 / 64 % 4) 0
      ∷ hex_digit (byte0 / 16 % 4)
      ∷ hex_digit (byte0 % 16)
      ∷ hex_digit (byte1 / 16 % 16)
      ∷ hex_digit (byte1 % 16)
      ∷ [];
  permanent = not (byte2 / 4 % 2 == 0);
  pending = not (byte2 / 2 % 2 == 0);
  confirmed = not (byte2 % 2 == 0);
})
decode_dtc_code bytes = err (dtc_size (length bytes))
