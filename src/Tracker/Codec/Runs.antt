-- ===== src/Tracker/Codec/Runs.antt =====
-- Concrete runs of the field codecs, and their theorems at concrete inputs.
use avt_tracker.Base.{All, ℕ, ◌+◌, ◌≡◌, List, [], ◌∷◌, refl, arith}
use avt_tracker.Base.Text.{Text, codes}
use avt_tracker.Tracker.Codec.{decode_dtc_code, ok, DtcCode, decode_imei}
use avt_tracker.Tracker.Codec.Dtc.{decode_dtc_code-inverse, encode_dtc_code}
use avt_tracker.Tracker.Codec.Imei.{all_digits-All, decode_imei-encode_imei, IsDigit, encode_imei}

abbrev imei_text : Text
imei_text = codes "356938035643809"

abbrev imei_bytes : List ℕ
imei_bytes = 35 ∷ 69 ∷ 38 ∷ 3 ∷ 56 ∷ 43 ∷ 80 ∷ 9 ∷ []

known_imei : decode_imei imei_bytes ≡ ok imei_text
unfolding decode_imei avt_tracker.Base.Text.decimal
known_imei = refl

imei_digits : All IsDigit imei_text
imei_digits = all_digits-All imei_text refl

decode_imei-encode_imei_example : decode_imei (encode_imei imei_text) ≡ ok imei_text
decode_imei-encode_imei_example = decode_imei-encode_imei imei_text refl imei_digits

-- P0301, confirmed.
decode_dtc_code-inverse_example :
    (d : DtcCode) × (decode_dtc_code (0x03 ∷ 0x01 ∷ 0x09 ∷ []) ≡ ok d)
    × (encode_dtc_code d ≡ 0x03 ∷ 0x01 ∷ 1 ∷ [])
decode_dtc_code-inverse_example = decode_dtc_code-inverse 0x03 0x01 0x09 (omega arith) (omega arith)
