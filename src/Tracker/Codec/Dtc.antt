-- ===== src/Tracker/Codec/Dtc.antt =====
-- The decoded form of a trouble code determines the bytes that it came from.
use avt_tracker.Base.{
  not, zero, suc, ltb, ◌==◌, Bool, get_or, if◌then◌else◌, ℕ, ◌+◌, ◌-◌, ◌*◌, ◌/◌, ◌%◌, ◌≡◌, ◌<◌,
  List, [], ◌∷◌, refl, arith,
}
use avt_tracker.Base.Text.{hex_digit}
use avt_tracker.Tracker.Codec.{dtc_category_letters, ok, DtcCode, decode_dtc_code}

hex_value : ℕ → ℕ
hex_value c = if ltb c 58 then c - 48 else c - 55

hex_value-hex_digit : (n : ℕ) → n < 16 → hex_value (hex_digit n) ≡ n
unfolding hex_value
hex_value-hex_digit n h = ground arith

letter_value : ℕ → ℕ
letter_value c = if c == b'P' then 0 else if c == b'C' then 1 else if c == b'B' then 2 else 3

letter_value-letters : (n : ℕ) → n < 4 → letter_value (get_or dtc_category_letters n 0) ≡ n
unfolding letter_value
letter_value-letters zero h = refl
letter_value-letters (suc zero) h = refl
letter_value-letters (suc (suc zero)) h = refl
letter_value-letters (suc (suc (suc zero))) h = refl
letter_value-letters (suc (suc (suc (suc n)))) h = absurd (omega arith)

flag : Bool → ℕ
flag b = if b then 1 else 0

flag-bit : (n : ℕ) → n < 2 → flag (not (n == 0)) ≡ n
unfolding flag
flag-bit n h = ground arith

-- The bytes of the bit layout in the protocol's section 3.2.1, from the decoded form.
pub encode_dtc_code : DtcCode → List ℕ
encode_dtc_code d =
    (letter_value (get_or d.code 0 0) * 64
      + hex_value (get_or d.code 1 0) * 16
      + hex_value (get_or d.code 2 0))
    ∷ (hex_value (get_or d.code 3 0) * 16 + hex_value (get_or d.code 4 0))
    ∷ (flag d.permanent * 4 + flag d.pending * 2 + flag d.confirmed)
    ∷ []

-- Two bytes and a third number always decode, and no two codes are confused: from the decoded code
-- and flags the two code bytes and the three flag bits can be computed back.
pub decode_dtc_code-inverse :
    (b0 b1 b2 : ℕ)
    → b0 < 256
    → b1 < 256
    → (d : DtcCode) × (decode_dtc_code (b0 ∷ b1 ∷ b2 ∷ []) ≡ ok d)
      × (encode_dtc_code d ≡ b0 ∷ b1 ∷ (b2 % 8) ∷ [])
unfolding decode_dtc_code encode_dtc_code
decode_dtc_code-inverse b0 b1 b2 h0 h1 = (
  _,
  refl,
  ground (
    arith,
    letter_value-letters (b0 / 64 % 4),
    hex_value-hex_digit (b0 / 16 % 4),
    hex_value-hex_digit (b0 % 16),
    hex_value-hex_digit (b1 / 16 % 16),
    hex_value-hex_digit (b1 % 16),
    flag-bit (b2 / 4 % 2),
    flag-bit (b2 / 2 % 2),
    flag-bit (b2 % 2),
  ),
)
