-- ===== src/Tracker/Codec/Imei.antt =====
-- The IMEI codec reads back what the protocol's encoding writes.
use avt_tracker.Base.{
  ltb, ◌&&◌, leb, Bool, true, ap, get_or, All, length, ℕ, zero, suc, ◌+◌, ◌-◌, ◌*◌, ◌/◌, ◌%◌, ◌≡◌,
  ◌≤◌, ◌<◌, List, [], ◌∷◌, ◌++◌, refl, arith,
}
use avt_tracker.Base.Tables.{texts_agree, same_rows}
use avt_tracker.Base.Text.{Text, decimal, pad_start2}
use avt_tracker.Tracker.Codec.{ok, imei_pairs, decode_imei}

-- Two digits to a byte, and the last digit by itself (`encodeImei` of the test fixtures, for the
-- texts of 15 digits that it accepts).
unfoldable pub encode_imei : Text → List ℕ
encode_imei [] = []
encode_imei (a ∷ []) = (a - 48) ∷ []
encode_imei (a ∷ b ∷ digits) = ((a - 48) * 10 + (b - 48)) ∷ encode_imei digits

abbrev pub IsDigit : ℕ → Type 0
IsDigit c = (48 ≤ c) × (c < 58)

two_digits : (x : ℕ) → x < 100 → pad_start2 (decimal x) ≡ (48 + x / 10) ∷ (48 + x % 10) ∷ []
unfolding decimal same_rows
two_digits =
    texts_agree (λ x. pad_start2 (decimal x)) (λ x. (48 + x / 10) ∷ (48 + x % 10) ∷ []) 100 refl

one_digit : (x : ℕ) → x < 10 → decimal x ≡ (48 + x) ∷ []
unfolding decimal same_rows
one_digit = texts_agree (λ x. decimal x) (λ x. (48 + x) ∷ []) 10 refl

pub length-encode_imei :
    (n : ℕ) (ds : Text) → length ds ≡ n * 2 + 1 → length (encode_imei ds) ≡ n + 1
unfolding encode_imei
length-encode_imei n [] h = absurd (omega arith)
length-encode_imei zero (a ∷ []) h = omega arith
length-encode_imei (suc n) (a ∷ []) h = absurd (omega arith)
length-encode_imei zero (a ∷ b ∷ ds) h = absurd (omega arith)
length-encode_imei (suc n) (a ∷ b ∷ ds) h = omega (arith, length-encode_imei n ds (omega arith))

pairs-encode_imei :
    (n : ℕ) (ds : Text)
    → length ds ≡ n * 2 + 1
    → All IsDigit ds
    → imei_pairs n (encode_imei ds) ++ decimal (get_or (encode_imei ds) n 0 % 10) ≡ ds
unfolding encode_imei imei_pairs
pairs-encode_imei n [] h d = absurd (omega arith)
pairs-encode_imei zero (a ∷ []) h d = ground (arith, one_digit ((a - 48) % 10))
pairs-encode_imei (suc n) (a ∷ []) h d = absurd (omega arith)
pairs-encode_imei zero (a ∷ b ∷ ds) h d = absurd (omega arith)
pairs-encode_imei (suc n) (a ∷ b ∷ ds) h (da, (db, dds)) =
    ground (arith, two_digits ((a - 48) * 10 + (b - 48)), pairs-encode_imei n ds)

-- An IMEI of 15 digits, encoded as `encodeImei` does, is decoded digit for digit.
pub decode_imei-encode_imei :
    (ds : Text) → length ds ≡ 15 → All IsDigit ds → decode_imei (encode_imei ds) ≡ ok ds
unfolding decode_imei
decode_imei-encode_imei ds h d = rw (length-encode_imei 7 ds h) (ap ok (pairs-encode_imei 7 ds h d))

-- Eight bytes always decode.
pub imei_decodes :
    (bytes : List ℕ) → length bytes ≡ 8 → (text : Text) × (decode_imei bytes ≡ ok text)
unfolding decode_imei
imei_decodes bytes h = (imei_pairs 7 bytes ++ decimal (get_or bytes 7 0 % 10), rw h)

-- `IsDigit` of every character, as a test.
abbrev pub all_digits : Text → Bool
all_digits [] = true
all_digits (c ∷ cs) = leb 48 c && ltb c 58 && all_digits cs

pub all_digits-All : (ds : Text) → all_digits ds ≡ true → All IsDigit ds
all_digits-All [] h = tt
all_digits-All (c ∷ cs) h = (ground arith, all_digits-All cs (ground arith))
