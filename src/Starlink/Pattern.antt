-- ===== src/Starlink/Pattern.antt =====
-- FRAME_PATTERN of src/starlink/parser/starlink-parser.service.ts, as a matcher over UTF-16 codes:
-- `^(.)?SLU([0-9A-Fa-f]{6}|\d{15}),(\d+),(\d+),(.+)\*([0-9A-Fa-f]{2})$`. Each part tries what the
-- expression tries, in its order; a run of digits that a comma follows can only end there, and `$`
-- puts the star at the third place from the end.
pub mod Matches
use avt_tracker.Base.{
  Bool, not, drop, take, all_true, get_or, ◌&&◌, leb, ltb, ◌||◌, if◌then◌else◌, length, ◌==◌, ℕ,
  ◌+◌, ◌-◌, [], ◌∷◌, Option, none, some,
}
use avt_tracker.Base.Text.{is_digit, Text, codes}

infixl 10 ◌>>=◌
abbrev pub ◌>>=◌ : {A B : Type 0} → Option A → (A → Option B) → Option B
none >>= f = none
some a >>= f = f a

abbrev pub or_else : {A : Type 0} → Option A → Option A → Option A
or_else none other = other
or_else (some a) other = some a

-- What `.` does not match.
unfoldable pub is_line_terminator : ℕ → Bool
is_line_terminator c = c == 10 || c == 13 || c == 0x2028 || c == 0x2029

-- `[0-9A-Fa-f]`
unfoldable pub is_hex : ℕ → Bool
is_hex c = is_digit c || (leb b'A' c && leb c b'F') || (leb b'a' c && leb c b'f')

unfoldable pub strip_prefix : Text → Text → Option Text
strip_prefix [] text = some text
strip_prefix (p ∷ prefix) [] = none
strip_prefix (p ∷ prefix) (c ∷ text) = if p == c then strip_prefix prefix text else none

-- Exactly `n` characters that pass the test, and what follows them.
unfoldable pub exactly : (ℕ → Bool) → ℕ → Text → Option (Text × Text)
exactly test n text =
    if leb n (length text) && all_true test (take n text)
    then some (take n text, drop n text)
    else none

-- The digits in front, and what follows them.
unfoldable pub span_digits : Text → Text × Text
span_digits [] = ([], [])
span_digits (c ∷ text) =
    let rest = span_digits text in if is_digit c then (c ∷ rest.0, rest.1) else ([], c ∷ text)

unfoldable pub some_digits : Text × Text → Option (Text × Text)
some_digits ([], rest) = none
some_digits (d ∷ digits, rest) = some (d ∷ digits, rest)

-- `(.+)\*([0-9A-Fa-f]{2})$`
unfoldable pub data_and_checksum : Text → Option (Text × Text)
data_and_checksum text =
    let size = length text - 3 in
    if ltb 3 (length text)
      && get_or text size 0 == b'*'
      && all_true is_hex (drop (size + 1) text)
      && all_true (λ c. not (is_line_terminator c)) (take size text)
    then some (take size text, drop (size + 1) text)
    else none

pub record Match : Type 0 where
  pub head : Option ℕ
  pub device_id : Text
  pub message_type : Text
  pub message_index : Text
  pub content : Text
  pub checksum_hex : Text

-- `,(\d+),(\d+),(.+)\*([0-9A-Fa-f]{2})$`
unfoldable pub match_fields : Option ℕ → Text × Text → Option Match
match_fields head (device_id, text) = strip_prefix (codes ",") text >>= λ text.
    some_digits (span_digits text) >>= λ kind. strip_prefix (codes ",") kind.1 >>= λ text.
    some_digits (span_digits text) >>= λ index. strip_prefix (codes ",") index.1 >>= λ text.
    data_and_checksum text >>= λ end. some (record {
      head = head;
      device_id = device_id;
      message_type = kind.0;
      message_index = index.0;
      content = end.0;
      checksum_hex = end.1;
    })

-- `SLU([0-9A-Fa-f]{6}|\d{15})` and the rest.
unfoldable pub match_device : Option ℕ → Text → Option Match
match_device head text = strip_prefix (codes "SLU") text >>= λ text.
    or_else (exactly is_hex 6 text >>= match_fields head)
      (exactly is_digit 15 text >>= match_fields head)

-- `(.)?`: one character first, then none.
unfoldable pub match_frame : Text → Option Match
match_frame [] = match_device none []
match_frame (c ∷ text) =
    or_else (if is_line_terminator c then none else match_device (some c) text)
      (match_device none (c ∷ text))
