-- ===== src/Starlink/Pattern/Matches.antt =====
-- The matcher on a line that is laid out as the expression says.
use avt_tracker.Base.{
  ◌&&◌, Bool-cases, inr, take, inl, ◌⊎◌, length-drop, drop-append_le, ◌==◌, none, refl, zero, suc,
  Option, drop, drop-append_plus, get_or-append_self, drop-append_self, get_or, ltb,
  take-append_self, length-append, leb, Bool, all_true, length, ℕ, ◌+◌, ◌-◌, ◌<◌, ◌≡◌, [], ◌∷◌,
  ◌++◌, arith, true, false, some, not,
}
use avt_tracker.Base.Text.{codes, is_digit, Text}
use avt_tracker.Starlink.Pattern.{
  match_device, match_frame, Match, strip_prefix, ◌>>=◌, match_fields, is_hex, is_line_terminator,
  data_and_checksum, exactly, some_digits, span_digits,
}

-- A text that is not empty is taken off whole, up to a character that is no digit.
span_digits-append :
    (ds rest : Text) (c : ℕ)
    → all_true is_digit ds ≡ true
    → is_digit c ≡ false
    → span_digits (ds ++ (c ∷ rest)) ≡ (ds, c ∷ rest)
unfolding span_digits
span_digits-append [] rest c h hc = rw hc
span_digits-append (d ∷ ds) rest c h hc =
    let first : is_digit d ≡ true = ground arith in
    rw (span_digits-append ds rest c (ground arith) hc, first)

number_part :
    (ds rest : Text) (c : ℕ)
    → 0 < length ds
    → all_true is_digit ds ≡ true
    → is_digit c ≡ false
    → some_digits (span_digits (ds ++ (c ∷ rest))) ≡ some (ds, c ∷ rest)
unfolding some_digits
number_part [] rest c pos h hc = elim pos [ ]
number_part (d ∷ ds) rest c pos h hc = rw (span_digits-append (d ∷ ds) rest c h hc)

exactly-append :
    (test : ℕ → Bool) (n : ℕ) (xs rest : Text)
    → length xs ≡ n
    → all_true test xs ≡ true
    → exactly test n (xs ++ rest) ≡ some (xs, rest)
unfolding exactly
exactly-append test n xs rest size h =
    let enough : leb (length xs) (length (xs ++ rest)) ≡ true =
      ground (arith, length-append xs rest) in
    rw (← size, take-append_self xs rest, drop-append_self xs rest, enough, h)

-- Text without line terminators, a star and two hexadecimal digits.
data_and_checksum-append :
    (content checksum : Text)
    → 0 < length content
    → all_true (λ c. not (is_line_terminator c)) content ≡ true
    → length checksum ≡ 2
    → all_true is_hex checksum ≡ true
    → data_and_checksum (content ++ (b'*' ∷ checksum)) ≡ some (content, checksum)
unfolding data_and_checksum
data_and_checksum-append content checksum pos plain size hex =
    let whole = length-append content (b'*' ∷ checksum) in
    let at : length (content ++ (b'*' ∷ checksum)) - 3 ≡ length content = omega arith in
    let long : ltb 3 (length (content ++ (b'*' ∷ checksum))) ≡ true = ground (arith, whole) in
    let star : get_or (content ++ (b'*' ∷ checksum)) (length content) 0 ≡ b'*' =
      let e : length content + 0 ≡ length content = omega arith in
      rw e at (get_or-append_self content (b'*' ∷ checksum) 0 0) in
    rw (
      at,
      long,
      star,
      drop-append_plus content (b'*' ∷ checksum) 1,
      hex,
      take-append_self content (b'*' ∷ checksum),
      plain,
    )

abbrev pub fields : Text → Text → Text → Text → Text
fields kind index content checksum =
    b',' ∷ (kind ++ (b',' ∷ (index ++ (b',' ∷ (content ++ (b'*' ∷ checksum))))))

-- A line without its head character.
abbrev pub body : Text → Text → Text → Text → Text → Text
body id kind index content checksum = codes "SLU" ++ (id ++ fields kind index content checksum)

abbrev pub matched : Text → Text → Text → Text → Option ℕ → Text → Match
matched kind index content checksum head device_id = record {
  head = head;
  device_id = device_id;
  message_type = kind;
  message_index = index;
  content = content;
  checksum_hex = checksum;
}

-- Type, index, data and checksum.
module _ (kind index content checksum : Text) (kind_pos : 0 < length kind)
    (kind_digits : all_true is_digit kind ≡ true) (index_pos : 0 < length index)
    (index_digits : all_true is_digit index ≡ true) (content_pos : 0 < length content)
    (content_plain : all_true (λ c. not (is_line_terminator c)) content ≡ true)
    (checksum_size : length checksum ≡ 2) (checksum_hex : all_true is_hex checksum ≡ true) where
  match_fields-append :
      (head : Option ℕ) (device_id : Text)
      → match_fields head (device_id, fields kind index content checksum)
        ≡ some (matched kind index content checksum head device_id)
  unfolding match_fields strip_prefix
  match_fields-append head device_id = rw (
    number_part kind (index ++ (b',' ∷ (content ++ (b'*' ∷ checksum)))) b',' kind_pos kind_digits
        (unfold is_digit in refl),
    number_part index (content ++ (b'*' ∷ checksum)) b',' index_pos index_digits
        (unfold is_digit in refl),
    data_and_checksum-append content checksum content_pos content_plain checksum_size checksum_hex,
  )

-- A text whose seventh character is a digit is not six hexadecimal digits and a comma.
no_comma :
    (head : Option ℕ) (front : Text) (d : ℕ) (rest : Text)
    → is_digit d ≡ true
    → match_fields head (front, d ∷ rest) ≡ none
unfolding match_fields strip_prefix is_digit
no_comma head front d rest h = let other : (b',' == d) ≡ false = ground arith in rw other

-- The device id: six hexadecimal digits, or fifteen digits.
pub data IsDeviceId (text : Text) : Type 0 where
  six_hex : length text ≡ 6 → all_true is_hex text ≡ true → IsDeviceId text
  imei_digits : length text ≡ 15 → all_true is_digit text ≡ true → IsDeviceId text

all_true-drop :
    (test : ℕ → Bool) (n : ℕ) (xs : Text)
    → all_true test xs ≡ true
    → all_true test (drop n xs) ≡ true
all_true-drop test zero xs h = h
all_true-drop test (suc n) [] h = h
all_true-drop test (suc n) (x ∷ xs) h = all_true-drop test n xs (ground arith)

exactly-cases :
    (test : ℕ → Bool) (n : ℕ) (text : Text)
    → (exactly test n text ≡ none) ⊎ (exactly test n text ≡ some (take n text, drop n text))
unfolding exactly
exactly-cases test n text = elim (Bool-cases (leb n (length text) && all_true test (take n text))) [
  | inl fits ↦ inr (rw fits)
  | inr differs ↦ inl (rw differs)
]

no_comma_behind :
    (head : Option ℕ) (front back rest : Text)
    → 0 < length back
    → all_true is_digit back ≡ true
    → match_fields head (front, back ++ rest) ≡ none
no_comma_behind head front [] rest pos h = elim pos [ ]
no_comma_behind head front (d ∷ back) rest pos h =
    no_comma head front d (back ++ rest) (ground arith)

no_six_hex :
    (head : Option ℕ) (id rest : Text)
    → length id ≡ 15
    → all_true is_digit id ≡ true
    → (exactly is_hex 6 (id ++ rest) >>= match_fields head) ≡ none
no_six_hex head id rest size digits = elim (exactly-cases is_hex 6 (id ++ rest)) [
  | inl failed ↦ rw failed
  | inr found ↦
      rw (found, drop-append_le 6 id rest (omega arith))
        (no_comma_behind head (take 6 (id ++ rest)) (drop 6 id) rest
          (omega (arith, length-drop 6 id)) (all_true-drop is_digit 6 id digits))
]

-- The whole line, behind an optional head character.
module _ (id kind index content checksum : Text) (id_form : IsDeviceId id)
    (kind_pos : 0 < length kind) (kind_digits : all_true is_digit kind ≡ true)
    (index_pos : 0 < length index) (index_digits : all_true is_digit index ≡ true)
    (content_pos : 0 < length content)
    (content_plain : all_true (λ c. not (is_line_terminator c)) content ≡ true)
    (checksum_size : length checksum ≡ 2) (checksum_hex : all_true is_hex checksum ≡ true) where
  fields_lem :
      (head : Option ℕ)
      → match_fields head (id, fields kind index content checksum)
        ≡ some (matched kind index content checksum head id)
  fields_lem head =
      match_fields-append kind index content checksum kind_pos kind_digits index_pos index_digits
        content_pos content_plain checksum_size checksum_hex head id

  pub match_device-body :
      (head : Option ℕ)
      → match_device head (body id kind index content checksum)
        ≡ some (matched kind index content checksum head id)
  unfolding match_device strip_prefix
  match_device-body head = elim id_form [
    | six_hex size hex ↦
        rw (
          exactly-append is_hex 6 id (fields kind index content checksum) size hex,
          fields_lem head,
        )
    | imei_digits size digits ↦ rw (
      no_six_hex head id (fields kind index content checksum) size digits,
      exactly-append is_digit 15 id (fields kind index content checksum) size digits,
      fields_lem head,
    )
  ]

  pub match_frame-body :
      match_frame (body id kind index content checksum)
      ≡ some (matched kind index content checksum none id)
  unfolding match_frame
  match_frame-body =
      let no_head : match_device (some b'S') (drop 1 (body id kind index content checksum)) ≡ none =
        unfold match_device strip_prefix in refl in
      let plain : is_line_terminator b'S' ≡ false = unfold is_line_terminator in refl in
      rw (plain, no_head, match_device-body none)

  pub match_frame-head :
      (c : ℕ)
      → is_line_terminator c ≡ false
      → match_frame (c ∷ (body id kind index content checksum))
        ≡ some (matched kind index content checksum (some c) id)
  unfolding match_frame
  match_frame-head c h = rw (h, match_device-body (some c))
