-- ===== src/Starlink/Parser/Tags.antt =====
-- What a report's fields leave behind besides their values: the warnings and the unsupported tags.
use avt_tracker.Base.{
  append_assoc, length, append-nil, ℕ, map, true, false, Bool, if◌then◌else◌, inr, inl, list_eq,
  Bool-cases, ◌≡◌, List, [], ◌∷◌, ◌++◌, Option, none, some, refl, String, ◌∙◌,
}
use avt_tracker.Base.Exec.{Result, ok, err}
use avt_tracker.Base.Text.{split_on, Text, codes}
use avt_tracker.Starlink.Codec.{
  is_twelve_digits, parse_starlink_date_time, parse_starlink_coordinate, parse_strict_float,
  parse_strict_int, TagError, Floats,
}
use avt_tracker.Starlink.Parser.{
  warn_tags, warn_extra, applied, Decoding, apply_field, apply_fields, parse_event_report,
  put_output, put_input, put_event, tag_switch, tag_cases, apply_tag, assign,
}
use avt_tracker.Starlink.Payload.{
  new_payload, tag_not_decoded, StarlinkWarning, tag_names, default_starlink_format_tags,
  StarlinkReportPayload,
}

abbrev pub is_given : {A : Type 0} → Option A → Bool
is_given none = false
is_given (some a) = true

date_read : (value : Text) → is_given (parse_starlink_date_time value) ≡ is_twelve_digits value
unfolding parse_starlink_date_time
date_read value = elim (Bool-cases (is_twelve_digits value)) [
  | inl twelve ↦ rw twelve refl
  | inr other ↦ rw other refl
]

-- A function of the result goes inside the switch.
abbrev map_cases : {A B : Type 0} → (A → B) → List (String × A) → List (String × B)
map_cases f [] = []
map_cases f ((name, a) ∷ cases) = (name, f a) ∷ map_cases f cases

map_cases-tag_switch :
    {A B : Type 0} (f : A → B) (tag : Text) (cases : List (String × A)) (default : A)
    → f (tag_switch tag cases default) ≡ tag_switch tag (map_cases f cases) (f default)
map_cases-tag_switch f tag [] default = refl
map_cases-tag_switch f tag ((name, a) ∷ cases) default =
    elim (Bool-cases (list_eq tag (codes name))) [
      | inl same ↦ rw same refl
      | inr other ↦ rw other (map_cases-tag_switch f tag cases default)
    ]

abbrev pub failure : {A : Type 0} → Result TagError A → Option TagError
failure (err e) = some e
failure (ok a) = none

module _ (js : Floats) where
  failure-assign :
      {A : Type 0} (result : Result TagError A) (put : A → StarlinkReportPayload js)
      → failure (assign js result put) ≡ failure result
  failure-assign (err e) put = refl
  failure-assign (ok a) put = refl

  -- What a tag's value fails with, by the form that the tag's values have.
  abbrev pub decode_error : Text → Text → Option TagError
  decode_error tag value =
      let integer = failure (parse_strict_int value) in
      let float = failure (parse_strict_float js value) in
      let coordinate = failure (parse_starlink_coordinate js value) in
      tag_switch tag
        (("#EDT#", none)
          ∷ ("#EID#", integer)
          ∷ ("#PDT#", none)
          ∷ ("#LAT#", coordinate)
          ∷ ("#LONG#", coordinate)
          ∷ ("#SPD#", float)
          ∷ ("#HEAD#", integer)
          ∷ ("#ODO#", float)
          ∷ ("#IN1#", integer)
          ∷ ("#IN2#", integer)
          ∷ ("#IN3#", integer)
          ∷ ("#IN4#", integer)
          ∷ ("#OUT1#", integer)
          ∷ ("#OUT2#", integer)
          ∷ ("#OUT3#", integer)
          ∷ ("#OUT4#", integer)
          ∷ ("#LAC#", integer)
          ∷ ("#CID#", integer)
          ∷ ("#VIN#", float)
          ∷ ("#VBAT#", float)
          ∷ ("#DEST#", none)
          ∷ ("#IGN#", integer)
          ∷ ("#ENG#", integer)
          ∷ [])
        none

  failure-apply_tag :
      (tag value : Text) (p : StarlinkReportPayload js)
      → failure (apply_tag js tag value p) ≡ decode_error tag value
  unfolding apply_tag
  failure-apply_tag tag value p =
      map_cases-tag_switch failure tag (tag_cases js tag value p)
        (ok (record p { unsupported_tags = p.unsupported_tags ++ (tag ∷ []) }))
      ∙ simp (failure-assign)

  abbrev unsupported_after :
      StarlinkReportPayload js → Result TagError (StarlinkReportPayload js) → List Text
  unsupported_after p (err e) = p.unsupported_tags
  unsupported_after p (ok p') = p'.unsupported_tags

  -- `f` of the value, or `other` on an error.
  abbrev value_or : {A B : Type 0} → (A → B) → B → Result TagError A → B
  value_or f other (err e) = other
  value_or f other (ok a) = f a

  unsupported_after-assign :
      {A : Type 0} (p : StarlinkReportPayload js) (put : A → StarlinkReportPayload js)
      (result : Result TagError A)
      → unsupported_after p (assign js result put)
        ≡ value_or (λ a. (put a).unsupported_tags) p.unsupported_tags result
  unsupported_after-assign p put (err e) = refl
  unsupported_after-assign p put (ok a) = refl

  value_or-same :
      {A B : Type 0} (b : B) (result : Result TagError A) → value_or (λ a. b) b result ≡ b
  value_or-same b (err e) = refl
  value_or-same b (ok a) = refl

  abbrev pub is_listed : Text → List Text → Bool
  is_listed tag [] = false
  is_listed tag (name ∷ names) = if list_eq tag name then true else is_listed tag names

  abbrev all_to : {A : Type 0} → A → List String → List (String × A)
  all_to a [] = []
  all_to a (name ∷ names) = (name, a) ∷ all_to a names

  tag_switch-all_to :
      {A : Type 0} (tag : Text) (a default : A) (names : List String)
      → tag_switch tag (all_to a names) default
        ≡ (if is_listed tag (map codes names) then a else default)
  tag_switch-all_to tag a default [] = refl
  tag_switch-all_to tag a default (name ∷ names) = elim (Bool-cases (list_eq tag (codes name))) [
    | inl same ↦ rw same refl
    | inr other ↦ rw other (tag_switch-all_to tag a default names)
  ]

  unsupported_after-apply_tag :
      (tag value : Text) (p : StarlinkReportPayload js)
      → unsupported_after p (apply_tag js tag value p) ≡ (
          if is_listed tag default_starlink_format_tags
          then p.unsupported_tags
          else p.unsupported_tags ++ (tag ∷ []))
  unfolding apply_tag put_event put_input put_output
  unsupported_after-apply_tag tag value p =
      map_cases-tag_switch (unsupported_after p) tag (tag_cases js tag value p)
        (ok (record p { unsupported_tags = p.unsupported_tags ++ (tag ∷ []) }))
      ∙ (simp (unsupported_after-assign, value_or-same))
      ∙ tag_switch-all_to tag p.unsupported_tags (p.unsupported_tags ++ (tag ∷ [])) tag_names

  abbrev pub warning_of : Text → Text → Option TagError → List StarlinkWarning
  warning_of tag value none = []
  warning_of tag value (some e) = tag_not_decoded tag value e ∷ []

  -- The values that cannot be decoded, with their tags, in the order of the line.
  unfoldable pub not_decoded : List Text → List Text → List StarlinkWarning
  not_decoded [] tags = []
  not_decoded (value ∷ fields) [] = []
  not_decoded ([] ∷ fields) (tag ∷ tags) = not_decoded fields tags
  not_decoded ((c ∷ value) ∷ fields) (tag ∷ tags) =
      warning_of tag (c ∷ value) (decode_error tag (c ∷ value)) ++ not_decoded fields tags

  applied-warnings :
      (tag value : Text) (d : Decoding js) (result : Result TagError (StarlinkReportPayload js))
      → (applied js tag value d result).1 ≡ d.1 ++ warning_of tag value (failure result)
  applied-warnings tag value d (ok p) = simp (append-nil)
  applied-warnings tag value d (err e) = refl

  apply_fields-warnings :
      (fields tags : List Text) (d : Decoding js)
      → (apply_fields js fields tags d).1 ≡ d.1 ++ not_decoded fields tags
  unfolding apply_fields not_decoded apply_field
  apply_fields-warnings [] tags d = simp (append-nil)
  apply_fields-warnings (value ∷ fields) [] d = simp (append-nil)
  apply_fields-warnings ([] ∷ fields) (tag ∷ tags) d = apply_fields-warnings fields tags d
  apply_fields-warnings ((c ∷ value) ∷ fields) (tag ∷ tags) d =
      apply_fields-warnings fields tags (apply_field js tag (c ∷ value) d)
      ∙ (rw
          (
            applied-warnings tag (c ∷ value) d (apply_tag js tag (c ∷ value) d.0),
            failure-apply_tag tag (c ∷ value) d.0,
          )
          (append_assoc d.1 (warning_of tag (c ∷ value) (decode_error tag (c ∷ value)))
            (not_decoded fields tags)))

  abbrev pub unlisted : Bool → Text → List Text
  unlisted true tag = []
  unlisted false tag = tag ∷ []

  -- The tags that are not among the default ones and whose field is not empty, in order.
  unfoldable pub unsupported_in : List Text → List Text → List Text
  unsupported_in [] tags = []
  unsupported_in (value ∷ fields) [] = []
  unsupported_in ([] ∷ fields) (tag ∷ tags) = unsupported_in fields tags
  unsupported_in ((c ∷ value) ∷ fields) (tag ∷ tags) =
      unlisted (is_listed tag default_starlink_format_tags) tag ++ unsupported_in fields tags

  applied-unsupported :
      (tag value : Text) (d : Decoding js) (result : Result TagError (StarlinkReportPayload js))
      → (applied js tag value d result).0.unsupported_tags ≡ unsupported_after d.0 result
  applied-unsupported tag value d (ok p) = refl
  applied-unsupported tag value d (err e) = refl

  apply_field-unsupported :
      (tag : Text) (c : ℕ) (value : Text) (d : Decoding js)
      → (apply_field js tag (c ∷ value) d).0.unsupported_tags
        ≡ d.0.unsupported_tags ++ unlisted (is_listed tag default_starlink_format_tags) tag
  unfolding apply_field
  apply_field-unsupported tag c value d =
      applied-unsupported tag (c ∷ value) d (apply_tag js tag (c ∷ value) d.0)
      ∙ unsupported_after-apply_tag tag (c ∷ value) d.0
      ∙ (elim (Bool-cases (is_listed tag default_starlink_format_tags)) [
        | inl listed ↦ rw listed (simp (append-nil))
        | inr other ↦ rw other refl
      ])

  apply_fields-unsupported :
      (fields tags : List Text) (d : Decoding js)
      → (apply_fields js fields tags d).0.unsupported_tags
        ≡ d.0.unsupported_tags ++ unsupported_in fields tags
  unfolding apply_fields unsupported_in apply_field
  apply_fields-unsupported [] tags d = simp (append-nil)
  apply_fields-unsupported (value ∷ fields) [] d = simp (append-nil)
  apply_fields-unsupported ([] ∷ fields) (tag ∷ tags) d = apply_fields-unsupported fields tags d
  apply_fields-unsupported ((c ∷ value) ∷ fields) (tag ∷ tags) d =
      apply_fields-unsupported fields tags (apply_field js tag (c ∷ value) d)
      ∙ (rw (apply_field-unsupported tag c value d) (
          append_assoc d.0.unsupported_tags
            (unlisted (is_listed tag default_starlink_format_tags) tag)
            (unsupported_in fields tags)))

  -- The warnings of a report are, in this order: one for each value that the reader of its tag
  -- throws on (the integers, the numbers and the coordinates), whatever stood before it; one when
  -- there are more fields than tags; and one that lists the tags outside the default format whose
  -- field is not empty. A value of #EDT# or #PDT# is never warned of: it is assigned, as null where
  -- it is not twelve digits.
  pub warnings-parse_event_report :
      (content : Text) (tags : List Text)
      → let fields = split_on b',' content in
        ((parse_event_report js content tags).1
          ≡ not_decoded fields tags
            ++ (warn_extra js (length fields) (length tags)
                ++ warn_tags js (unsupported_in fields tags)))
        × ((value : Text) (p : StarlinkReportPayload js)
            → (apply_tag js (codes "#EDT#") value p
                ≡ ok (record p { device_time = some (parse_starlink_date_time value) }))
              × (apply_tag js (codes "#PDT#") value p
                  ≡ ok (record p { fix_time = some (parse_starlink_date_time value) })))
        × ((value : Text) → is_given (parse_starlink_date_time value) ≡ is_twelve_digits value)
  unfolding parse_event_report apply_tag
  warnings-parse_event_report content tags = (
    rw
        (
          apply_fields-warnings (split_on b',' content) tags (new_payload js, []),
          apply_fields-unsupported (split_on b',' content) tags (new_payload js, []),
        )
        refl,
    λ value p. (refl, refl),
    λ value. date_read value,
  )
