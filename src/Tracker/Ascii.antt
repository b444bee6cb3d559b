-- ===== src/Tracker/Ascii.antt =====
-- ASCII data zones: `parseAsciiDataZone` and `parsePeoFenceList` of
-- src/tracker/parser/tracker-parser.service.ts. JavaScript's numbers are a parameter.
use avt_tracker.Base.{
  ◌||◌, ◌&&◌, get_elem?, if◌then◌else◌, length, list_eq, ltb, ◌≡◌, ℕ, zero, suc, ◌+◌, List, [], ◌∷◌,
  ◌++◌, Bool, true, false, Option, none, some, not,
}
use avt_tracker.Base.Text.{codes, split_on, Text}
use avt_tracker.Tracker.Cursor.{ascii}
use avt_tracker.Tracker.Decode.{Scan}
use avt_tracker.Tracker.Errors.{
  peo_points_truncated, peo_malformed, peo_settings_truncated, Warning,
}
use mathlib.Core.Option

-- What the code uses of JavaScript's doubles: `Number(text)`, where `none` stands for `undefined`,
-- `Number.isFinite`, the difference of two points plus one, and `<`.
pub record Doubles : Type 1 where
  pub Num : Type 0
  pub number : Option Text → Num
  pub is_finite : Num → Bool
  pub span : (end_point start_point : Num) → Num
  pub less : Num → Num → Bool
  pub of_ℕ : ℕ → Num
  -- `Number(undefined)` is NaN.
  pub undefined_not_finite : is_finite (number none) ≡ false

module _ (js : Doubles) where
  open js use {Num, number, is_finite, span, less, of_ℕ}

  pub record PeoFencePoint : Type 0 where
    pub longitude : Num
    pub latitude : Num

  pub record PeoFenceStatus : Type 0 where
    pub peo_id : Num
    pub mode : Num
    pub start_point : Num
    pub end_point : Num
    pub points : List PeoFencePoint
    pub check_interval_seconds : Num
    pub over_speed_alarm_mode : Num
    pub over_speed_threshold_kmh : Num
    pub over_speed_duration_seconds : Num

  pub record AsciiFrameData : Type 0 where
    pub raw : Text
    pub fields : List Text
    pub command_key : Option Text
    pub peo_fences : Option (List PeoFenceStatus)

  abbrev pub num_at : List Text → ℕ → Num
  num_at fields i = number (get_elem? fields i)

  -- The points from `cursor` on: the point `p` is read while `p` is below the count. `none` when a
  -- coordinate is not finite; the second part is the cursor there, or behind the points. Each point
  -- takes two fields, so one round for each field is enough.
  pub read_points : ℕ → List Text → Num → ℕ → ℕ → Option (List PeoFencePoint) × ℕ
  read_points zero fields count p cursor = (none, cursor)
  read_points (suc fuel) fields count p cursor =
      let longitude = num_at fields cursor in
      let latitude = num_at fields (cursor + 1) in
      let rest = read_points fuel fields count (p + 1) (cursor + 2) in
      if not (less (of_ℕ p) count)
      then (some [], cursor)
      else if not (is_finite longitude && is_finite latitude)
      then (none, cursor)
      else (
        Option.map (λ points. record { longitude = longitude; latitude = latitude } ∷ points)
            rest.0,
        rest.1,
      )

  -- One record at field `i`: the fence and the index of its last field, or the warning that ends
  -- the list.
  pub data PeoRecord : Type 0 where
    malformed : Warning → PeoRecord
    fence : PeoFenceStatus → ℕ → PeoRecord

  pub read_settings : List Text → ℕ → List PeoFencePoint → ℕ → PeoRecord
  read_settings fields i points cursor =
      if is_finite (num_at fields cursor)
        && is_finite (num_at fields (cursor + 1))
        && is_finite (num_at fields (cursor + 2))
        && is_finite (num_at fields (cursor + 3))
      then fence
          (record {
            peo_id = num_at fields (i + 1);
            mode = num_at fields (i + 2);
            start_point = num_at fields (i + 3);
            end_point = num_at fields (i + 4);
            points = points;
            check_interval_seconds = num_at fields cursor;
            over_speed_alarm_mode = num_at fields (cursor + 1);
            over_speed_threshold_kmh = num_at fields (cursor + 2);
            over_speed_duration_seconds = num_at fields (cursor + 3);
          })
          (cursor + 3)
      else malformed (peo_settings_truncated (get_elem? fields (i + 1)) cursor)

  pub read_peo : List Text → ℕ → PeoRecord
  read_peo fields i =
      let count = span (num_at fields (i + 4)) (num_at fields (i + 3)) in
      let points = read_points (suc (length fields)) fields count 0 (i + 5) in
      if not (
          is_finite (num_at fields (i + 1))
          && is_finite (num_at fields (i + 2))
          && is_finite (num_at fields (i + 3))
          && is_finite (num_at fields (i + 4)))
        || less count (of_ℕ 0)
      then malformed (peo_malformed i)
      else elim points.0 [
        | none ↦ malformed (peo_points_truncated (get_elem? fields (i + 1)) points.1)
        | some list ↦ read_settings fields i list points.1
      ]

  abbrev is_peo : Option Text → Bool
  is_peo none = false
  is_peo (some f) = list_eq f (codes "PEO")

  -- The scan from field `i`; each round takes a field at least. The warning that ended it, if any.
  pub peo_loop : ℕ → List Text → ℕ → List PeoFenceStatus × List Warning
  peo_loop zero fields i = ([], [])
  peo_loop (suc fuel) fields i = elim (ltb i (length fields)) [
    | false ↦ ([], [])
    | true ↦ elim (is_peo (get_elem? fields i)) [
      | false ↦ peo_loop fuel fields (i + 1)
      | true ↦ elim (read_peo fields i) [
        | malformed w ↦ ([], w ∷ [])
        | fence f last ↦ let rest = peo_loop fuel fields (last + 1) in (f ∷ rest.0, rest.1)
      ]
    ]
  ]

  pub parse_peo_fence_list : List Text → List PeoFenceStatus × List Warning
  parse_peo_fence_list fields = peo_loop (length fields) fields 0

  abbrev non_empty : {A : Type 0} → List A → Option (List A)
  non_empty [] = none
  non_empty (x ∷ xs) = some (x ∷ xs)

  -- `fields[0] || undefined`
  abbrev first_field : List Text → Option Text
  first_field [] = none
  first_field (f ∷ fields) = non_empty f

  pub parse_ascii_data_zone : List ℕ → Scan → AsciiFrameData × Scan
  parse_ascii_data_zone data_zone s =
      let raw = ascii data_zone in
      let fields : List Text = elim raw [ [] ↦ [] | c ∷ rest ↦ split_on b',' (c ∷ rest) ] in
      let peo = parse_peo_fence_list fields in
      (
        record {
          raw = raw;
          fields = fields;
          command_key = first_field fields;
          peo_fences = non_empty peo.0;
        },
        record s { warnings = s.warnings ++ peo.1 },
      )
